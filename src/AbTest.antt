-- ===== src/AbTest.antt =====
-- internal/platform/abtest (errors.go, service.go): the states of an experiment and the operations
-- that change them. A `Bool` says whether a statement succeeds. A transition is a SELECT and then an
-- UPDATE, between which other clients can run: `transition_rest` and `start_rest` are what follows
-- the SELECT.
pub mod Updates
pub mod Lifecycle
pub mod Assign
pub mod Assigned
use ykt_aisaas.Base.{
  ℕ, zero, suc, ◌==◌, Bool, true, false, not, ◌&&◌, ◌||◌, Option, none, some, List, [], ◌∷◌, Text,
  text_eq, if◌then◌else◌,
}
use ykt_aisaas.Database.{Scope, every_row, rows_of, context_lost, scope}

pub data ExperimentStatus : Type 0 where
  draft running paused completed : ExperimentStatus
  other : Text → ExperimentStatus

abbrev pub status_eq : ExperimentStatus → ExperimentStatus → Bool
status_eq draft draft = true
status_eq running running = true
status_eq paused paused = true
status_eq completed completed = true
status_eq (other s) (other t) = text_eq s t
status_eq _ _ = false

-- ValidTransitions
unfoldable pub valid_transitions : ExperimentStatus → Option (List ExperimentStatus)
valid_transitions draft = some (running ∷ [])
valid_transitions running = some (paused ∷ completed ∷ [])
valid_transitions paused = some (running ∷ completed ∷ [])
valid_transitions completed = some []
valid_transitions (other s) = none

targets : Option (List ExperimentStatus) → ExperimentStatus → Bool
targets none to = false
targets (some []) to = false
targets (some (t ∷ ts)) to = status_eq t to || targets (some ts) to

-- CanTransition
unfoldable pub can_transition : ExperimentStatus → ExperimentStatus → Bool
unfolding targets valid_transitions
can_transition from to = targets (valid_transitions from) to

-- A row of ykt_aisaas_ab_experiments, as far as these operations read and write it.
pub record Experiment : Type 0 where
  pub id : ℕ
  pub name : Text
  pub status : ExperimentStatus
  pub started_at : Option ℕ
  pub ended_at : Option ℕ

pub data Outcome : Type 0 where
  done not_found failed : Outcome
  cannot_transition : ExperimentStatus → Outcome

-- loadExperiment: any error reads as "not found".
unfoldable pub load_experiment : Bool → ℕ → List Experiment → Option Experiment
load_experiment false i rows = none
load_experiment true i [] = none
load_experiment true i (e ∷ rows) =
    let rest = load_experiment true i rows in if e.id == i then some e else rest

unfoldable pub update_where :
    (Experiment → Bool) → (Experiment → Experiment) → List Experiment → ℕ × List Experiment
update_where p f [] = (0, [])
update_where p f (e ∷ rows) =
    let (n, rest) = update_where p f rows in if p e then (suc n, f e ∷ rest) else (n, e ∷ rest)

abbrev pub with_id : ℕ → Experiment → Bool
with_id i e = e.id == i

-- The end of each operation: a statement that fails, or that finds no row.
unfoldable pub updated : Bool → List Experiment → ℕ × List Experiment → Outcome × List Experiment
updated false old (n, rows) = (failed, old)
updated true old (n, rows) = (if n == 0 then not_found else done, rows)

-- StartExperiment, after its SELECT
unfoldable pub start_rest :
    Option Experiment → Bool → ℕ → ℕ → List Experiment → Outcome × List Experiment
unfolding can_transition update_where updated
start_rest none stored i now rows = (not_found, rows)
start_rest (some exp) stored i now rows =
    if can_transition exp.status running
    then updated stored rows (
        update_where (with_id i)
          (λ (e : Experiment). record e { status = running; started_at = some now }) rows)
    else (cannot_transition exp.status, rows)

-- StartExperiment
unfoldable pub start_experiment : Bool → Bool → ℕ → ℕ → List Experiment → Outcome × List Experiment
unfolding start_rest load_experiment
start_experiment loaded stored i now rows =
    start_rest (load_experiment loaded i rows) stored i now rows

-- transitionStatus, after its SELECT
unfoldable pub transition_rest :
    Option Experiment → Bool → ℕ → ExperimentStatus → List Experiment → Outcome × List Experiment
unfolding can_transition update_where updated
transition_rest none stored i target rows = (not_found, rows)
transition_rest (some exp) stored i target rows =
    if can_transition exp.status target
    then updated stored rows
        (update_where (with_id i) (λ (e : Experiment). record e { status = target }) rows)
    else (cannot_transition exp.status, rows)

-- PauseExperiment
unfoldable pub pause_experiment : Bool → Bool → ℕ → List Experiment → Outcome × List Experiment
unfolding transition_rest load_experiment
pause_experiment loaded stored i rows =
    transition_rest (load_experiment loaded i rows) stored i paused rows

-- StopExperiment: its test on the status is in the UPDATE
unfoldable pub stop_experiment : Bool → ℕ → ℕ → List Experiment → Outcome × List Experiment
unfolding update_where updated
stop_experiment stored i now rows = updated stored rows (
    update_where
      (λ (e : Experiment). with_id i e && (status_eq e.status running || status_eq e.status paused))
      (λ (e : Experiment). record e { status = completed; ended_at = some now }) rows)

-- Whether a statement on the tables of experiments succeeds: the condition that the tenant plugin adds
-- is on a column tenantId, which migration 000021 does not give them, and MySQL refuses it.
unfoldable pub runs : Scope → Bool → Bool
runs every_row ok = ok
runs (rows_of tid) ok = false
runs context_lost ok = false

-- Operations, each in a context with a tenant or without
pub data Op : Type 0 where
  start_op : (ctx : Option ℕ) → (loaded stored : Bool) → (i now : ℕ) → Op
  pause_op : (ctx : Option ℕ) → (loaded stored : Bool) → (i : ℕ) → Op
  stop_op : (ctx : Option ℕ) → (stored : Bool) → (i now : ℕ) → Op

-- `exempt` says whether the configuration exempts the tables from the plugin.
unfoldable pub perform : Bool → Op → List Experiment → List Experiment
unfolding start_experiment pause_experiment stop_experiment runs scope
perform exempt (start_op ctx loaded stored i now) rows =
    let sc = scope exempt false ctx in
    (start_experiment (runs sc loaded) (runs sc stored) i now rows).1
perform exempt (pause_op ctx loaded stored i) rows =
    let sc = scope exempt false ctx in (pause_experiment (runs sc loaded) (runs sc stored) i rows).1
perform exempt (stop_op ctx stored i now) rows =
    let sc = scope exempt false ctx in (stop_experiment (runs sc stored) i now rows).1

unfoldable pub perform_all : Bool → List Op → List Experiment → List Experiment
unfolding perform
perform_all exempt [] rows = rows
perform_all exempt (op ∷ ops) rows = perform_all exempt ops (perform exempt op rows)
