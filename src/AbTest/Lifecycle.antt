-- ===== src/AbTest/Lifecycle.antt =====
-- The life of an experiment (abtest): what operations that run one after another keep, and what a
-- transition whose SELECT is out of date does.
use ykt_aisaas.Base.{
  ℕ, ◌≡◌, refl, ◌∙◌, Bool, true, false, not, ◌&&◌, ◌||◌, inl, inr, Bool-cases, Option-cases, Option,
  none, some, List, [], ◌∷◌, arith, All,
}
use ykt_aisaas.Database.{scope}
use ykt_aisaas.AbTest.{
  runs, perform, ExperimentStatus, draft, running, paused, completed, other, Experiment, status_eq,
  can_transition, load_experiment, with_id, updated, start_rest, start_experiment, transition_rest,
  pause_experiment, stop_experiment, Op, start_op, pause_op, stop_op, perform, perform_all,
}
use ykt_aisaas.AbTest.Updates.{is_distinct, is_distinct-update, update_loaded, update-All}

abbrev pub is_some : Option ℕ → Bool
is_some none = false
is_some (some n) = true

-- The times that an experiment's status calls for: a draft has neither, a completed one both.
abbrev pub dated : ExperimentStatus → Bool → Bool → Bool
dated draft started ended = not started && not ended
dated running started ended = started && not ended
dated paused started ended = started && not ended
dated completed started ended = started && ended
dated (other s) started ended = false

abbrev pub IsDated : Experiment → Type 0
IsDated e = dated e.status (is_some e.started_at) (is_some e.ended_at) ≡ true

-- Distinct ids, and every experiment with the times that its status calls for.
pub record IsTable (rows : List Experiment) : Type 0 where
  pub apart : is_distinct rows ≡ true
  pub dates : All IsDated rows

updated-IsTable :
    (stored : Bool) (n : ℕ) (old rows : List Experiment)
    → IsTable old
    → IsTable rows
    → IsTable (updated stored old (n, rows)).1
unfolding updated
updated-IsTable true n old rows t t' = t'
updated-IsTable false n old rows t t' = t

start-IsDated :
    (now : ℕ) (e : Experiment)
    → can_transition e.status running ≡ true
    → IsDated e
    → IsDated (record e { status = running; started_at = some now })
unfolding can_transition
start-IsDated now e allowed h = ground arith

pause-IsDated :
    (e : Experiment)
    → can_transition e.status paused ≡ true
    → IsDated e
    → IsDated (record e { status = paused })
unfolding can_transition
pause-IsDated e allowed h = ground arith

stop-IsDated :
    (i now : ℕ) (e : Experiment)
    → (with_id i e && (status_eq e.status running || status_eq e.status paused)) ≡ true
    → IsDated e
    → IsDated (record e { status = completed; ended_at = some now })
stop-IsDated i now e hit h = ground arith

start-IsTable :
    (loaded stored : Bool) (i now : ℕ) (rows : List Experiment)
    → IsTable rows
    → IsTable (start_experiment loaded stored i now rows).1
unfolding start_experiment start_rest load_experiment
start-IsTable false stored i now rows t = t
start-IsTable true stored i now rows t = elim (Option-cases (load_experiment true i rows)) [
  | inl missing ↦ rw missing t
  | inr (exp, found) ↦ rw found (elim (Bool-cases (can_transition exp.status running)) [
    | inl allowed ↦ rw allowed (
        updated-IsTable stored _ rows _ t (record {
          apart = is_distinct-update (with_id i) _ rows (λ e. refl) ∙ t.apart;
          dates =
              update_loaded IsDated i _ rows exp found t.apart (start-IsDated now exp allowed)
                t.dates;
        }))
    | inr refused ↦ rw refused t
  ])
]

pause-IsTable :
    (loaded stored : Bool) (i : ℕ) (rows : List Experiment)
    → IsTable rows
    → IsTable (pause_experiment loaded stored i rows).1
unfolding pause_experiment transition_rest load_experiment
pause-IsTable false stored i rows t = t
pause-IsTable true stored i rows t = elim (Option-cases (load_experiment true i rows)) [
  | inl missing ↦ rw missing t
  | inr (exp, found) ↦ rw found (elim (Bool-cases (can_transition exp.status paused)) [
    | inl allowed ↦ rw allowed (
        updated-IsTable stored _ rows _ t (record {
          apart = is_distinct-update (with_id i) _ rows (λ e. refl) ∙ t.apart;
          dates =
              update_loaded IsDated i _ rows exp found t.apart (pause-IsDated exp allowed) t.dates;
        }))
    | inr refused ↦ rw refused t
  ])
]

stop-IsTable :
    (stored : Bool) (i now : ℕ) (rows : List Experiment)
    → IsTable rows
    → IsTable (stop_experiment stored i now rows).1
unfolding stop_experiment
stop-IsTable stored i now rows t = updated-IsTable stored _ rows _ t (record {
  apart = is_distinct-update _ _ rows (λ e. refl) ∙ t.apart;
  dates = update-All IsDated _ _ rows (stop-IsDated i now) t.dates;
})

-- Starts, pauses and stops that run one after another, whichever of their statements fail, keep
-- every experiment in one of the four states with the times that its state calls for: a draft has
-- none, a running or paused experiment has started, a completed one has also ended.
pub perform_all-IsTable :
    (exempt : Bool) (ops : List Op) (rows : List Experiment)
    → IsTable rows
    → IsTable (perform_all exempt ops rows)
unfolding perform_all perform
perform_all-IsTable exempt [] rows t = t
perform_all-IsTable exempt (start_op ctx loaded stored i now ∷ ops) rows t =
    let sc = scope exempt false ctx in
    perform_all-IsTable exempt ops _ (start-IsTable (runs sc loaded) (runs sc stored) i now rows t)
perform_all-IsTable exempt (pause_op ctx loaded stored i ∷ ops) rows t =
    let sc = scope exempt false ctx in
    perform_all-IsTable exempt ops _ (pause-IsTable (runs sc loaded) (runs sc stored) i rows t)
perform_all-IsTable exempt (stop_op ctx stored i now ∷ ops) rows t =
    let sc = scope exempt false ctx in
    perform_all-IsTable exempt ops _ (stop-IsTable (runs sc stored) i now rows t)
