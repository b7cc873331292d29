-- ===== src/Anomaly.antt =====
-- internal/platform/anomaly/engine.go and errors.go: the rules of anomaly detection, in their table
-- and in the engine's memory, and the requests on them of internal/server/apiv1/anomaly.go.
-- The type of float64 is a parameter. A rule's channels are a list, also where the code has nil.
pub mod Requests
pub mod Agree
pub mod Writes
pub mod Served
pub mod Evaluation
use mathlib.Core.Option
use ykt_aisaas.Database.{Scope, every_row, rows_of, context_lost, scope}
use ykt_aisaas.Base.{
  ℕ, zero, suc, ◌^◌, ◌%◌, ltb, ◌+◌, ◌*◌, ◌/◌, ◌-◌, ◌≡◌, ◌≢◌, Bool, true, false, not, ◌&&◌, ◌||◌,
  Option, none, some, List, [], ◌∷◌, ◌++◌, Text, codes, text_eq, ℤ, pos, negsuc, Assoc, lookup, put,
  remove, if◌then◌else◌,
}

-- Rule; `window` is in nanoseconds.
pub record Rule (F : Type 0) : Type 0 where
  pub id : Text
  pub tenant_id : Text
  pub name : Text
  pub description : Text
  pub rule_type : Text
  pub metric : Text
  pub threshold : F
  pub window : ℤ
  pub severity : Text
  pub enabled : Bool
  pub channels : List Text

-- anomalyRuleDO, without its times.
pub record RuleRow (F : Type 0) : Type 0 where
  pub id : Text
  pub tenant_id : Text
  pub name : Text
  pub description : Option Text
  pub rule_type : Text
  pub metric : Text
  pub threshold_value : F
  pub window_size_ms : ℤ
  pub severity : Text
  pub enabled : Bool
  pub notification_channels : Text

-- Event, without the number that the database gives.
pub record Event (F : Type 0) : Type 0 where
  pub rule_id : Text
  pub tenant_id : Text
  pub triggered_at : ℕ
  pub metric_value : F
  pub severity : Text
  pub message : Text
  pub notified : Bool

pub data EngineError : Type 0 where
  rule_not_found : EngineError
  rule_id_required : EngineError
  invalid_rule_type : EngineError
  invalid_severity : EngineError
  failed : EngineError

-- What the engine calls: json, the affected rows of an UPDATE, comparison and format of float64.
pub record Outside (F : Type 0) : Type 0 where
  pub marshal : List Text → Text
  -- what json.Unmarshal leaves in a slice that was nil
  pub unmarshal : Text → List Text
  -- whether an UPDATE from one row to another counts as affected
  pub affects : RuleRow F → RuleRow F → Bool
  pub exceeds : F → F → Bool
  pub message_of : Text → F → F → Text
  -- how MySQL compares the column tenantId, a text, with the number of a tenant
  pub same_tenant : Text → ℕ → Bool
  -- the weight of an id in its collation: MySQL takes ids of one weight for the same
  pub key_of : Text → Text
  -- what a column DECIMAL(15,6) makes of a number that it takes
  pub rounded : F → F

-- Documented: an array of strings reads back, and its text is never empty; MySQL counts a row as
-- affected at least where the UPDATE changes it.
pub record Documented {F : Type 0} (O : Outside F) : Type 0 where
  pub marshal-solid : (channels : List Text) → text_eq (O.marshal channels) [] ≡ false
  pub unmarshal-marshal : (channels : List Text) → O.unmarshal (O.marshal channels) ≡ channels
  pub affects_changed : (r r' : RuleRow F) → O.affects r r' ≡ false → r' ≡ r

-- IsValidRuleType and IsValidSeverity
unfoldable pub is_valid_rule_type : Text → Bool
is_valid_rule_type t =
    text_eq t (codes "quota_burst")
    || text_eq t (codes "token_spike")
    || text_eq t (codes "error_rate")
    || text_eq t (codes "cost_anomaly")

unfoldable pub is_valid_severity : Text → Bool
is_valid_severity s =
    text_eq s (codes "info") || text_eq s (codes "warn") || text_eq s (codes "critical")

-- A product in int64, which wraps around
signed : ℕ → ℤ
signed n = if ltb n (2 ^ 63) then pos n else negsuc (2 ^ 64 - 1 - n)

wrapped : ℤ → ℤ
unfolding signed
wrapped (pos n) = signed (n % 2 ^ 64)
wrapped (negsuc n) = signed (2 ^ 64 - 1 - n % 2 ^ 64)

-- time.Duration(ms) * time.Millisecond, and Milliseconds, which rounds towards zero
unfoldable pub of_ms : ℤ → ℤ
unfolding wrapped
of_ms (pos n) = wrapped (pos (n * 1000000))
of_ms (negsuc n) = wrapped (negsuc (n * 1000000 + 999999))

minus_nat : ℕ → ℤ
minus_nat zero = pos 0
minus_nat (suc n) = negsuc n

unfoldable pub to_ms : ℤ → ℤ
unfolding minus_nat
to_ms (pos n) = pos (n / 1000000)
to_ms (negsuc n) = minus_nat (suc n / 1000000)

-- The engine's maps, the table of rules by the weights of their ids, and the events stored.
pub record Engine (F : Type 0) : Type 0 where
  pub rows : Assoc (RuleRow F)
  pub rules : Assoc (Rule F)
  pub events : List (Event F)

abbrev pub text_or_empty : Option Text → Text
text_or_empty none = []
text_or_empty (some s) = s

module _ {F : Type 0} (O : Outside F) where
  open O use {marshal, unmarshal, affects, same_tenant, key_of, rounded}

  -- Whether a statement sees a row.
  unfoldable pub in_scope : Scope → RuleRow F → Bool
  in_scope every_row row = true
  in_scope (rows_of tid) row = same_tenant row.tenant_id tid
  in_scope context_lost row = false

  -- rowToRule
  unfoldable pub row_to_rule : RuleRow F → Rule F
  unfolding of_ms
  row_to_rule row = record {
    id = row.id;
    tenant_id = row.tenant_id;
    name = row.name;
    description = text_or_empty row.description;
    rule_type = row.rule_type;
    metric = row.metric;
    threshold = row.threshold_value;
    window = of_ms row.window_size_ms;
    severity = row.severity;
    enabled = row.enabled;
    channels =
        if text_eq row.notification_channels [] then [] else unmarshal row.notification_channels;
  }

  -- loadRules: the rows with enabled = true that the statement sees, each put into a new map
  unfoldable pub load_rows : Scope → Assoc (RuleRow F) → Assoc (Rule F) → Assoc (Rule F)
  unfolding row_to_rule in_scope
  load_rows sc [] rules = rules
  load_rows sc ((key, row) ∷ rows) rules =
      load_rows sc rows
        (if in_scope sc row && row.enabled then put row.id (row_to_rule row) rules else rules)

  unfoldable pub load_rules : Bool → Scope → Engine F → Bool × Engine F
  unfolding load_rows
  load_rules stored context_lost e = (false, e)
  load_rules stored sc e =
      if stored then (true, record e { rules = load_rows sc e.rows [] }) else (false, e)

  -- NewEngine and Start on the same database, in a new process whose context has no tenant.
  -- `exempt` says whether the configuration exempts the table of rules from the tenant plugin.
  unfoldable pub restart : Bool → Bool → Engine F → Engine F
  unfolding load_rules scope
  restart stored exempt e =
      (load_rules stored (scope exempt false none) (record e { rules = [] })).1

  -- The row that AddRule inserts.
  unfoldable pub row_of : Rule F → RuleRow F
  unfolding to_ms
  row_of rule = record {
    id = rule.id;
    tenant_id = rule.tenant_id;
    name = rule.name;
    description = if text_eq rule.description [] then none else some rule.description;
    rule_type = rule.rule_type;
    metric = rule.metric;
    threshold_value = rounded rule.threshold;
    window_size_ms = to_ms rule.window;
    severity = rule.severity;
    enabled = rule.enabled;
    notification_channels = marshal rule.channels;
  }

  -- An INSERT: an error where the statement fails or the primary key is taken.
  inserted : Bool → Rule F → Option (RuleRow F) → Engine F → Option EngineError × Engine F
  unfolding row_of
  inserted false rule found e = (some failed, e)
  inserted true rule (some row) e = (some failed, e)
  inserted true rule none e = (
    none,
    record e { rows = put (key_of rule.id) (row_of rule) e.rows; rules = put rule.id rule e.rules },
  )

  -- AddRule
  unfoldable pub add_rule : Bool → Rule F → Engine F → Option EngineError × Engine F
  unfolding inserted is_valid_rule_type is_valid_severity
  add_rule stored rule e =
      if text_eq rule.id []
      then (some rule_id_required, e)
      else if not (is_valid_rule_type rule.rule_type)
      then (some invalid_rule_type, e)
      else if not (is_valid_severity rule.severity)
      then (some invalid_severity, e)
      else inserted stored rule (lookup (key_of rule.id) e.rows) e

  -- The columns that UpdateRule writes: all but the tenant's.
  unfoldable pub written : Rule F → RuleRow F → RuleRow F
  unfolding to_ms
  written rule row = record row {
    name = rule.name;
    description = some rule.description;
    rule_type = rule.rule_type;
    metric = rule.metric;
    threshold_value = rounded rule.threshold;
    window_size_ms = to_ms rule.window;
    severity = rule.severity;
    enabled = rule.enabled;
    notification_channels = marshal rule.channels;
  }

  cache_updated : Rule F → Assoc (Rule F) → Assoc (Rule F)
  cache_updated rule rules = if rule.enabled then put rule.id rule rules else remove rule.id rules

  updated : Bool → Rule F → Option (RuleRow F) → Engine F → Option EngineError × Engine F
  unfolding written cache_updated
  updated false rule found e = (some failed, e)
  updated true rule none e = (some rule_not_found, e)
  updated true rule (some row) e =
      let rows = put (key_of rule.id) (written rule row) e.rows in
      if affects row (written rule row)
      then (none, record e { rows = rows; rules = cache_updated rule e.rules })
      else (some rule_not_found, record e { rows = rows })

  -- UpdateRule
  unfoldable pub update_rule : Bool → Rule F → Engine F → Option EngineError × Engine F
  unfolding updated
  update_rule stored rule e =
      if text_eq rule.id []
      then (some rule_id_required, e)
      else updated stored rule (lookup (key_of rule.id) e.rows) e

  removed : Bool → Text → Option (RuleRow F) → Engine F → Option EngineError × Engine F
  removed false id found e = (some failed, e)
  removed true id none e = (some rule_not_found, e)
  removed true id (some row) e =
      (none, record e { rows = remove (key_of id) e.rows; rules = remove id e.rules })

  -- RemoveRule
  unfoldable pub remove_rule : Bool → Text → Engine F → Option EngineError × Engine F
  unfolding removed
  remove_rule stored id e = removed stored id (lookup (key_of id) e.rows) e

  -- GetRule
  unfoldable pub readable : Scope → Option (RuleRow F) → Option (RuleRow F)
  unfolding in_scope
  readable sc none = none
  readable sc (some row) = if in_scope sc row then some row else none

  unfoldable pub get_rule : Bool → Scope → Text → Engine F → Option (Rule F)
  unfolding row_to_rule readable
  get_rule answers sc id e =
      if answers then Option.map row_to_rule (readable sc (lookup (key_of id) e.rows)) else none
