-- ===== src/AbTest/Assign.antt =====
-- internal/platform/abtest (service.go, hash.go): AssignVariant and SelectVariant. The type of
-- float64 and SHA-256 are arguments, and so is what the SELECT of the variants finds in its order.
-- `now` is in nanoseconds. Keys of the prefix of assignments are only written here, as texts.
use ykt_aisaas.Base.{
  ℕ, ◌%◌, ◌+◌, ltb, ◌==◌, Bool, true, false, ◌&&◌, Option, none, some, List, [], ◌∷◌, ◌++◌, Text,
  codes, text_eq, if◌then◌else◌,
}
use ykt_aisaas.Redis.{Redis, Link, Value, str, str_until}
use ykt_aisaas.Database.{scope}
use ykt_aisaas.AbTest.{Experiment, running, status_eq, runs}
use ykt_aisaas.Redisx.{command, is_answered}

-- The arithmetic of float64 that SelectVariant uses; `percent_of` is BucketToPercent.
pub record Floats (F : Type 0) : Type 0 where
  pub zero_float : F
  pub add : F → F → F
  pub less : F → F → Bool
  pub percent_of : ℕ → F

pub record Variant (F : Type 0) : Type 0 where
  pub id : ℕ
  pub name : Text
  pub allocation_percent : F
  pub is_control : Bool

-- A row of ykt_aisaas_ab_assignments
pub record Assignment : Type 0 where
  pub experiment_id : ℕ
  pub variant_id : ℕ
  pub user_id : Text
  pub tenant_id : ℕ

-- HashBucket, from the first eight bytes of the hash
unfoldable pub hash_bucket : (Text → ℕ) → Text → Text → ℕ
hash_bucket hash64 experiment user = hash64 (experiment ++ (codes ":" ++ user)) % 10000

unfoldable pub assign_key : Text → Text → Text
assign_key experiment user = codes "ab:assign:" ++ (experiment ++ (codes ":" ++ user))

-- INSERT IGNORE under the unique key of experiment and user
unfoldable pub is_assigned : ℕ → Text → List Assignment → Bool
is_assigned exp user [] = false
is_assigned exp user (a ∷ rows) =
    let rest = is_assigned exp user rows in
    if a.experiment_id == exp && text_eq a.user_id user then true else rest

unfoldable pub insert_ignore : Bool → Assignment → List Assignment → List Assignment
unfolding is_assigned
insert_ignore false a rows = rows
insert_ignore true a rows = if is_assigned a.experiment_id a.user_id rows then rows else a ∷ rows

unfoldable pub cached_name : ℕ → Option Value → Text
cached_name now (some (str s)) = s
cached_name now (some (str_until expiry s)) = if ltb now expiry then s else []
cached_name now _ = []

-- 24 hours in nanoseconds
abbrev pub assign_ttl : ℕ
assign_ttl = 86400000000000

-- WHERE name = ? AND status = 'running', with the collation of the names
unfoldable pub find_running : (Text → Text → Bool) → Text → List Experiment → Option Experiment
find_running same name [] = none
find_running same name (e ∷ rows) =
    let rest = find_running same name rows in
    if same e.name name && status_eq e.status running then some e else rest

module _ {F : Type 0} (fl : Floats F) where
  open fl use {zero_float, add, less, percent_of}

  -- The loop of SelectVariant; the last variant where none is reached
  unfoldable pub select_from : F → F → Variant F → List (Variant F) → Variant F
  select_from bucket cumulative last [] = last
  select_from bucket cumulative last (v ∷ vs) =
      let total = add cumulative v.allocation_percent in
      let rest = select_from bucket total v vs in if less bucket total then v else rest

  -- SelectVariant
  unfoldable pub select_variant : ℕ → List (Variant F) → Option (Variant F)
  unfolding select_from
  select_variant bucket [] = none
  select_variant bucket (v ∷ vs) = some (select_from (percent_of bucket) zero_float v (v ∷ vs))

module _ {F : Type 0} where
  unfoldable pub find_named : Text → List (Variant F) → Option (Variant F)
  find_named name [] = none
  find_named name (v ∷ vs) =
      let rest = find_named name vs in if text_eq v.name name then some v else rest

  -- The hit of the cache: a name that is not empty, of a variant that is still there
  unfoldable pub hit : Text → List (Variant F) → Option (Variant F)
  unfolding find_named
  hit [] vs = none
  hit (c ∷ name) vs = find_named (c ∷ name) vs

module _ {F : Type 0} (R : Redis) (fl : Floats F) (hash64 : Text → ℕ) where
  open R use {Db, read, set}

  unfoldable pub cached_variant : Link → ℕ → Text → List (Variant F) → Db → Option (Variant F)
  unfolding cached_name hit
  cached_variant link now key vs d =
      if is_answered link then hit (cached_name now (read d key)) vs else none

  unfoldable pub store_assignment :
      Bool
      → Link
      → ℕ
      → ℕ
      → Text
      → Text
      → ℕ
      → Option (Variant F)
      → Db
      → List Assignment
      → Option (Variant F) × Db × List Assignment
  unfolding insert_ignore command
  store_assignment stored put now exp key user tid none d rows = (none, d, rows)
  store_assignment stored put now exp key user tid (some v) d rows = (
    some v,
    command R put (set key (str_until (now + assign_ttl) v.name)) d,
    insert_ignore stored
        (record { experiment_id = exp; variant_id = v.id; user_id = user; tenant_id = tid }) rows,
  )

  unfoldable pub assign_loaded :
      Bool
      → Link
      → ℕ
      → ℕ
      → List (Variant F)
      → Text
      → Text
      → ℕ
      → Option (Variant F)
      → Db
      → List Assignment
      → Option (Variant F) × Db × List Assignment
  unfolding store_assignment select_variant hash_bucket assign_key
  assign_loaded stored put now exp vs experiment user tid (some v) d rows = (some v, d, rows)
  assign_loaded stored put now exp vs experiment user tid none d rows =
      store_assignment stored put now exp (assign_key experiment user) user tid
        (select_variant fl (hash_bucket hash64 experiment user) vs) d rows

  -- loadRunningExperimentWithVariants: the id of the experiment and its variants
  unfoldable pub load_running :
      Bool
      → Bool
      → (Text → Text → Bool)
      → Text
      → List Experiment
      → (ℕ → List (Variant F))
      → Option (ℕ × List (Variant F))
  unfolding find_running
  load_running false answers' same name experiments variants_of = none
  load_running true answers' same name experiments variants_of =
      loaded answers' (find_running same name experiments)
    where
      loaded : Bool → Option Experiment → Option (ℕ × List (Variant F))
      loaded answers' none = none
      loaded false (some exp) = none
      loaded true (some exp) = some (exp.id, variants_of exp.id)

  -- What follows of AssignVariant; none for an error
  unfoldable pub assign_with :
      Link
      → Bool
      → Link
      → ℕ
      → Option (ℕ × List (Variant F))
      → Text
      → Text
      → ℕ
      → Db
      → List Assignment
      → Option (Variant F) × Db × List Assignment
  unfolding assign_loaded cached_variant assign_key
  assign_with get stored put now none experiment user tid d rows = (none, d, rows)
  assign_with get stored put now (some (exp, vs)) experiment user tid d rows =
      assign_loaded stored put now exp vs experiment user tid
        (cached_variant get now (assign_key experiment user) vs d) d rows

  -- AssignVariant, in a context with a tenant or none, with what its two SELECTs, its GET, its INSERT
  -- (which skips the tenant plugin) and its SET come to
  unfoldable pub assign_variant :
      Bool
      → Option ℕ
      → Bool
      → Bool
      → Link
      → Bool
      → Link
      → (Text → Text → Bool)
      → ℕ
      → List Experiment
      → (ℕ → List (Variant F))
      → Text
      → Text
      → ℕ
      → Db
      → List Assignment
      → Option (Variant F) × Db × List Assignment
  unfolding load_running assign_with runs scope
  assign_variant exempt ctx answers answers' get stored put same now experiments variants_of name
        user tid d rows =
      let sc = scope exempt false ctx in
      assign_with get stored put now
        (load_running (runs sc answers) (runs sc answers') same name experiments variants_of) name
        user tid d rows
