-- ===== src/Llm.antt =====
-- internal/llm/registry.go: which upstream model serves a model id of a tenant, through a cache in
-- the process. The type of prices and the decryption of upstream keys are arguments; a context
-- without tenant counts as tenant 0. `now` is in nanoseconds.
pub mod Visible
pub mod Resolving
use ykt_aisaas.Base.{
  ℕ, zero, suc, ◌+◌, ltb, ◌==◌, Bool, true, false, not, ◌&&◌, ◌||◌, Option, none, some, List, [],
  ◌∷◌, ◌++◌, Text, codes, decimal, text_eq, ℤ, pos, ltb_ℤ, filter, Assoc, lookup, put,
  if◌then◌else◌,
}
use ykt_aisaas.Errs.{ErrorCode, internal, model_not_found}
use ykt_aisaas.Auth.{is_one}

-- ModelDO, with the column isDeleted that the statements test
pub record ModelDo (F : Type 0) : Type 0 where
  pub id : ℕ
  pub tenant_id : Option ℕ
  pub model_id : Text
  pub provider : Text
  pub base_url : Text
  pub api_key_enc : Text
  pub upstream_model : Text
  pub kind : Text
  pub price_input_cents : F
  pub price_output_cents : F
  pub is_default : ℤ
  pub status : ℤ
  pub is_deleted : Bool

-- Resolved, its client as the two things that it is made of
pub record Resolved : Type 0 where
  pub model_id : Text
  pub upstream_model : Text
  pub provider : Text
  pub kind : Text
  pub base_url : Text
  pub api_key : Text

pub record CacheEntry (F : Type 0) : Type 0 where
  pub model : ModelDo F
  pub expire : ℕ

-- 5 minutes in nanoseconds
abbrev pub cache_ttl : ℕ
cache_ttl = 300000000000

-- fmt.Sprintf("%d|%s", tid, modelID)
unfoldable pub cache_key : ℕ → Text → Text
cache_key tid model_id = decimal tid ++ 124 ∷ model_id

pub data Answer (A : Type 0) : Type 0 where
  ok : A → Answer A
  err : ErrorCode → Answer A

-- The table of models. MySQL compares model ids by the collation of their column.
pub record Models (F : Type 0) : Type 0 where
  pub same_id : Text → Text → Bool
  pub rows : List (ModelDo F)

abbrev pub is_of : ℕ → Option ℕ → Bool
is_of tid none = false
is_of tid (some t) = t == tid

abbrev pub is_global : Option ℕ → Bool
is_global none = true
is_global (some t) = false

-- The conditions on the tenant: its own rows and the global ones, for tenant 0 the global ones
abbrev pub may_see : ℕ → Option ℕ → Bool
may_see zero owner = is_global owner
may_see (suc n) owner = is_of (suc n) owner || is_global owner

module _ {F : Type 0} where
  -- WHERE modelId = ? AND isDeleted = 0, and the condition `owned` on the tenant; the first
  unfoldable pub first_where :
      (Text → Text → Bool) → (Option ℕ → Bool) → Text → List (ModelDo F) → Option (ModelDo F)
  first_where same owned model_id [] = none
  first_where same owned model_id (m ∷ rows) =
      let rest = first_where same owned model_id rows in
      if (same m.model_id model_id && not m.is_deleted) && owned m.tenant_id then some m else rest

  unfoldable pub or_else : Option (ModelDo F) → Option (ModelDo F) → Option (ModelDo F)
  or_else none other = other
  or_else (some m) other = some m

  -- The SELECT of load: tenantId DESC puts a tenant's own rows before the global ones.
  unfoldable pub select_model : ℕ → Text → Models F → Option (ModelDo F)
  unfolding first_where or_else
  select_model zero model_id table = first_where table.same_id is_global model_id table.rows
  select_model (suc n) model_id table =
      or_else (first_where table.same_id (is_of (suc n)) model_id table.rows)
        (first_where table.same_id is_global model_id table.rows)

  -- The cached model, while it has not expired
  unfoldable pub fresh : ℕ → Option (CacheEntry F) → Option (ModelDo F)
  fresh now none = none
  fresh now (some e) = if ltb now e.expire then some e.model else none

  unfoldable pub loaded :
      ℕ
      → Text
      → Option (ModelDo F)
      → Assoc (CacheEntry F)
      → Answer (ModelDo F) × Assoc (CacheEntry F)
  loaded now key none cache = (err model_not_found, cache)
  loaded now key (some m) cache =
      (ok m, put key (record { model = m; expire = now + cache_ttl }) cache)

  unfoldable pub load_uncached :
      Bool
      → ℕ
      → ℕ
      → Text
      → Option (ModelDo F)
      → Models F
      → Assoc (CacheEntry F)
      → Answer (ModelDo F) × Assoc (CacheEntry F)
  unfolding loaded select_model cache_key
  load_uncached answers now tid model_id (some m) rows cache = (ok m, cache)
  load_uncached answers now tid model_id none rows cache =
      if answers
      then loaded now (cache_key tid model_id) (select_model tid model_id rows) cache
      else (err internal, cache)

  -- load
  unfoldable pub load :
      Bool
      → ℕ
      → ℕ
      → Text
      → Models F
      → Assoc (CacheEntry F)
      → Answer (ModelDo F) × Assoc (CacheEntry F)
  unfolding load_uncached fresh cache_key
  load answers now tid model_id rows cache =
      load_uncached answers now tid model_id (fresh now (lookup (cache_key tid model_id) cache))
        rows cache

  unfoldable pub decrypted : ModelDo F → Option Text → Answer Resolved
  decrypted m none = err internal
  decrypted m (some key) = ok (record {
    model_id = m.model_id;
    upstream_model = m.upstream_model;
    provider = m.provider;
    kind = m.kind;
    base_url = m.base_url;
    api_key = key;
  })

  unfoldable pub resolved : (Text → Option Text) → Text → Answer (ModelDo F) → Answer Resolved
  unfolding decrypted
  resolved decrypt want (err e) = err e
  resolved decrypt want (ok m) =
      if not (text_eq m.kind want)
      then err model_not_found
      else if not (is_one m.status)
      then err model_not_found
      else decrypted m (decrypt m.api_key_enc)

  -- ResolveFor
  unfoldable pub resolve_for :
      (Text → Option Text)
      → Bool
      → ℕ
      → ℕ
      → Text
      → Text
      → Models F
      → Assoc (CacheEntry F)
      → Answer Resolved × Assoc (CacheEntry F)
  unfolding resolved load
  resolve_for decrypt answers now tid model_id want rows cache =
      let (model, cache') = load answers now tid model_id rows cache in
      (resolved decrypt want model, cache')

  -- Resolve
  unfoldable pub resolve :
      (Text → Option Text)
      → Bool
      → ℕ
      → ℕ
      → Text
      → Models F
      → Assoc (CacheEntry F)
      → Answer Resolved × Assoc (CacheEntry F)
  unfolding resolve_for
  resolve decrypt answers now tid model_id rows cache =
      resolve_for decrypt answers now tid model_id (codes "chat") rows cache

  -- ListChatModels
  unfoldable pub list_chat_models : Bool → ℕ → List (ModelDo F) → Answer (List (ModelDo F))
  list_chat_models answers tid rows =
      if answers
      then ok (
          filter
            (λ (m : ModelDo F).
              ((text_eq m.kind (codes "chat") && is_one m.status) && not m.is_deleted)
              && may_see tid m.tenant_id)
            rows)
      else err internal

  -- Price, over the entries in the order in which the loop meets them; `zero_price` is 0.
  unfoldable pub price : F → Text → Assoc (CacheEntry F) → F × F
  price zero_price model_id [] = (zero_price, zero_price)
  price zero_price model_id ((key, e) ∷ cache) =
      let rest = price zero_price model_id cache in
      if text_eq e.model.model_id model_id
      then (e.model.price_input_cents, e.model.price_output_cents)
      else rest

  -- ORDER BY isDefault DESC, the first
  unfoldable pub preferred : List (ModelDo F) → Option (ModelDo F)
  preferred [] = none
  preferred (m ∷ rows) = elim (preferred rows) [
    | none ↦ some m
    | some best ↦ if ltb_ℤ m.is_default best.is_default then some best else some m
  ]

  unfoldable pub default_of : Answer (List (ModelDo F)) → Text
  unfolding preferred
  default_of (err e) = []
  default_of (ok rows) = elim (preferred rows) [ none ↦ [] | some m ↦ m.model_id ]

  -- DefaultModelID
  unfoldable pub default_model_id : Bool → ℕ → List (ModelDo F) → Text
  unfolding default_of list_chat_models
  default_model_id answers tid rows = default_of (list_chat_models answers tid rows)
