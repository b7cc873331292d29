-- ===== src/Llm/Visible.antt =====
-- A tenant is served by its own models and the global ones only, also through the cache.
use mathlib.Core.List.{Memᴰ}
use mathlib.Core.List.Memᴰ.{head, tail}
use ykt_aisaas.Base.{
  ℕ, zero, suc, ◌≡◌, ◌≢◌, refl, sym, ◌∙◌, subst, Bool, true, false, not, ◌&&◌, ◌||◌, ◌⊎◌, inl, inr,
  Bool-cases, Option, none, some, List, [], ◌∷◌, Text, text_eq, text_eq_iff, decimal,
  decimal-injective, All-digits-decimal, All, IsDigit, split_at, Assoc, lookup, put, lookup-put,
  if◌then◌else◌, arith,
}
use ykt_aisaas.Llm.{
  ModelDo, Models, CacheEntry, cache_key, is_of, is_global, may_see, first_where, or_else,
  select_model,
}

no_bar : (s : Text) → All IsDigit s → All (λ c. c ≢ 124) s
no_bar [] h = tt
no_bar (c ∷ s) h = (omega arith, no_bar s h.1)

-- Two entries share a key only if tenant and model id are the same.
pub cache_key-injective :
    (tid tid' : ℕ) (model_id model_id' : Text)
    → cache_key tid model_id ≡ cache_key tid' model_id'
    → (tid ≡ tid') × (model_id ≡ model_id')
unfolding cache_key
cache_key-injective tid tid' model_id model_id' e =
    let (same, rest) =
      split_at 124 (decimal tid) (decimal tid') model_id model_id'
        (no_bar (decimal tid) (All-digits-decimal tid))
        (no_bar (decimal tid') (All-digits-decimal tid')) e in
    (decimal-injective tid tid' same, rest)

module _ {F : Type 0} where
  -- A row of the table that a tenant's SELECT of a model id may find
  pub record IsVisible (table : Models F) (tid : ℕ) (model_id : Text) (m : ModelDo F) : Type 0 where
    pub listed : Memᴰ m table.rows
    pub named : table.same_id m.model_id model_id ≡ true
    pub owned : may_see tid m.tenant_id ≡ true
    pub kept : m.is_deleted ≡ false

  -- What a SELECT with one condition on the tenant finds
  first_where_lem :
      (same : Text → Text → Bool) (owned : Option ℕ → Bool) (model_id : Text)
      (rows : List (ModelDo F)) (m : ModelDo F)
      → first_where same owned model_id rows ≡ some m
      → Memᴰ m rows
        × (same m.model_id model_id ≡ true)
        × (owned m.tenant_id ≡ true)
        × (m.is_deleted ≡ false)
  unfolding first_where
  first_where_lem same owned model_id [] m h = absurd (ground (arith, h))
  first_where_lem same owned model_id (r ∷ rows) m h =
      here ((same r.model_id model_id && not r.is_deleted) && owned r.tenant_id) refl
        (first_where_lem same owned model_id rows m) h
    where
      Goal : List (ModelDo F) → ModelDo F → Type 0
      Goal from q =
          Memᴰ q from
          × (same q.model_id model_id ≡ true)
          × (owned q.tenant_id ≡ true)
          × (q.is_deleted ≡ false)

      parts : (a d o : Bool) → ((a && not d) && o) ≡ true → (a ≡ true) × (o ≡ true) × (d ≡ false)
      parts a d o e = ground (arith, e)

      here :
          (test : Bool)
          → ((same r.model_id model_id && not r.is_deleted) && owned r.tenant_id) ≡ test
          → (first_where same owned model_id rows ≡ some m → Goal rows m)
          → (if test then some r else first_where same owned model_id rows) ≡ some m
          → Goal (r ∷ rows) m
      here true e later h =
          let is : r ≡ m = ground (arith, h) in
          let (name, own, live) =
            parts (same r.model_id model_id) r.is_deleted (owned r.tenant_id) e in
          subst (λ q. Goal (r ∷ rows) q) is (head refl, name, own, live)
      here false e later h = let (there, name, own, live) = later h in (tail there, name, own, live)

  or_else-some :
      (a b : Option (ModelDo F)) (m : ModelDo F)
      → or_else a b ≡ some m
      → (a ≡ some m) ⊎ (b ≡ some m)
  unfolding or_else
  or_else-some none b m h = inr h
  or_else-some (some x) b m h = inl h

  pub select_model-IsVisible :
      (tid : ℕ) (model_id : Text) (table : Models F) (m : ModelDo F)
      → select_model tid model_id table ≡ some m
      → IsVisible table tid model_id m
  unfolding select_model
  select_model-IsVisible zero model_id table m h =
      let (there, name, own, live) =
        first_where_lem table.same_id is_global model_id table.rows m h in
      record { listed = there; named = name; owned = own; kept = live }
  select_model-IsVisible (suc n) model_id table m h =
      elim (or_else-some (first_where table.same_id (is_of (suc n)) model_id table.rows)
        (first_where table.same_id is_global model_id table.rows) m h) [
          | inl private ↦
              let (there, name, own, live) =
                first_where_lem table.same_id (is_of (suc n)) model_id table.rows m private in
              record { listed = there; named = name; owned = rw own refl; kept = live }
          | inr global ↦
              let (there, name, own, live) =
                first_where_lem table.same_id is_global model_id table.rows m global in
              record {
                listed = there;
                named = name;
                owned = either (is_of (suc n) m.tenant_id) own;
                kept = live;
              }
        ]
    where
      either : (a : Bool) {b : Bool} → b ≡ true → (a || b) ≡ true
      either a e = ground (arith, e)

  -- Every entry of the cache is known for its tenant and model id.
  abbrev pub IsSoundCache : (ℕ → Text → CacheEntry F → Type 0) → Assoc (CacheEntry F) → Type 0
  IsSoundCache Known cache =
      (tid : ℕ) (model_id : Text) (e : CacheEntry F)
      → lookup (cache_key tid model_id) cache ≡ some e
      → Known tid model_id e

  pub put-IsSoundCache :
      (Known : ℕ → Text → CacheEntry F → Type 0) (tid : ℕ) (model_id : Text) (entry : CacheEntry F)
      (cache : Assoc (CacheEntry F))
      → Known tid model_id entry
      → IsSoundCache Known cache
      → IsSoundCache Known (put (cache_key tid model_id) entry cache)
  put-IsSoundCache Known tid model_id entry cache known s tid' model_id' e found =
      stored (Bool-cases (text_eq (cache_key tid' model_id') (cache_key tid model_id)))
        (sym (lookup-put (cache_key tid' model_id') (cache_key tid model_id) entry cache) ∙ found)
    where
      stored :
          (text_eq (cache_key tid' model_id') (cache_key tid model_id) ≡ true)
            ⊎ (text_eq (cache_key tid' model_id') (cache_key tid model_id) ≡ false)
          → (if text_eq (cache_key tid' model_id') (cache_key tid model_id)
              then some entry
              else lookup (cache_key tid' model_id') cache)
            ≡ some e
          → Known tid' model_id' e
      stored (inl same) found =
          let keys : cache_key tid' model_id' ≡ cache_key tid model_id =
            (text_eq_iff (cache_key tid' model_id') (cache_key tid model_id)).0 same in
          let (tids, ids) = cache_key-injective tid' tid model_id' model_id keys in
          let is : entry ≡ e = ground (arith, found, same) in
          rw (tids, ids) (subst (Known tid model_id) is known)
      stored (inr other) found = s tid' model_id' e (ground (arith, found, other))
