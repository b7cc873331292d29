-- ===== src/Auth/Keys.antt =====
-- Which callers the middleware of apikey.go lets on, and what a revoked key does.
use mathlib.Core.Option
use ykt_aisaas.Base.{
  ap, sym, subst, ℕ, ◌≡◌, refl, Bool, true, false, ◌||◌, ◌⊎◌, inl, inr, Option, none, some, List,
  [], arith, Text, text_eq, text_eq_refl, Bool-cases,
}
use ykt_aisaas.Redis.{Redis, Link, answered}
use ykt_aisaas.Redisx.{command}
use ykt_aisaas.Errs.{ErrorCode, invalid_api_key}
use ykt_aisaas.Auth.{
  ApiKeyBo, KeyRow, TenantOf, Outside, Validated, valid, rejected, is_one, has_scope, ip_allowed,
  bo_of, find_key, post_check, checked, cached_text, cache_get, validate_bo, validate_row,
  validate_hash, validate, invalidate_cache, gate, middleware,
}

module _ (R : Redis) (O : Outside) where
  open R use {Db, read, set, del}
  open O use {hash_key, marshal, unmarshal, in_cidr}

  -- Where a caller's rights come from: the cache, or the key's row.
  abbrev pub IsKnown : Link → ℕ → Text → List KeyRow → Db → ApiKeyBo → Type 0
  IsKnown get now hash rows d bo =
      (cache_get R O get now hash d ≡ some bo) ⊎ (Option.map bo_of (find_key hash rows) ≡ some bo)

  checked_valid :
      (bo bo' : ApiKeyBo) (e : Option ErrorCode)
      → checked bo e ≡ valid bo'
      → (bo ≡ bo') × (e ≡ none)
  unfolding checked
  checked_valid bo bo' none h = ground arith
  checked_valid bo bo' (some e) h = ground arith

  validate_bo_valid :
      (put : Link) (now : ℕ) (hash : Text) (bo bo' : ApiKeyBo) (e : Option ErrorCode) (d : Db)
      → (validate_bo R O put now hash bo e d).0 ≡ valid bo'
      → (bo ≡ bo') × (e ≡ none)
  unfolding validate_bo
  validate_bo_valid put now hash bo bo' none d h = ground arith
  validate_bo_valid put now hash bo bo' (some e) d h = ground arith

  validate_row_valid :
      (put : Link) (tenant_of : TenantOf) (now : ℕ) (hash : Text) (found : Option KeyRow) (d : Db)
      (bo : ApiKeyBo)
      → (validate_row R O put tenant_of now hash found d).0 ≡ valid bo
      → (post_check tenant_of now bo ≡ none) × (Option.map bo_of found ≡ some bo)
  unfolding validate_row
  validate_row_valid put tenant_of now hash none d bo h = ground arith
  validate_row_valid put tenant_of now hash (some row) d bo h =
      let (same, passes) =
        validate_bo_valid put now hash (bo_of row) bo (post_check tenant_of now (bo_of row)) d h in
      rw (← same) (passes, refl)

  validate_hash_valid :
      (put : Link) (queried : Bool) (tenant_of : TenantOf) (now : ℕ) (hash : Text)
      (rows : List KeyRow) (cached : Option ApiKeyBo) (d : Db) (bo : ApiKeyBo)
      → (validate_hash R O put queried tenant_of now hash rows cached d).0 ≡ valid bo
      → (post_check tenant_of now bo ≡ none)
        × ((cached ≡ some bo) ⊎ (Option.map bo_of (find_key hash rows) ≡ some bo))
  unfolding validate_hash
  validate_hash_valid put queried tenant_of now hash rows (some b) d bo h =
      let (same, passes) = checked_valid b bo (post_check tenant_of now b) h in
      rw (← same) (passes, inl refl)
  validate_hash_valid put true tenant_of now hash rows none d bo h =
      let (passes, row) = validate_row_valid put tenant_of now hash (find_key hash rows) d bo h in
      (passes, inr row)
  validate_hash_valid put false tenant_of now hash rows none d bo h = ground arith

  gate_valid :
      (scope ip : Text) (v : Validated) (d : Db) (bo : ApiKeyBo)
      → (gate R O scope ip (v, d)).0 ≡ valid bo
      → (v ≡ valid bo)
        × ((text_eq scope [] || has_scope bo scope) ≡ true)
        × (ip_allowed in_cidr bo ip ≡ true)
  unfolding gate
  gate_valid scope ip (rejected e) d bo h = ground arith
  gate_valid scope ip (valid b) d bo h = ground arith

  -- The middleware lets a caller on only with a key that is not empty, whose rights stand in the
  -- cache or in the key's row, that is in force (its status is 1, it has not expired, and its
  -- tenant's status is 1 where a reader of it is injected), that has the route's scope, and that
  -- allows the caller's address.
  pub middleware_valid :
      (get put : Link) (queried : Bool) (tenant_of : TenantOf) (now : ℕ) (scope ip plain : Text)
      (rows : List KeyRow) (d : Db) (bo : ApiKeyBo)
      → (middleware R O get put queried tenant_of now scope ip plain rows d).0 ≡ valid bo
      → (text_eq plain [] ≡ false)
        × IsKnown get now (hash_key plain) rows d bo
        × (post_check tenant_of now bo ≡ none)
        × ((text_eq scope [] || has_scope bo scope) ≡ true)
        × (ip_allowed in_cidr bo ip ≡ true)
  unfolding middleware validate
  middleware_valid get put queried tenant_of now scope ip plain rows d bo h =
      elim (Bool-cases (text_eq plain [])) [
        | inl missing ↦ ground (arith, missing)
        | inr given ↦
            let hash = hash_key plain in
            let cached = cache_get R O get now hash d in
            let (v, d') = validate_hash R O put queried tenant_of now hash rows cached d in
            let (accepted, scoped, allowed) = gate_valid scope ip v d' bo (rw given at h) in
            let (passes, known) =
              validate_hash_valid put queried tenant_of now hash rows cached d bo accepted in
            (given, known, passes, scoped, allowed)
      ]

  gate_admits :
      (scope ip : Text) (v : Validated) (d : Db) (bo : ApiKeyBo)
      → v ≡ valid bo
      → (text_eq scope [] || has_scope bo scope) ≡ true
      → ip_allowed in_cidr bo ip ≡ true
      → (gate R O scope ip (v, d)).0 ≡ valid bo
  unfolding gate
  gate_admits scope ip v d bo accepted scoped allowed =
      rw accepted (ground (arith, scoped, allowed))

  -- The rights that a key has: those in the cache, or else those of its row.
  abbrev pub rights : Link → ℕ → Text → List KeyRow → Db → Option ApiKeyBo
  rights get now hash rows d = elim (cache_get R O get now hash d) [
    | none ↦ Option.map bo_of (find_key hash rows)
    | some bo ↦ some bo
  ]

  validate_row_admits :
      (put : Link) (tenant_of : TenantOf) (now : ℕ) (hash : Text) (found : Option KeyRow) (d : Db)
      (bo : ApiKeyBo)
      → Option.map bo_of found ≡ some bo
      → post_check tenant_of now bo ≡ none
      → (validate_row R O put tenant_of now hash found d).0 ≡ valid bo
  unfolding validate_row validate_bo
  validate_row_admits put tenant_of now hash none d bo h passes = ground arith
  validate_row_admits put tenant_of now hash (some row) d bo h passes =
      let same : bo_of row ≡ bo = ground (arith, h) in
      let passes' : post_check tenant_of now (bo_of row) ≡ none =
        subst (λ (b : ApiKeyBo). post_check tenant_of now b ≡ none) (sym same) passes in
      rw passes' (ap valid same)

  validate_hash_admits :
      (put : Link) (tenant_of : TenantOf) (now : ℕ) (hash : Text) (rows : List KeyRow)
      (cached : Option ApiKeyBo) (d : Db) (bo : ApiKeyBo)
      → elim cached [ none ↦ Option.map bo_of (find_key hash rows) | some b ↦ some b ] ≡ some bo
      → post_check tenant_of now bo ≡ none
      → (validate_hash R O put true tenant_of now hash rows cached d).0 ≡ valid bo
  unfolding validate_hash checked
  validate_hash_admits put tenant_of now hash rows none d bo h passes =
      validate_row_admits put tenant_of now hash (find_key hash rows) d bo h passes
  validate_hash_admits put tenant_of now hash rows (some b) d bo h passes =
      let same : b ≡ bo = ground (arith, h) in rw (same, passes) refl

  -- The middleware lets every caller on whose key is not empty, is in force, has the route's scope
  -- and allows the address, where the database answers: with the rights in the cache, or those of
  -- the key's row where nothing is cached or Redis does not answer.
  pub middleware_admits :
      (get put : Link) (tenant_of : TenantOf) (now : ℕ) (scope ip plain : Text) (rows : List KeyRow)
      (d : Db) (bo : ApiKeyBo)
      → text_eq plain [] ≡ false
      → rights get now (hash_key plain) rows d ≡ some bo
      → post_check tenant_of now bo ≡ none
      → (text_eq scope [] || has_scope bo scope) ≡ true
      → ip_allowed in_cidr bo ip ≡ true
      → (middleware R O get put true tenant_of now scope ip plain rows d).0 ≡ valid bo
  unfolding middleware validate
  middleware_admits get put tenant_of now scope ip plain rows d bo given known passes scoped
        allowed =
      let hash = hash_key plain in
      let (v, d') =
        validate_hash R O put true tenant_of now hash rows (cache_get R O get now hash d) d in
      let accepted : v ≡ valid bo =
        validate_hash_admits put tenant_of now hash rows (cache_get R O get now hash d) d bo known
          passes in
      rw given (gate_admits scope ip v d' bo accepted scoped allowed)

  row_refused :
      (put : Link) (tenant_of : TenantOf) (now : ℕ) (hash : Text) (found : Option KeyRow) (d : Db)
      → elim found [ none ↦ false | some row ↦ is_one row.status ] ≡ false
      → validate_row R O put tenant_of now hash found d ≡ (rejected invalid_api_key, d)
  unfolding validate_row validate_bo post_check bo_of
  row_refused put tenant_of now hash none d h = refl
  row_refused put tenant_of now hash (some row) d h = rw h refl

  -- Without a cached entry the check is that of the key's row.
  pub validate-uncached :
      (get put : Link) (tenant_of : TenantOf) (now : ℕ) (plain : Text) (rows : List KeyRow) (d : Db)
      (row : KeyRow)
      → cache_get R O get now (hash_key plain) d ≡ none
      → find_key (hash_key plain) rows ≡ some row
      → (validate R O get put true tenant_of now plain rows d).0
        ≡ checked (bo_of row) (post_check tenant_of now (bo_of row))
  unfolding validate validate_hash validate_row
  validate-uncached get put tenant_of now plain rows d row absent found =
      rw (absent, found) (row_checked (post_check tenant_of now (bo_of row)))
    where
      row_checked :
          (e : Option ErrorCode)
          → (validate_bo R O put now (hash_key plain) (bo_of row) e d).0 ≡ checked (bo_of row) e
      row_checked none = unfold validate_bo checked in refl
      row_checked (some e) = unfold validate_bo checked in refl

  gone_from_cache :
      (now : ℕ) (hash : Text) (d : Db)
      → cache_get R O answered now hash (invalidate_cache R O answered hash d) ≡ none
  unfolding cache_get cached_text invalidate_cache command
  gone_from_cache now hash d = rw (R.read-del, text_eq_refl) refl

  -- Once a key's cache entry is deleted, a key whose row is gone or has another status than 1 is
  -- refused as invalid, where Redis and the database answer.
  pub validate-revoked :
      (put : Link) (tenant_of : TenantOf) (now : ℕ) (plain : Text) (rows : List KeyRow) (d : Db)
      → elim (find_key (hash_key plain) rows) [ none ↦ false | some row ↦ is_one row.status ]
        ≡ false
      → (validate R O answered put true tenant_of now plain rows
          (invalidate_cache R O answered (hash_key plain) d)).0
        ≡ rejected invalid_api_key
  unfolding validate validate_hash
  validate-revoked put tenant_of now plain rows d h =
      rw
        (
          gone_from_cache now (hash_key plain) d,
          row_refused put tenant_of now (hash_key plain) (find_key (hash_key plain) rows)
              (invalidate_cache R O answered (hash_key plain) d) h,
        )
        refl

  -- The check of a key that is not cached.
  abbrev pub by_row : TenantOf → ℕ → Option KeyRow → Validated
  by_row tenant_of now found = elim found [
    | none ↦ rejected invalid_api_key
    | some row ↦ checked (bo_of row) (post_check tenant_of now (bo_of row))
  ]
