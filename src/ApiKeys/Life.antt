-- ===== src/ApiKeys/Life.antt =====
-- What a caller with a created, revoked or rotated key meets at the check of internal/platform/auth.
use ykt_aisaas.Database.{rows_of, scope, fill}
use ykt_aisaas.Base.{
  ℕ, if◌then◌else◌, ◌+◌, ◌≡◌, refl, ap, ◌∙◌, Bool, true, false, inl, inr, Bool-cases, Option, none,
  some, List, [], ◌∷◌, ◌==◌, Text, text_eq, text_eq_refl, pos, All,
}
use ykt_aisaas.Redis.{Redis, Link, answered}
use ykt_aisaas.Errs.{internal, invalid_api_key, resource_not_found}
use ykt_aisaas.Auth.{
  ApiKeyBo, KeyRow, TenantOf, Outside, rejected, bo_of, find_key, post_check, checked, cache_get,
  validate, invalidate_cache,
}
use ykt_aisaas.Auth.Keys.{validate-revoked, validate-uncached}
use ykt_aisaas.Auth.Internal.{Addresses, go_on, internal_middleware, internal_middleware_tenant}
use ykt_aisaas.Auth.Lists.Reading.{IsWord}
use ykt_aisaas.ApiKeys.{
  KeyDo, key_row, key_rows, sees, get_by_id, update_where, updated_keys, disabled, CreateReq,
  Crypto, refused, expiry, new_row, insert_row, created_row, create,
}
use ykt_aisaas.ApiKeys.Rows.{IsOnly, find_key-updated, find_here, find_past}
use ykt_aisaas.ApiKeys.Scopes.{parse_json_arr-marshal_arr}
use ykt_aisaas.ApiKeys.Rotation.{
  invalidated, revoke_found, revoke_in, revoke_by_internal, grace, expiring_at, rotated_row,
  rotated, rotate_found, rotate_in, rotate,
}

module _ (R : Redis) (O : Outside) (C : Crypto) where
  open R use {Db}
  open O use {hash_key}

  disabled-refused :
      (put : Link) (tenant_of : TenantOf) (later : ℕ) (plain : Text) (rows : List KeyRow)
      (row : KeyDo) (d : Db)
      → find_key (hash_key plain) rows ≡ some (key_row (disabled row))
      → (validate R O answered put true tenant_of later plain rows
          (invalidate_cache R O answered (hash_key plain) d)).0
        ≡ rejected invalid_api_key
  disabled-refused put tenant_of later plain rows row d found =
      validate-revoked R O put tenant_of later plain rows d
        (unfold disabled key_row in rw found refl)

  -- An internal revocation of a key that its context's tenant owns, where the database and Redis
  -- answer, makes the key's next check fail, whatever was cached.
  pub revoke-validate :
      (put : Link) (tenant_of : TenantOf) (tid later id : ℕ) (plain : Text) (rows : List KeyDo)
      (row : KeyDo) (d : Db)
      → get_by_id (rows_of tid) id rows ≡ some row
      → row.api_key_hash ≡ hash_key plain
      → IsOnly row rows
      → let (error, rows', d') =
          revoke_by_internal R O false true true answered (some tid) id rows d in
        (error ≡ none)
        × ((validate R O answered put true tenant_of later plain (key_rows rows') d').0
            ≡ rejected invalid_api_key)
  unfolding revoke_by_internal revoke_in revoke_found invalidated updated_keys scope
  revoke-validate put tenant_of tid later id plain rows row d found same only =
      let updated : find_key (hash_key plain)
            (key_rows (update_where (rows_of tid) id disabled rows))
          ≡ some (key_row (disabled row)) =
        rw (← same) (
          find_key-updated (rows_of tid) id disabled rows row (unfold disabled in λ r. (refl, refl))
            found only) in
      rw (found, same)
        (
          refl,
          disabled-refused put tenant_of later plain
              (key_rows (update_where (rows_of tid) id disabled rows)) row d updated,
        )

  -- Keys of other tenants are not found.
  not_found :
      (tid id : ℕ) (rows : List KeyDo)
      → All (λ r. (r.id == id) ≡ true → (r.tenant_id == tid) ≡ false) rows
      → get_by_id (rows_of tid) id rows ≡ none
  unfolding get_by_id sees
  not_found tid id [] h = refl
  not_found tid id (r ∷ rows) h = elim (Bool-cases (r.id == id)) [
    | inl same ↦ elim (Bool-cases r.is_deleted) [
      | inl gone ↦ simp (same, gone) (not_found tid id rows h.1)
      | inr live ↦ simp (same, live, h.0 same) (not_found tid id rows h.1)
    ]
    | inr other ↦ simp (other) (not_found tid id rows h.1)
  ]

  -- A caller that the middleware of internal requests lets on cannot revoke or rotate a key of any
  -- tenant but 1, where the table of keys is not exempt from the tenant plugin: both answer that there
  -- is no such key, or with an internal error where their SELECT fails, and change neither the table
  -- nor the cache.
  pub internal_other_tenant :
      (net : Addresses) (token header remote : Text) (unlimited answers stored : Bool) (link : Link)
      (tid now new_id id : ℕ) (plain : Option Text) (rows : List KeyDo) (d : Db)
      → internal_middleware net token header remote ≡ go_on tid unlimited
      → All (λ r. (r.id == id) ≡ true → (r.tenant_id == 1) ≡ false) rows
      → (revoke_by_internal R O false answers stored link (some tid) id rows d
          ≡ (some (if answers then resource_not_found else internal), rows, d))
        × (rotate O C answers stored false (some tid) now new_id plain id rows
            ≡ (refused (if answers then resource_not_found else internal), rows))
  unfolding revoke_by_internal revoke_in revoke_found rotate rotate_in rotate_found scope
  internal_other_tenant net token header remote unlimited answers stored link tid now new_id id
        plain rows d entered others =
      let one : tid ≡ 1 =
        internal_middleware_tenant net token header remote tid unlimited entered in
      rw (one, not_found 1 id rows others)
        (elim (Bool-cases answers) [
          | inl found_none ↦ rw found_none (refl, refl)
          | inr no_answer ↦ rw no_answer (refl, refl)
        ])

  -- What a created key may do.
  abbrev pub rights : ℕ → ℕ → ℕ → CreateReq → ApiKeyBo
  rights tid now id req = record {
    id = id;
    tenant_id = tid;
    scope = req.scope;
    ip_allow = req.ip_allow;
    expires_at = expiry C.add_days now req.expires_days;
    status = pos 1;
    unlimited = false;
  }

  -- A key that a tenant creates, with scopes and addresses that are not empty and have neither quote
  -- nor comma, is checked at its first use by exactly what was asked for: its tenant, scopes,
  -- addresses and days, where nothing is cached under its hash.
  pub create-validate :
      (get put : Link) (tenant_of : TenantOf) (tid now later id : ℕ) (plain : Text)
      (req : CreateReq) (rows : List KeyDo) (d : Db)
      → All IsWord req.scope
      → All IsWord req.ip_allow
      → cache_get R O get later (hash_key plain) d ≡ none
      → let (answer, rows') = create O C true false (some tid) now id (some plain) req rows in
        (validate R O get put true tenant_of later plain (key_rows rows') d).0
        ≡ checked (rights tid now id req) (post_check tenant_of later (rights tid now id req))
  unfolding create created_row insert_row fill
  create-validate get put tenant_of tid now later id plain req rows d scopes addresses absent =
      validate-uncached R O get put tenant_of later plain
        (key_rows (record (new_row O C now id plain req) { tenant_id = tid } ∷ rows)) d
        (key_row (record (new_row O C now id plain req) { tenant_id = tid })) absent
        (find_here (record (new_row O C now id plain req) { tenant_id = tid }) (hash_key plain) rows
          (unfold new_row in refl) (unfold new_row in text_eq_refl (hash_key plain)))
      ∙ ap (λ bo. checked bo (post_check tenant_of later bo)) read
    where
      read :
          bo_of (key_row (record (new_row O C now id plain req) { tenant_id = tid }))
          ≡ rights tid now id req
      read =
          unfold bo_of key_row new_row in
          rw
            (
              parse_json_arr-marshal_arr req.scope scopes,
              parse_json_arr-marshal_arr req.ip_allow addresses,
            )
            refl

  -- A rotation of a key that its context's tenant owns, where the database answers, gives a key with
  -- the tenant's number, the old key's scopes and addresses, status 1 and no expiry, and the old key
  -- ends five minutes later and is otherwise as it was, where nothing is cached under the two hashes,
  -- and these differ.
  pub rotate-validate :
      (get put : Link) (tenant_of : TenantOf) (tid now later new_id id : ℕ) (plain old_plain : Text)
      (rows : List KeyDo) (old : KeyDo) (d : Db)
      → get_by_id (rows_of tid) id rows ≡ some old
      → old.api_key_hash ≡ hash_key old_plain
      → IsOnly old rows
      → text_eq (hash_key plain) (hash_key old_plain) ≡ false
      → cache_get R O get later (hash_key plain) d ≡ none
      → cache_get R O get later (hash_key old_plain) d ≡ none
      → let (answer, rows') =
          rotate O C true true false (some tid) now new_id (some plain) id rows in
        let new_bo = record (bo_of (key_row old)) {
          id = new_id;
          tenant_id = tid;
          expires_at = none;
          status = pos 1;
        } in
        let old_bo = record (bo_of (key_row old)) { expires_at = some (now + grace) } in
        ((validate R O get put true tenant_of later plain (key_rows rows') d).0
          ≡ checked new_bo (post_check tenant_of later new_bo))
        × ((validate R O get put true tenant_of later old_plain (key_rows rows') d).0
            ≡ checked old_bo (post_check tenant_of later old_bo))
  unfolding rotate rotate_in rotate_found rotated insert_row fill scope bo_of key_row
  rotate-validate get put tenant_of tid now later new_id id plain old_plain rows old d found same
        only apart absent old_absent =
      rw found (new_key, old_key)
    where
      fresh : KeyDo
      fresh = record (rotated_row O C new_id plain old) { tenant_id = tid }

      kept : List KeyDo
      kept = update_where (rows_of tid) id (expiring_at (now + grace)) rows

      new_key :
          (validate R O get put true tenant_of later plain (key_rows (fresh ∷ kept)) d).0
          ≡ checked (bo_of (key_row fresh)) (post_check tenant_of later (bo_of (key_row fresh)))
      new_key =
          validate-uncached R O get put tenant_of later plain (key_rows (fresh ∷ kept)) d
            (key_row fresh) absent
            (find_here fresh (hash_key plain) kept (unfold rotated_row in refl)
              (unfold rotated_row in text_eq_refl (hash_key plain)))

      old_found :
          find_key (hash_key old_plain) (key_rows (fresh ∷ kept))
          ≡ some (key_row (expiring_at (now + grace) old))
      old_found =
          find_past fresh (hash_key old_plain) kept (unfold rotated_row in apart)
          ∙ rw (← same) (
              find_key-updated (rows_of tid) id (expiring_at (now + grace)) rows old
                (unfold expiring_at in λ r. (refl, refl)) found only)

      old_key :
          (validate R O get put true tenant_of later old_plain (key_rows (fresh ∷ kept)) d).0
          ≡ checked
              (bo_of (key_row (expiring_at (now + grace) old)))
              (post_check tenant_of later (bo_of (key_row (expiring_at (now + grace) old))))
      old_key =
          validate-uncached R O get put tenant_of later old_plain (key_rows (fresh ∷ kept)) d
            (key_row (expiring_at (now + grace) old)) old_absent old_found
