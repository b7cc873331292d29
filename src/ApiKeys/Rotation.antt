-- ===== src/ApiKeys/Rotation.antt =====
-- internal/tenantm/apikey/apikey.go: RevokeByInternal and Rotate, with the cache of internal/platform/auth.
use ykt_aisaas.Database.{Scope, context_lost, scope, fill}
use ykt_aisaas.Base.{
  ℕ, ◌+◌, Bool, false, Option, none, some, List, ◌++◌, Text, codes, pos, if◌then◌else◌,
}
use ykt_aisaas.Redis.{Redis, Link}
use ykt_aisaas.Errs.{ErrorCode, internal, resource_not_found, tenant_context_lost}
use ykt_aisaas.Auth.{Outside, invalidate_cache}
use ykt_aisaas.ApiKeys.{
  KeyDo, Crypto, Created, created, refused, get_by_id, update_where, updated_keys, disabled,
  parse_scope, insert_row,
}

module _ (R : Redis) (O : Outside) where
  open R use {Db}

  unfoldable pub invalidated :
      Link → Text → Option ErrorCode × List KeyDo → Db → Option ErrorCode × List KeyDo × Db
  unfolding invalidate_cache
  invalidated link hash (some e, rows) d = (some e, rows, d)
  invalidated link hash (none, rows) d = (none, rows, invalidate_cache R O link hash d)

  unfoldable pub revoke_found :
      Bool → Link → Scope → ℕ → Option KeyDo → List KeyDo → Db → Option ErrorCode × List KeyDo × Db
  unfolding invalidated updated_keys disabled
  revoke_found stored link sc id none rows d = (some resource_not_found, rows, d)
  revoke_found stored link sc id (some row) rows d =
      invalidated link row.api_key_hash (updated_keys stored sc id disabled rows) d

  unfoldable pub revoke_in :
      Bool → Bool → Link → Scope → ℕ → List KeyDo → Db → Option ErrorCode × List KeyDo × Db
  unfolding revoke_found get_by_id
  revoke_in answers stored link context_lost id rows d = (some internal, rows, d)
  revoke_in answers stored link sc id rows d =
      if answers
      then revoke_found stored link sc id (get_by_id sc id rows) rows d
      else (some internal, rows, d)

  -- RevokeByInternal, in a context with a tenant or none; its SELECT answers or not, its UPDATE is
  -- stored or not, and its DEL has a link.
  unfoldable pub revoke_by_internal :
      Bool
      → Bool
      → Bool
      → Link
      → Option ℕ
      → ℕ
      → List KeyDo
      → Db
      → Option ErrorCode × List KeyDo × Db
  unfolding revoke_in scope
  revoke_by_internal exempt answers stored link ctx id rows d =
      revoke_in answers stored link (scope exempt false ctx) id rows d

-- 5 minutes in nanoseconds
abbrev pub grace : ℕ
grace = 300000000000

unfoldable pub expiring_at : ℕ → KeyDo → KeyDo
expiring_at t r = record r { expires_at = some t }

module _ (O : Outside) (C : Crypto) where
  open O use {hash_key}
  open C use {key_display}

  -- The row that Rotate inserts.
  unfoldable pub rotated_row : ℕ → Text → KeyDo → KeyDo
  rotated_row new_id plain old = record {
    id = new_id;
    tenant_id = old.tenant_id;
    name = old.name ++ codes " (rotated)";
    api_key_hash = hash_key plain;
    key_prefix = key_display plain;
    scope = old.scope;
    ip_allow = old.ip_allow;
    expires_at = none;
    status = pos 1;
    is_deleted = false;
  }

  -- The end of Rotate: a transaction that fails leaves the table as it was.
  unfoldable pub rotated :
      ℕ → Text → KeyDo → List KeyDo → Option (List KeyDo) → Created × List KeyDo
  unfolding parse_scope
  rotated new_id plain old rows none = (refused internal, rows)
  rotated new_id plain old rows (some rows') = (
    created (record {
      id = new_id;
      name = old.name;
      api_key = plain;
      key_prefix = key_display plain;
      scope = parse_scope old.scope;
      expires_at = none;
    }),
    rows',
  )

  unfoldable pub rotate_found :
      Bool
      → Bool
      → Option ℕ
      → Scope
      → ℕ
      → ℕ
      → Option Text
      → ℕ
      → Option KeyDo
      → List KeyDo
      → Created × List KeyDo
  unfolding rotated rotated_row expiring_at insert_row update_where fill
  rotate_found committed exempt ctx sc now new_id plain id none rows =
      (refused resource_not_found, rows)
  rotate_found committed exempt ctx sc now new_id none id (some old) rows = (refused internal, rows)
  rotate_found committed exempt ctx sc now new_id (some plain) id (some old) rows =
      rotated new_id plain old rows (
        insert_row O C committed (fill exempt false ctx old.tenant_id)
          (rotated_row new_id plain old) (update_where sc id (expiring_at (now + grace)) rows))

  unfoldable pub rotate_in :
      Bool
      → Bool
      → Bool
      → Option ℕ
      → Scope
      → ℕ
      → ℕ
      → Option Text
      → ℕ
      → List KeyDo
      → Created × List KeyDo
  unfolding rotate_found get_by_id
  rotate_in answers committed exempt ctx context_lost now new_id plain id rows =
      (refused tenant_context_lost, rows)
  rotate_in answers committed exempt ctx sc now new_id plain id rows =
      if answers
      then rotate_found committed exempt ctx sc now new_id plain id (get_by_id sc id rows) rows
      else (refused internal, rows)

  -- Rotate
  unfoldable pub rotate :
      Bool → Bool → Bool → Option ℕ → ℕ → ℕ → Option Text → ℕ → List KeyDo → Created × List KeyDo
  unfolding rotate_in scope
  rotate answers committed exempt ctx now new_id plain id rows =
      rotate_in answers committed exempt ctx (scope exempt false ctx) now new_id plain id rows
