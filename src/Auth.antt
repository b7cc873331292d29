-- ===== src/Auth.antt =====
-- internal/platform/auth (apikey.go, ratelimit.go): validating an API key against the cache in Redis
-- and the table of keys, and the middleware around it. `now` is the clock in nanoseconds. What the
-- code takes from other packages is an argument: the hash of a key (crypto.HashKey, SHA-256), the
-- JSON codec, net.ParseCIDR with Contains, and the tenant's status, which main.go injects.
pub mod Keys
pub mod Logins
pub mod Lists
pub mod Internal
use ykt_aisaas.Base.{
  ℕ, zero, suc, ◌+◌, ltb, leb, ◌==◌, Bool, true, false, not, ◌&&◌, ◌||◌, ℤ, pos, leb_ℤ, Option,
  none, some, List, [], ◌∷◌, ◌++◌, Text, codes, text_eq, if◌then◌else◌,
}
use ykt_aisaas.Redis.{Redis, Link, Value, str, str_until}
use ykt_aisaas.Redisx.{key_api_key_by_hash, command, is_answered, int64_or_zero}
use ykt_aisaas.Errs.{
  ErrorCode, invalid_api_key, api_key_expired, ip_not_allowed, tenant_frozen, forbidden, internal,
}

pub record ApiKeyBo : Type 0 where
  pub id : ℕ
  pub tenant_id : ℕ
  pub scope : List Text
  pub ip_allow : List Text
  pub expires_at : Option ℕ
  pub status : ℤ
  pub unlimited : Bool

member : Text → List Text → Bool
member s [] = false
member s (v ∷ vs) = (text_eq v s || text_eq v (codes "*")) || member s vs

-- HasScope
unfoldable pub has_scope : ApiKeyBo → Text → Bool
unfolding member
has_scope b s = elim b.scope [ [] ↦ true | v ∷ vs ↦ member s (v ∷ vs) ]

ip_in : (Text → Text → Bool) → Text → List Text → Bool
ip_in in_cidr ip [] = false
ip_in in_cidr ip (cidr ∷ rest) = (in_cidr cidr ip || text_eq cidr ip) || ip_in in_cidr ip rest

-- IPAllowed; `in_cidr` says that a text is a network that contains the address.
unfoldable pub ip_allowed : (Text → Text → Bool) → ApiKeyBo → Text → Bool
unfolding ip_in
ip_allowed in_cidr b ip = elim b.ip_allow [ [] ↦ true | c ∷ cs ↦ ip_in in_cidr ip (c ∷ cs) ]

-- A row of ykt_aisaas_apikey that is not deleted, its two lists as parseJSONArr reads them.
pub record KeyRow : Type 0 where
  pub api_key_hash : Text
  pub id : ℕ
  pub tenant_id : ℕ
  pub scope : List Text
  pub ip_allow : List Text
  pub expires_at : Option ℕ
  pub status : ℤ

unfoldable pub bo_of : KeyRow → ApiKeyBo
bo_of row = record {
  id = row.id;
  tenant_id = row.tenant_id;
  scope = row.scope;
  ip_allow = row.ip_allow;
  expires_at = row.expires_at;
  status = row.status;
  unlimited = false;
}

-- The SELECT by the unique hash.
unfoldable pub find_key : Text → List KeyRow → Option KeyRow
find_key hash [] = none
find_key hash (row ∷ rows) = if text_eq row.api_key_hash hash then some row else find_key hash rows

abbrev pub is_past : ℕ → Option ℕ → Bool
is_past now none = false
is_past now (some t) = ltb t now

abbrev pub is_one : ℤ → Bool
is_one n = leb_ℤ n (pos 1) && leb_ℤ (pos 1) n

-- TenantStatus: the status of a tenant, `none` where reading it fails; no reader is injected where
-- the outer option is `none`.
abbrev pub TenantOf : Type 0
TenantOf = Option (ℕ → Option ℤ)

tenant_check : Option ℤ → Option ErrorCode
tenant_check none = some internal
tenant_check (some st) = if is_one st then none else some tenant_frozen

tenant_check_of : TenantOf → ℕ → Option ErrorCode
unfolding tenant_check
tenant_check_of none tid = none
tenant_check_of (some read) tid = tenant_check (read tid)

-- postCheck; `none` for no error
unfoldable pub post_check : TenantOf → ℕ → ApiKeyBo → Option ErrorCode
unfolding tenant_check_of
post_check tenant_of now bo =
    if not (is_one bo.status)
    then some invalid_api_key
    else if is_past now bo.expires_at
    then some api_key_expired
    else tenant_check_of tenant_of bo.tenant_id

-- What Validate returns.
pub data Validated : Type 0 where
  valid : ApiKeyBo → Validated
  rejected : ErrorCode → Validated

unfoldable pub checked : ApiKeyBo → Option ErrorCode → Validated
checked bo none = valid bo
checked bo (some e) = rejected e

-- What the package takes from outside it.
pub record Outside : Type 0 where
  pub hash_key : Text → Text
  pub marshal : ApiKeyBo → Option Text
  pub unmarshal : Text → Option ApiKeyBo
  pub in_cidr : Text → Text → Bool

-- 30 minutes in nanoseconds
abbrev pub cache_ttl : ℕ
cache_ttl = 1800000000000

module _ (R : Redis) (O : Outside) where
  open R use {Db, read, set, del}
  open O use {hash_key, marshal, unmarshal, in_cidr}

  bo_of_text : Text → Option ApiKeyBo
  bo_of_text [] = none
  bo_of_text (c ∷ raw) = unmarshal (c ∷ raw)

  -- GET `.Result()` gives JSON for the struct only where a text is stored that has not expired.
  cached_text : ℕ → Option Value → Option ApiKeyBo
  unfolding bo_of_text
  cached_text now (some (str raw)) = bo_of_text raw
  cached_text now (some (str_until expiry raw)) = if ltb now expiry then bo_of_text raw else none
  cached_text now _ = none

  unfoldable pub cache_get : Link → ℕ → Text → Db → Option ApiKeyBo
  unfolding cached_text
  cache_get link now hash d =
      if is_answered link then cached_text now (read d (key_api_key_by_hash hash)) else none

  cache_text : Link → ℕ → Text → Option Text → Db → Db
  unfolding command
  cache_text link now hash none d = d
  cache_text link now hash (some raw) d =
      command R link (set (key_api_key_by_hash hash) (str_until (now + cache_ttl) raw)) d

  unfoldable pub cache_put : Link → ℕ → Text → ApiKeyBo → Db → Db
  unfolding cache_text
  cache_put link now hash bo d = cache_text link now hash (marshal bo) d

  -- A key that the table has, checked: only one that passes is cached.
  validate_bo : Link → ℕ → Text → ApiKeyBo → Option ErrorCode → Db → Validated × Db
  unfolding cache_put
  validate_bo put now hash bo none d = (valid bo, cache_put put now hash bo d)
  validate_bo put now hash bo (some e) d = (rejected e, d)

  validate_row : Link → TenantOf → ℕ → Text → Option KeyRow → Db → Validated × Db
  unfolding validate_bo post_check bo_of
  validate_row put tenant_of now hash none d = (rejected invalid_api_key, d)
  validate_row put tenant_of now hash (some row) d =
      validate_bo put now hash (bo_of row) (post_check tenant_of now (bo_of row)) d

  validate_hash :
      Link → Bool → TenantOf → ℕ → Text → List KeyRow → Option ApiKeyBo → Db → Validated × Db
  unfolding validate_row checked post_check find_key
  validate_hash put queried tenant_of now hash rows (some bo) d =
      (checked bo (post_check tenant_of now bo), d)
  validate_hash put queried tenant_of now hash rows none d =
      if queried
      then validate_row put tenant_of now hash (find_key hash rows) d
      else (rejected internal, d)

  -- Validate, with the links of its GET and SET; `queried` says that the database answers.
  unfoldable pub validate :
      Link → Link → Bool → TenantOf → ℕ → Text → List KeyRow → Db → Validated × Db
  unfolding validate_hash cache_get
  validate get put queried tenant_of now plain rows d =
      let hash = hash_key plain in
      validate_hash put queried tenant_of now hash rows (cache_get get now hash d) d

  -- InvalidateCache, given a hash, as tenantm/apikey does
  unfoldable pub invalidate_cache : Link → Text → Db → Db
  unfolding command
  invalidate_cache link hash d = command R link (del (key_api_key_by_hash hash)) d

  -- Middleware, from the key that extractKey finds: the caller that goes on, or the error that the
  -- request is answered with.
  gate : Text → Text → Validated × Db → Validated × Db
  unfolding has_scope ip_allowed
  gate scope ip (rejected e, d) = (rejected e, d)
  gate scope ip (valid bo, d) =
      if not (text_eq scope []) && not (has_scope bo scope)
      then (rejected forbidden, d)
      else if not (ip_allowed in_cidr bo ip)
      then (rejected ip_not_allowed, d)
      else (valid bo, d)

  unfoldable pub middleware :
      Link → Link → Bool → TenantOf → ℕ → Text → Text → Text → List KeyRow → Db → Validated × Db
  unfolding gate validate
  middleware get put queried tenant_of now scope ip plain rows d =
      let authenticated = validate get put queried tenant_of now plain rows d in
      if text_eq plain [] then (rejected invalid_api_key, d) else gate scope ip authenticated
