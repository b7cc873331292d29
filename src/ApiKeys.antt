-- ===== src/ApiKeys.antt =====
-- internal/tenantm/apikey/apikey.go: the keys of a tenant in the table ykt_aisaas_apikey, as
-- internal/platform/auth validates them. NewAPIKey, HashKey, KeyDisplay of crypto, the ids and
-- AddDate are arguments; audit entries are left out. A statement sees the rows of its scope.
pub mod Scopes
pub mod Rotation
pub mod Rows
pub mod Life
use ykt_aisaas.Database.{Scope, every_row, rows_of, context_lost, scope, fill}
use ykt_aisaas.Base.{
  ℕ, zero, suc, ◌+◌, ◌==◌, Bool, true, false, not, ◌&&◌, ◌||◌, Option, none, some, List, [], ◌∷◌,
  ◌++◌, Text, codes, text_eq, ℤ, pos, negsuc, map, if◌then◌else◌,
}
use ykt_aisaas.Errs.{ErrorCode, internal}
use ykt_aisaas.Auth.{KeyRow, Outside}
use ykt_aisaas.Auth.Lists.{parse_json_arr}

-- DO, without the times of creation and last use and the creator
pub record KeyDo : Type 0 where
  pub id : ℕ
  pub tenant_id : ℕ
  pub name : Text
  pub api_key_hash : Text
  pub key_prefix : Text
  pub scope : Text
  pub ip_allow : Text
  pub expires_at : Option ℕ
  pub status : ℤ
  pub is_deleted : Bool

-- What the SELECT of auth's Validate sees: the rows that are not deleted, its two arrays read.
unfoldable pub key_row : KeyDo → KeyRow
unfolding parse_json_arr
key_row do' = record {
  api_key_hash = do'.api_key_hash;
  id = do'.id;
  tenant_id = do'.tenant_id;
  scope = parse_json_arr do'.scope;
  ip_allow = parse_json_arr do'.ip_allow;
  expires_at = do'.expires_at;
  status = do'.status;
}

unfoldable pub key_rows : List KeyDo → List KeyRow
unfolding key_row
key_rows [] = []
key_rows (r ∷ rows) = let rest = key_rows rows in if r.is_deleted then rest else key_row r ∷ rest

-- marshalArr
unfoldable pub marshal_rest : List Text → Text
marshal_rest [] = codes "]"
marshal_rest (v ∷ vs) = codes "," ++ (codes "\"" ++ (v ++ (codes "\"" ++ marshal_rest vs)))

unfoldable pub marshal_arr : List Text → Text
unfolding marshal_rest
marshal_arr [] = codes "[]"
marshal_arr (v ∷ vs) = codes "[" ++ (codes "\"" ++ (v ++ (codes "\"" ++ marshal_rest vs)))

-- The loop of parseScope, with `in`, `cur` and `out`
unfoldable pub flushed : Text → List Text → List Text
flushed [] out = out
flushed (c ∷ cur) out = out ++ (c ∷ cur) ∷ []

unfoldable pub parse_quotes : Bool → Text → List Text → Text → List Text
unfolding flushed
parse_quotes inside cur out [] = out
parse_quotes true cur out (c ∷ s) =
    let closed = parse_quotes false [] (flushed cur out) s in
    let more = parse_quotes true (cur ++ c ∷ []) out s in if c == 34 then closed else more
parse_quotes false cur out (c ∷ s) =
    let opened = parse_quotes true cur out s in
    let more = parse_quotes false cur out s in if c == 34 then opened else more

-- parseScope
unfoldable pub parse_scope : Text → List Text
unfolding parse_quotes
parse_scope s = if text_eq s [] || text_eq s (codes "[]") then [] else parse_quotes false [] [] s

unfoldable pub sees : Scope → KeyDo → Bool
sees every_row row = true
sees (rows_of tid) row = row.tenant_id == tid
sees context_lost row = false

-- Repo.GetByID, with the WHERE of its scope
unfoldable pub get_by_id : Scope → ℕ → List KeyDo → Option KeyDo
unfolding sees
get_by_id sc id [] = none
get_by_id sc id (r ∷ rows) =
    if (r.id == id && not r.is_deleted) && sees sc r then some r else get_by_id sc id rows

-- An UPDATE with WHERE id = ?
unfoldable pub update_where : Scope → ℕ → (KeyDo → KeyDo) → List KeyDo → List KeyDo
unfolding sees
update_where sc id f [] = []
update_where sc id f (r ∷ rows) =
    (if r.id == id && sees sc r then f r else r) ∷ update_where sc id f rows

unfoldable pub disabled : KeyDo → KeyDo
disabled r = record r { status = pos 0 }

unfoldable pub soft_deleted : KeyDo → KeyDo
soft_deleted r = record r { is_deleted = true }

-- Repo.UpdateStatus and Repo.SoftDelete, through Service.Disable and Service.Delete: neither tells
-- whether a row was found, and neither touches the cache.
unfoldable pub updated_keys :
    Bool → Scope → ℕ → (KeyDo → KeyDo) → List KeyDo → Option ErrorCode × List KeyDo
unfolding update_where
updated_keys stored context_lost id f rows = (some internal, rows)
updated_keys stored sc id f rows =
    if stored then (none, update_where sc id f rows) else (some internal, rows)

unfoldable pub disable : Bool → Scope → ℕ → List KeyDo → Option ErrorCode × List KeyDo
unfolding updated_keys disabled
disable stored sc id rows = updated_keys stored sc id disabled rows

unfoldable pub delete : Bool → Scope → ℕ → List KeyDo → Option ErrorCode × List KeyDo
unfolding updated_keys soft_deleted
delete stored sc id rows = updated_keys stored sc id soft_deleted rows

pub record CreateReq : Type 0 where
  pub name : Text
  pub scope : List Text
  pub ip_allow : List Text
  pub expires_days : Option ℤ

pub record CreateResp : Type 0 where
  pub id : ℕ
  pub name : Text
  pub api_key : Text
  pub key_prefix : Text
  pub scope : List Text
  pub expires_at : Option ℕ

pub data Created : Type 0 where
  created : CreateResp → Created
  refused : ErrorCode → Created

-- What the service takes from elsewhere.
pub record Crypto : Type 0 where
  pub key_display : Text → Text
  -- time.Time's AddDate(0, 0, days)
  pub add_days : ℕ → ℕ → ℕ

abbrev pub expiry : (ℕ → ℕ → ℕ) → ℕ → Option ℤ → Option ℕ
expiry add_days now none = none
expiry add_days now (some (pos zero)) = none
expiry add_days now (some (pos (suc n))) = some (add_days now (suc n))
expiry add_days now (some (negsuc n)) = none

module _ (O : Outside) (C : Crypto) where
  open O use {hash_key}
  open C use {key_display, add_days}

  -- The row of Create before the plugin fills the tenant in.
  unfoldable pub new_row : ℕ → ℕ → Text → CreateReq → KeyDo
  unfolding marshal_arr
  new_row now id plain req = record {
    id = id;
    tenant_id = 0;
    name = req.name;
    api_key_hash = hash_key plain;
    key_prefix = key_display plain;
    scope = marshal_arr req.scope;
    ip_allow = marshal_arr req.ip_allow;
    expires_at = expiry add_days now req.expires_days;
    status = pos 1;
    is_deleted = false;
  }

  -- Repo.Create, where `tenant` is what the plugin fills in
  unfoldable pub insert_row : Bool → Option ℕ → KeyDo → List KeyDo → Option (List KeyDo)
  insert_row stored none row rows = none
  insert_row stored (some tid) row rows =
      if stored then some (record row { tenant_id = tid } ∷ rows) else none

  unfoldable pub created_row :
      KeyDo → Text → List Text → List KeyDo → Option (List KeyDo) → Created × List KeyDo
  created_row row plain req_scope rows none = (refused internal, rows)
  created_row row plain req_scope rows (some rows') = (
    created (record {
      id = row.id;
      name = row.name;
      api_key = plain;
      key_prefix = row.key_prefix;
      scope = req_scope;
      expires_at = row.expires_at;
    }),
    rows',
  )

  -- Create, from what NewAPIKey gives
  unfoldable pub create :
      Bool → Bool → Option ℕ → ℕ → ℕ → Option Text → CreateReq → List KeyDo → Created × List KeyDo
  unfolding created_row new_row insert_row fill
  create stored exempt ctx now id none req rows = (refused internal, rows)
  create stored exempt ctx now id (some plain) req rows =
      let row = new_row now id plain req in
      created_row row plain req.scope rows
        (insert_row stored (fill exempt false ctx row.tenant_id) row rows)
