-- ===== src/Examples/Keys.antt =====
-- The theorems on the keys of tenants: tenant 7 creates a key, which is revoked or rotated.
use ykt_aisaas.Base.{
  ◌+◌, ◌≡◌, refl, true, false, none, some, List, [], ◌∷◌, ◌++◌, Text, codes, text_eq, pos, arith,
}
use ykt_aisaas.Redis.{answered}
use ykt_aisaas.Redis.Memory.{memory, empty_table}
use ykt_aisaas.Errs.{invalid_api_key, resource_not_found}
use ykt_aisaas.Auth.{TenantOf, Outside, rejected, bo_of, post_check, checked, cache_get, validate}
use ykt_aisaas.Auth.Internal.{Addresses, internal_middleware, is_allowed_internal_ip}
use ykt_aisaas.Auth.Lists.{parse_json_arr}
use ykt_aisaas.ApiKeys.{
  KeyDo, key_row, key_rows, get_by_id, CreateReq, Crypto, refused, create, marshal_arr, parse_scope,
}
use ykt_aisaas.ApiKeys.Scopes.{scopes_read_back}
use ykt_aisaas.ApiKeys.Rotation.{revoke_by_internal, grace, rotate}
use ykt_aisaas.ApiKeys.Life.{
  revoke-validate, internal_other_tenant, rights, create-validate, rotate-validate,
}

abbrev outside : Outside
outside = record {
  hash_key = λ plain. codes "h" ++ plain;
  marshal = λ bo. none;
  unmarshal = λ raw. none;
  in_cidr = λ net ip. false;
}

abbrev crypto : Crypto
crypto = record { key_display = λ plain. plain; add_days = λ now days. now + days }

abbrev tenants : TenantOf
tenants = some (λ tid. some (pos 1))

abbrev words : List Text
words = codes "llm" ∷ codes "rag" ∷ []

scopes_read_back_example :
    (parse_scope (marshal_arr words) ≡ words) × (parse_json_arr (marshal_arr words) ≡ words)
scopes_read_back_example =
    scopes_read_back words ((ground arith, omega arith), ((ground arith, omega arith), tt))

abbrev chat_key : CreateReq
chat_key = record {
  name = codes "chat";
  scope = words;
  ip_allow = [];
  expires_days = some (pos 30);
}

create-validate_example :
    let (answer, rows) =
      create outside crypto true false (some 7) 5 1 (some (codes "k")) chat_key [] in
    (validate memory outside answered answered true tenants 6
      (codes "k")
      (key_rows rows)
      empty_table).0
    ≡ checked
        (rights memory outside crypto 7 5 1 chat_key)
        (post_check tenants 6 (rights memory outside crypto 7 5 1 chat_key))
unfolding cache_get
create-validate_example =
    create-validate memory outside crypto answered answered tenants 7 5 6 1 (codes "k") chat_key []
      empty_table ((ground arith, omega arith), ((ground arith, omega arith), tt)) tt refl

abbrev key_of_7 : KeyDo
key_of_7 = record {
  id = 1;
  tenant_id = 7;
  name = codes "chat";
  api_key_hash = codes "hk";
  key_prefix = codes "k";
  scope = codes "[\"llm\"]";
  ip_allow = codes "[]";
  expires_at = none;
  status = pos 1;
  is_deleted = false;
}

revoke-validate_example :
    let (error, rows, d) =
      revoke_by_internal memory outside false true true answered
        (some 7)
        1
        (key_of_7 ∷ [])
        empty_table in
    (error ≡ none)
    × ((validate memory outside answered answered true tenants 6 (codes "k") (key_rows rows) d).0
        ≡ rejected invalid_api_key)
unfolding get_by_id
revoke-validate_example =
    revoke-validate memory outside crypto answered tenants 7 6 1 (codes "k") (key_of_7 ∷ [])
      key_of_7 empty_table refl refl ((λ same. refl), tt)

-- A caller from the machine itself
abbrev local_net : Addresses
local_net = record {
  host_of = λ remote. some remote;
  is_ip = λ ip. true;
  is_loopback = λ ip. true;
  is_private = λ ip. false;
}

internal_other_tenant_example :
    (revoke_by_internal memory outside false true true answered
        (some 1)
        1
        (key_of_7 ∷ [])
        empty_table
      ≡ (some resource_not_found, key_of_7 ∷ [], empty_table))
    × (rotate outside crypto true true false (some 1) 5 2 (some (codes "n")) 1 (key_of_7 ∷ [])
        ≡ (refused resource_not_found, key_of_7 ∷ []))
unfolding internal_middleware is_allowed_internal_ip text_eq
internal_other_tenant_example =
    internal_other_tenant memory outside crypto local_net (codes "s") (codes "s") (codes "::1") true
      true true answered 1 5 2 1 (some (codes "n")) (key_of_7 ∷ []) empty_table refl
      ((λ same. refl), tt)

abbrev after_rotation : List KeyDo
after_rotation =
    (rotate outside crypto true true false (some 7) 5 2 (some (codes "n")) 1 (key_of_7 ∷ [])).1

rotate-validate_example :
    let new_bo = record (bo_of (key_row key_of_7)) {
      id = 2;
      tenant_id = 7;
      expires_at = none;
      status = pos 1;
    } in
    let old_bo = record (bo_of (key_row key_of_7)) { expires_at = some (5 + grace) } in
    ((validate memory outside answered answered true tenants 9
        (codes "n")
        (key_rows after_rotation)
        empty_table).0
      ≡ checked new_bo (post_check tenants 9 new_bo))
    × ((validate memory outside answered answered true tenants 9
          (codes "k")
          (key_rows after_rotation)
          empty_table).0
        ≡ checked old_bo (post_check tenants 9 old_bo))
unfolding get_by_id cache_get text_eq
rotate-validate_example =
    rotate-validate memory outside crypto answered answered tenants 7 5 9 2 1 (codes "n")
      (codes "k") (key_of_7 ∷ []) key_of_7 empty_table refl refl ((λ same. refl), tt) refl refl refl
