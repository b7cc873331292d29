-- ===== src/Examples/Callers.antt =====
-- The theorems on errors, API keys, logins and experiments at concrete inputs.
use ykt_aisaas.Base.{
  ◌≡◌, ◌||◌, refl, true, false, none, some, List, [], ◌∷◌, ◌++◌, arith, Text, codes, text_eq, pos,
}
use ykt_aisaas.Redis.{answered, str}
use ykt_aisaas.Redis.Memory.{memory, Table, empty_table, write}
use ykt_aisaas.Redisx.{key_api_key_by_hash, int64_or_zero}
use ykt_aisaas.Auth.{
  KeyRow, TenantOf, Outside, Validated, valid, has_scope, ip_allowed, bo_of, find_key, post_check,
  cache_get, validate, middleware,
}
use ykt_aisaas.Auth.Keys.{IsKnown, middleware_valid}
use ykt_aisaas.Auth.Logins.{AtLeast, fail_key, login_rate_limit, failures, failures_lem}
use ykt_aisaas.AbTest.{Op, Experiment, draft, running, start_op, pause_op, stop_op, perform_all}
use ykt_aisaas.AbTest.Updates.{has_id}
use ykt_aisaas.AbTest.Lifecycle.{IsTable, perform_all-IsTable}

-- A key of tenant 7 for chats that expires at 1000.
abbrev key_row : KeyRow
key_row = record {
  api_key_hash = codes "h1";
  id = 3;
  tenant_id = 7;
  scope = codes "llm" ∷ [];
  ip_allow = [];
  expires_at = some 1000;
  status = pos 1;
}

-- A codec of which the one key that is used can be read back.
abbrev outside : Outside
outside = record {
  hash_key = λ plain. codes "h" ++ plain;
  marshal = λ bo. some (codes "{}");
  unmarshal = λ raw. some (bo_of key_row);
  in_cidr = λ net ip. false;
}

abbrev tenants : TenantOf
tenants = some (λ tid. some (pos 1))

abbrev admitted : Validated × Table
admitted =
    middleware memory outside answered answered true tenants 5 (codes "llm") (codes "10.0.0.1")
      (codes "1") (key_row ∷ []) empty_table

passed : admitted.0 ≡ valid (bo_of key_row)
unfolding middleware validate post_check has_scope ip_allowed find_key bo_of text_eq cache_get
passed = refl

middleware_valid_example :
    (text_eq (codes "1") [] ≡ false)
    × IsKnown memory outside answered 5 (codes "h1") (key_row ∷ []) empty_table (bo_of key_row)
    × (post_check tenants 5 (bo_of key_row) ≡ none)
    × ((text_eq (codes "llm") [] || has_scope (bo_of key_row) (codes "llm")) ≡ true)
    × (ip_allowed outside.in_cidr (bo_of key_row) (codes "10.0.0.1") ≡ true)
middleware_valid_example =
    middleware_valid memory outside answered answered true tenants 5 (codes "llm")
      (codes "10.0.0.1") (codes "1") (key_row ∷ []) empty_table (bo_of key_row) passed

abbrev cached : Table
cached = write (key_api_key_by_hash (codes "h1")) (some (str (codes "{}"))) empty_table

abbrev five_addresses : List Text
five_addresses = codes "a" ∷ codes "b" ∷ codes "c" ∷ codes "d" ∷ codes "e" ∷ []

no_failures : AtLeast memory 0 (fail_key (codes "root")) empty_table
unfolding int64_or_zero
no_failures = record { counts = refl; enough = omega arith }

failures_lem_example :
    login_rate_limit memory answered answered
      (codes "f")
      (codes "root")
      (pos 5)
      (failures memory (codes "root") five_addresses empty_table)
    ≡ false
failures_lem_example =
    failures_lem memory (codes "root") five_addresses (codes "f") (pos 5) 0 empty_table no_failures
      refl

abbrev fresh_experiment : Experiment
fresh_experiment = record {
  id = 1;
  name = codes "e";
  status = draft;
  started_at = none;
  ended_at = none;
}

abbrev running_experiment : Experiment
running_experiment = record {
  id = 1;
  name = codes "e";
  status = running;
  started_at = some 4;
  ended_at = none;
}

abbrev life : List Op
life =
    start_op (some 7) true true 1 4 ∷ pause_op (some 7) true true 1 ∷ stop_op (some 7) true 1 9 ∷ []

perform_all-IsTable_example : IsTable (perform_all true life (fresh_experiment ∷ []))
unfolding has_id
perform_all-IsTable_example =
    perform_all-IsTable true life (fresh_experiment ∷ [])
      (record { apart = refl; dates = (refl, tt) })

abbrev scopes : List Text
scopes = codes "llm" ∷ codes "r a[g]" ∷ []
