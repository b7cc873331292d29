-- ===== src/Examples.antt =====
-- Each theorem of the library at a concrete input: tenant 7 with a limit of 100 tokens, of which 40
-- are used, on the database that is a function from keys to values.
pub mod Quotas
pub mod Calls
pub mod Workers
pub mod Accounts
pub mod Callers
pub mod Records
pub mod Documents
pub mod Rules
pub mod Assignments
pub mod Models
pub mod Servers
pub mod Keys
pub mod Bindings
use ykt_aisaas.Base.{ℕ, ◌≡◌, refl, ℤ, pos, some, Text, codes, text_eq, NoColon, arith, decimal}
use ykt_aisaas.Redis.{num, hash}
use ykt_aisaas.Redis.Memory.{Table, write, empty_table}
use ykt_aisaas.Redisx.{key_quota_used, key_quota_limit, key_session_quota, dim_llm_tokens_in}
use ykt_aisaas.Redisx.Deduct.{IsCounter}

abbrev pub month : Text
month = codes "202611"

abbrev pub used_of_7 : Text
used_of_7 = key_quota_used 7 dim_llm_tokens_in month

abbrev pub limit_of_7 : Text
limit_of_7 = key_quota_limit 7 dim_llm_tokens_in month

abbrev pub loaded_table : Table
loaded_table =
    write limit_of_7 (some (num (pos 100))) (write used_of_7 (some (num (pos 40))) empty_table)

pub month-NoColon : NoColon month
month-NoColon = omega arith

pub dim-NoColon : NoColon dim_llm_tokens_in
dim-NoColon = omega arith

pub limit_loaded : loaded_table limit_of_7 ≡ some (num (pos 100))
unfolding key_quota_used key_quota_limit text_eq decimal
limit_loaded = refl

pub used_loaded : loaded_table used_of_7 ≡ some (num (pos 40))
unfolding key_quota_used key_quota_limit text_eq decimal
used_loaded = refl

pub used-IsCounter : IsCounter (loaded_table used_of_7)
used-IsCounter = rw used_loaded refl
