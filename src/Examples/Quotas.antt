-- ===== src/Examples/Quotas.antt =====
-- The theorems on quotas at concrete inputs.
use ykt_aisaas.Base.{
  ℕ, ◌≡◌, refl, none, List, [], ◌∷◌, arith, Text, codes, decimal, text_eq, pos, ◌+ℤ◌, ◌-ℤ◌,
}
use ykt_aisaas.Redis.{answered, lost}
use ykt_aisaas.Redis.Memory.{memory, Table}
use ykt_aisaas.Redisx.{
  Deducted, remaining, snapshot_failed, key_quota_used, key_quota_limit, key_session_quota,
  dim_llm_tokens_in, dim_tts_chars, quota_deduct, int64_or_zero,
}
use ykt_aisaas.Redisx.Deduct.{used_of, IsWithin}
use ykt_aisaas.Redisx.Keys.{key_quota_used-injective}
use ykt_aisaas.Redisx.Limits.{Call, debits, debits-IsWithin, quota_deduct_outcome}
use ykt_aisaas.Redisx.SessionQuota.{quota_snapshot_deduct}
use ykt_aisaas.Redisx.Refund.{SessionCall, debit, refund, perform_all, sessions_uncounted}
use ykt_aisaas.Examples.{
  month, used_of_7, limit_of_7, loaded_table, month-NoColon, dim-NoColon, limit_loaded, used_loaded,
  used-IsCounter,
}

-- Two debits of tenant 7, the second past its limit, and one of tenant 8.
abbrev three_calls : List Call
three_calls =
    record { tenant_id = 7; dim = dim_llm_tokens_in; amount = pos 50; link = answered }
    ∷ record { tenant_id = 7; dim = dim_llm_tokens_in; amount = pos 11; link = lost }
    ∷ record { tenant_id = 8; dim = dim_tts_chars; amount = pos 900; link = answered }
    ∷ []

loaded-IsWithin : IsWithin memory used_of_7 limit_of_7 (pos 100) loaded_table
unfolding int64_or_zero
loaded-IsWithin = record {
  counts = used-IsCounter;
  loaded = limit_loaded;
  within = rw used_loaded (omega arith);
}

debits-IsWithin_example :
    IsWithin memory used_of_7 limit_of_7 (pos 100) (debits memory month three_calls loaded_table)
debits-IsWithin_example =
    debits-IsWithin memory month 7 dim_llm_tokens_in (pos 100) month-NoColon dim-NoColon
      (omega arith) three_calls loaded_table (omega arith) loaded-IsWithin

abbrev debited : Deducted × Table
debited = quota_deduct memory answered month 7 dim_llm_tokens_in (pos 25) loaded_table

quota_deduct_outcome_example :
    (debited.0 ≡ remaining (pos 35)) × (used_of memory debited.1 used_of_7 ≡ pos 65)
unfolding key_quota_used key_quota_limit text_eq decimal int64_or_zero ◌+ℤ◌ ◌-ℤ◌
quota_deduct_outcome_example =
    quota_deduct_outcome memory month 7 dim_llm_tokens_in (pos 100) month-NoColon dim-NoColon
      (omega arith) (pos 25) loaded_table used-IsCounter limit_loaded

abbrev tenant : ℕ
tenant = 7

key_quota_used-injective_example :
    (tenant ≡ tenant) × (dim_llm_tokens_in ≡ dim_llm_tokens_in) × (month ≡ month)
key_quota_used-injective_example =
    key_quota_used-injective tenant tenant dim_llm_tokens_in dim_llm_tokens_in month month
      dim-NoColon dim-NoColon refl

abbrev session : Text
session = codes "s1"

no_session : (id dim : Text) → loaded_table (key_session_quota id dim) ≡ none
unfolding key_quota_used key_quota_limit key_session_quota text_eq decimal
no_session id dim = refl

-- A session of tenant 7 that takes 30 and reports 12.
abbrev one_session : List SessionCall
one_session =
    debit answered month 7 dim_llm_tokens_in session (pos 30)
    ∷ refund answered lost answered month 7 dim_llm_tokens_in session (pos 12)
    ∷ []

sessions_uncounted_example :
    (perform_all memory one_session loaded_table ≡ loaded_table)
    × (quota_snapshot_deduct memory answered month 7 dim_llm_tokens_in session
          (pos 30)
          (perform_all memory one_session loaded_table)
        ≡ (snapshot_failed, loaded_table))
sessions_uncounted_example =
    sessions_uncounted memory one_session loaded_table answered month 7 dim_llm_tokens_in session
      (pos 30) no_session
