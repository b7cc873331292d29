-- ===== src/Examples/Calls.antt =====
-- The theorems on checks, refunds and completions at concrete inputs.
use ykt_aisaas.Base.{
  ◌≡◌, refl, true, false, none, some, List, [], ◌∷◌, arith, codes, decimal, text_eq, pos, ◌+ℤ◌,
}
use ykt_aisaas.Redis.{answered}
use ykt_aisaas.Redis.Memory.{memory}
use ykt_aisaas.Redisx.{key_quota_used, key_quota_limit, dim_llm_tokens_in, int64_or_zero}
use ykt_aisaas.Redisx.Deduct.{used_of}
use ykt_aisaas.Quota.{Context, Message, precheck_dim, pending_key, refund}
use ykt_aisaas.Quota.Guard.{precheck_dim_decides}
use ykt_aisaas.Quota.Chat.{refund_outcome}
use ykt_aisaas.Metering.{Recorder, UsageRecord}
use ykt_aisaas.Chat.{Links, usage_of, completion}
use ykt_aisaas.Chat.Counting.{completion_counts}
use ykt_aisaas.Examples.{
  month, used_of_7, loaded_table, month-NoColon, dim-NoColon, limit_loaded, used-IsCounter,
}

abbrev question : List Message
question = record { role = codes "user"; content = codes "what is a path type?" } ∷ []

abbrev caller : Context
caller = record { unlimited = false; tenant_id = some 7 }

precheck_dim_decides_example :
    let (allowed, _, d) =
      precheck_dim memory true false answered month caller dim_llm_tokens_in
        (pos 60)
        loaded_table in
    (allowed ≡ true) × (used_of memory d used_of_7 ≡ pos 100)
unfolding key_quota_used key_quota_limit text_eq decimal int64_or_zero ◌+ℤ◌
precheck_dim_decides_example =
    precheck_dim_decides memory false month 7 dim_llm_tokens_in (pos 100) (pos 60) loaded_table
      month-NoColon dim-NoColon (omega arith) used-IsCounter limit_loaded

refund_outcome_example :
    let (ok, d) =
      refund memory answered answered answered 5 month 7 dim_llm_tokens_in (pos 12) loaded_table in
    (ok ≡ true)
    × (d (pending_key 7 dim_llm_tokens_in 5) ≡ none)
    × (used_of memory d used_of_7 ≡ pos 52)
unfolding key_quota_used key_quota_limit text_eq decimal int64_or_zero ◌+ℤ◌
refund_outcome_example =
    refund_outcome memory month 7 dim_llm_tokens_in 5 (pos 12) loaded_table used-IsCounter refl

abbrev idle_recorder : Recorder
idle_recorder = record {
  use_stream = true;
  stream = [];
  channel = [];
  channel_cap = 4;
  fallback = [];
  fallback_cap = 4;
}

abbrev some_usage : UsageRecord
some_usage = usage_of dim_llm_tokens_in 30 true (codes "m") (codes "r")

abbrev all_up : Links
all_up = record {
  check = answered;
  count_in = answered;
  add_in = answered;
  count_out = answered;
  add_out = answered;
  mark = answered;
  refund = answered;
  unmark = answered;
}

-- An estimate of 20 and an upstream that counts 12: the counter goes from 40 to 80.
completion_counts_example :
    used_of memory
      (completion memory true false all_up 5 month caller
        (codes "m")
        (codes "r")
        20
        (some (12, 30))
        idle_recorder
        loaded_table).2
      used_of_7
    ≡ pos 80
unfolding key_quota_used key_quota_limit text_eq decimal int64_or_zero ◌+ℤ◌
completion_counts_example =
    completion_counts memory month 6 false 5 20 (codes "m") (codes "r") (pos 100) (some (12, 30))
      idle_recorder loaded_table month-NoColon (omega arith) used-IsCounter limit_loaded refl
