-- ===== src/Chat.antt =====
-- internal/server/v1/chat.go, Completions without tools or streaming, from its quota check on:
-- what it debits, records and refunds. The request is bound, its model resolved, and the upstream's
-- answer is an argument: its token counts, or none where it failed.
pub mod Counting
use ykt_aisaas.Base.{
  ℕ, ltb, Bool, true, false, ℤ, pos, Option, none, some, List, [], Text, codes, if◌then◌else◌,
}
use ykt_aisaas.Redis.{Redis, Link}
use ykt_aisaas.Redisx.{dim_llm_tokens_in, dim_llm_tokens_out}
use ykt_aisaas.Metering.{UsageRecord, Recorder, record_with_ctx}
use ykt_aisaas.Quota.{Context, QuotaAudit, precheck, handle_chat_refund}

-- How the round trips to Redis end, in the order in which a completion makes them.
pub record Links : Type 0 where
  pub check : Link
  pub count_in : Link
  pub add_in : Link
  pub count_out : Link
  pub add_out : Link
  pub mark : Link
  pub refund : Link
  pub unmark : Link

-- The record of a model's tokens; RecordWithCtx puts the tenant in.
unfoldable pub usage_of : Text → ℕ → Bool → Text → Text → UsageRecord
usage_of dim n success model_id request_id = record {
  tenant_id = 0;
  api_key_id = 0;
  biz_type = codes "llm";
  dimension = dim;
  amount = pos n;
  model_id = model_id;
  request_id = request_id;
  success = success;
}

-- How a completion ends.
pub data Ended : Type 0 where
  quota_denied provider_error : Ended
  replied : ℕ → ℕ → Ended

module _ (R : Redis) where
  open R use {Db}

  -- recordUsage
  unfoldable pub record_tokens :
      Links → Text → Option ℕ → Text → Text → ℕ → ℕ → Recorder × Db → Recorder × Db
  unfolding usage_of
  record_tokens l ym tenant model_id request_id tokens_in tokens_out s =
      let s' =
        if ltb 0 tokens_in
        then record_with_ctx R l.count_in l.add_in ym tenant
            (usage_of dim_llm_tokens_in tokens_in true model_id request_id) s
        else s in
      if ltb 0 tokens_out
      then record_with_ctx R l.count_out l.add_out ym tenant
          (usage_of dim_llm_tokens_out tokens_out true model_id request_id) s'
      else s'

  refund_after : Links → ℕ → Text → Option ℕ → ℕ → ℕ → Recorder × Db → Recorder × Db
  refund_after l stamp ym tenant estimated actual (r, d) = (
    r,
    handle_chat_refund R l.mark l.refund l.unmark stamp ym tenant (pos estimated) (pos actual) d,
  )

  -- After the check: the failed answer refunds all of the estimate before its record of 0 tokens,
  -- and the good one records its tokens before it refunds.
  settle :
      Links
      → ℕ
      → Text
      → Option ℕ
      → Text
      → Text
      → ℕ
      → Option (ℕ × ℕ)
      → Recorder × Db
      → Ended × Recorder × Db
  unfolding record_tokens refund_after
  settle l stamp ym tenant model_id request_id estimated none s =
      let (r, d) =
        record_with_ctx R l.count_in l.add_in ym tenant
          (usage_of dim_llm_tokens_in 0 false model_id request_id)
          (refund_after l stamp ym tenant estimated 0 s) in
      (provider_error, r, d)
  settle l stamp ym tenant model_id request_id estimated (some (tokens_in, tokens_out)) s =
      let (r, d) =
        refund_after l stamp ym tenant estimated tokens_in
          (record_tokens l ym tenant model_id request_id tokens_in tokens_out s) in
      (replied tokens_in tokens_out, r, d)

  checked :
      Links
      → ℕ
      → Text
      → Option ℕ
      → Text
      → Text
      → ℕ
      → Option (ℕ × ℕ)
      → Recorder
      → Bool × List QuotaAudit × Db
      → Ended × Recorder × Db
  unfolding settle
  checked l stamp ym tenant model_id request_id estimated answer r (false, _, d) =
      (quota_denied, r, d)
  checked l stamp ym tenant model_id request_id estimated answer r (true, _, d) =
      settle l stamp ym tenant model_id request_id estimated answer (r, d)

  unfoldable pub completion :
      Bool
      → Bool
      → Links
      → ℕ
      → Text
      → Context
      → Text
      → Text
      → ℕ
      → Option (ℕ × ℕ)
      → Recorder
      → Db
      → Ended × Recorder × Db
  unfolding checked
  completion enabled sampled l stamp ym ctx model_id request_id estimated answer r d =
      checked l stamp ym ctx.tenant_id model_id request_id estimated answer r
        (precheck R enabled sampled l.check ym ctx (pos estimated) d)
