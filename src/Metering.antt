-- ===== src/Metering.antt =====
-- internal/platform/metering/metering.go: recording the use of a call (Record, RecordWithCtx). A channel is a list with its capacity. A message that XADD
-- has run for stands at the end of the stream; the server's trimming of the stream is left out.
pub mod Dlq
pub mod Paths
pub mod Workers
use ykt_aisaas.Base.{
  ℕ, zero, suc, ◌+◌, ltb, Bool, true, false, not, ℤ, pos, Option, none, some, List, [], ◌∷◌, ◌++◌,
  Text, length, if◌then◌else◌, ltb_ℤ,
}
use ykt_aisaas.Redis.{Redis, Link, answered, refused, lost}
use ykt_aisaas.Redisx.{key_quota_used, command, is_answered, dim_llm_tokens_in, dim_llm_tokens_out}

-- metering.Record
pub record UsageRecord : Type 0 where
  pub tenant_id : ℕ
  pub api_key_id : ℕ
  pub biz_type : Text
  pub dimension : Text
  pub amount : ℤ
  pub model_id : Text
  pub request_id : Text
  pub success : Bool  -- status 1

-- The parts of a Recorder that a call changes, and where its records go.
pub record Recorder : Type 0 where
  pub use_stream : Bool
  pub stream : List UsageRecord
  pub channel : List UsageRecord
  pub channel_cap : ℕ
  pub fallback : List UsageRecord
  pub fallback_cap : ℕ

-- A send that does not block: a full channel drops the record.
unfoldable pub offer : ℕ → List UsageRecord → UsageRecord → List UsageRecord
offer cap q rec = if ltb (length q) cap then q ++ rec ∷ [] else q

-- XADD, as far as the stream sees it.
unfoldable pub xadd : Link → UsageRecord → List UsageRecord → List UsageRecord
xadd answered rec s = s ++ rec ∷ []
xadd refused rec s = s
xadd lost rec s = s ++ rec ∷ []

unfoldable pub deliver : Link → UsageRecord → Recorder → Recorder
unfolding offer xadd
deliver link rec r =
    let added = record r { stream = xadd link rec r.stream } in
    if r.use_stream
    then (if is_answered link
        then added
        else record added { fallback = offer r.fallback_cap r.fallback rec })
    else record r { channel = offer r.channel_cap r.channel rec }

tenant_or : Option ℕ → ℕ → ℕ
tenant_or none t = t
tenant_or (some tid) t = tid

module _ (R : Redis) where
  open R use {Db, incr_by}

  -- Record, with the links of its INCRBY and its XADD
  unfoldable pub record_usage : Link → Link → Text → UsageRecord → Recorder × Db → Recorder × Db
  unfolding command deliver
  record_usage count_link add_link ym rec (r, d) = (
    deliver add_link rec r,
    command R count_link (incr_by (key_quota_used rec.tenant_id rec.dimension ym) rec.amount) d,
  )

  record_of_tenant : Link → Link → Text → ℕ → UsageRecord → Recorder × Db → Recorder × Db
  unfolding record_usage
  record_of_tenant count_link add_link ym zero rec s = s
  record_of_tenant count_link add_link ym (suc t) rec s =
      record_usage count_link add_link ym (record rec { tenant_id = suc t }) s

  -- RecordWithCtx: the context's tenant, if it has one, replaces the record's
  unfoldable pub record_with_ctx :
      Link → Link → Text → Option ℕ → UsageRecord → Recorder × Db → Recorder × Db
  unfolding record_of_tenant tenant_or
  record_with_ctx count_link add_link ym ctx rec s =
      record_of_tenant count_link add_link ym (tenant_or ctx rec.tenant_id) rec s
