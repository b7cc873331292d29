-- ===== src/Quota.antt =====
-- internal/platform/quota/quota.go: the guard that debits a tenant's quota before a call, and the
-- refund after it; and its callers in internal/server/v1/chat.go (handleChatRefund, recordUsage) and
-- internal/server/internalapi/quota_refund.go. `sampled` is `rand.Intn(100) == 0`, and `stamp` the
-- clock's nanoseconds.
pub mod Guard
pub mod Chat
use ykt_aisaas.Base.{
  ℕ, zero, ◌+◌, ◌/◌, ltb, Bool, true, false, ◌||◌, not, ℤ, pos, ◌-ℤ◌, leb_ℤ, Option, none, some,
  List, [], ◌∷◌, ◌++◌, Text, codes, decimal, length, if◌then◌else◌,
}
use ykt_aisaas.Redis.{Redis, Link, answered, refused, lost, str}
use ykt_aisaas.Redisx.{
  key_quota_used, Deducted, remaining, quota_exceeded, failed, quota_deduct, command, is_answered,
  dim_llm_tokens_in, dim_llm_tokens_out,
}

-- openaiclient.Message, the part that is counted: the bytes of the content.
pub record Message : Type 0 where
  pub role : Text
  pub content : Text

chars_of : List Message → ℕ
chars_of [] = 0
chars_of (m ∷ msgs) = (length m.content + 8) + chars_of msgs

clamp_estimate : ℕ → ℕ
clamp_estimate tok = let tok' = if ltb tok 1 then 1 else tok in if ltb 2048 tok' then 2048 else tok'

unfoldable pub estimate_chat : List Message → ℕ
unfolding chars_of clamp_estimate
estimate_chat msgs = clamp_estimate (chars_of msgs / 3)

-- What the request's context carries: the mark of an internal caller, and the tenant.
pub record Context : Type 0 where
  pub unlimited : Bool
  pub tenant_id : Option ℕ

-- The entry that a sampled check leaves in the audit log, without what remains.
pub record QuotaAudit : Type 0 where
  pub tenant_id : ℕ
  pub dim : Text
  pub success : Bool
  pub estimated : ℤ

abbrev sample : Bool → QuotaAudit → List QuotaAudit
sample true e = e ∷ []
sample false e = []

-- How a route's middleware ends: the request goes on, or is answered with an error.
pub data Gate : Type 0 where
  next abort_tenant_lost abort_quota : Gate

-- The key that marks a refund under way.
unfoldable pub pending_key : ℕ → Text → ℕ → Text
pending_key tenant_id dim stamp =
    codes "aisaas:quota:refund:"
    ++ (decimal tenant_id ++ (codes ":" ++ (dim ++ (codes ":" ++ decimal stamp))))

module _ (R : Redis) where
  open R use {Db, set, incr_by, del}

  -- The result of a debit: only an exceeded quota stops a call; a failure of the store does not.
  precheck_result : Bool → ℕ → Text → ℤ → Deducted × Db → Bool × List QuotaAudit × Db
  precheck_result sampled tid dim estimated (quota_exceeded, d) = (
    false,
    sample sampled (record { tenant_id = tid; dim = dim; success = false; estimated = estimated }),
    d,
  )
  precheck_result sampled tid dim estimated (failed, d) = (
    true,
    sample sampled (record { tenant_id = tid; dim = dim; success = true; estimated = estimated }),
    d,
  )
  precheck_result sampled tid dim estimated (remaining n, d) = (
    true,
    sample sampled (record { tenant_id = tid; dim = dim; success = true; estimated = estimated }),
    d,
  )

  precheck_tenant : Bool → Link → Text → Option ℕ → Text → ℤ → Db → Bool × List QuotaAudit × Db
  unfolding precheck_result
  precheck_tenant sampled link ym none dim estimated d = (false, [], d)
  precheck_tenant sampled link ym (some tid) dim estimated d =
      precheck_result sampled tid dim estimated (quota_deduct R link ym tid dim estimated d)

  -- PrecheckDim
  unfoldable pub precheck_dim :
      Bool → Bool → Link → Text → Context → Text → ℤ → Db → Bool × List QuotaAudit × Db
  unfolding precheck_tenant
  precheck_dim enabled sampled link ym ctx dim estimated d =
      if not enabled || ctx.unlimited
      then (true, [], d)
      else precheck_tenant sampled link ym ctx.tenant_id dim estimated d

  -- Precheck
  unfoldable pub precheck :
      Bool → Bool → Link → Text → Context → ℤ → Db → Bool × List QuotaAudit × Db
  unfolding precheck_dim
  precheck enabled sampled link ym ctx estimated d =
      precheck_dim enabled sampled link ym ctx dim_llm_tokens_in estimated d

  gate_result : Deducted × Db → Gate × Db
  gate_result (quota_exceeded, d) = (abort_quota, d)
  gate_result (failed, d) = (next, d)
  gate_result (remaining n, d) = (next, d)

  gate_tenant : Link → Text → Option ℕ → ℤ → Db → Gate × Db
  unfolding gate_result
  gate_tenant link ym none est d = (abort_tenant_lost, d)
  gate_tenant link ym (some tid) est d =
      gate_result (quota_deduct R link ym tid dim_llm_tokens_in est d)

  -- Middleware
  unfoldable pub middleware : Bool → Link → Text → Context → ℤ → Db → Gate × Db
  unfolding gate_tenant
  middleware enabled link ym ctx est d =
      if not enabled || ctx.unlimited then (next, d) else gate_tenant link ym ctx.tenant_id est d

  -- Refund, with the links of its SET, INCRBY and DEL; the result says whether the error is nil.
  unfoldable pub refund : Link → Link → Link → ℕ → Text → ℕ → Text → ℤ → Db → Bool × Db
  unfolding command pending_key
  refund l₀ l₁ l₂ stamp ym tenant_id dim amount d =
      let key = pending_key tenant_id dim stamp in
      let marked = command R l₀ (set key (str (codes "1"))) d in
      let counted = command R l₁ (incr_by (key_quota_used tenant_id dim ym) amount) marked in
      if leb_ℤ amount (pos 0)
      then (true, d)
      else if not (is_answered l₀)
      then (false, marked)
      else if not (is_answered l₁)
      then (false, counted)
      else (true, command R l₂ (del key) counted)

  -- handleChatRefund; its goroutine's error is only logged. A context without tenant reads as 0.
  unfoldable pub handle_chat_refund : Link → Link → Link → ℕ → Text → Option ℕ → ℤ → ℤ → Db → Db
  unfolding refund
  handle_chat_refund l₀ l₁ l₂ stamp ym none estimated actual d = d
  handle_chat_refund l₀ l₁ l₂ stamp ym (some zero) estimated actual d = d
  handle_chat_refund l₀ l₁ l₂ stamp ym (some tid) estimated actual d =
      if leb_ℤ estimated actual
      then d
      else (refund l₀ l₁ l₂ stamp ym tid dim_llm_tokens_in (estimated -ℤ actual) d).1

  -- RefundQuota of the internal API, once its body is bound: the amount that it reports, or none
  -- where it answers with an error.
  unfoldable pub refund_quota :
      Link → Link → Link → ℕ → Text → ℕ → Text → ℤ → ℤ → Db → Option ℤ × Db
  unfolding refund
  refund_quota l₀ l₁ l₂ stamp ym tenant_id dim estimated actual d =
      let amount = estimated -ℤ actual in
      let (ok, d') = refund l₀ l₁ l₂ stamp ym tenant_id dim amount d in
      if leb_ℤ amount (pos 0) then (some (pos 0), d) else (if ok then some amount else none, d')
