-- ===== src/Quota/Guard.antt =====
-- What the guard of quota.go decides: the bounds of the estimate, the calls that it lets through,
-- and the agreement of its two forms.
use ykt_aisaas.Base.{
  ℕ, ◌≤◌, ◌≡◌, ◌↔◌, Bool, true, false, not, some, List, arith, Text, NoColon, refl, ap, ◌∙◌, ℤ, pos,
  ◌+ℤ◌, ◌-ℤ◌, ◌≤ℤ◌, ltb_ℤ, if◌then◌else◌,
}
use ykt_aisaas.Redis.{Redis, num, Link, answered, refused}
use ykt_aisaas.Redisx.{
  key_quota_used, key_quota_limit, dim_llm_tokens_in, quota_ttl, Deducted, quota_exceeded,
  remaining, quota_deduct, run, deducted,
}
use ykt_aisaas.Redisx.Deduct.{IsCounter, used_of}
use ykt_aisaas.Redisx.Limits.{quota_deduct_outcome, quota_deduct_fits}
use ykt_aisaas.Quota.{
  Message, estimate_chat, Context, precheck_result, precheck_dim, precheck, next, middleware,
}

-- An estimate lies between 1 and 2048.
pub estimate_chat_bounds :
    (msgs : List Message) → (1 ≤ estimate_chat msgs) × (estimate_chat msgs ≤ 2048)
unfolding estimate_chat
estimate_chat_bounds msgs = ground arith

module _ (R : Redis) where
  open R use {Db, read}

  precheck_result-allowed :
      (sampled : Bool) (tid : ℕ) (dim : Text) (estimated : ℤ) (over : Bool) (n : ℤ) (r : Deducted)
      (d : Db)
      → r ≡ (if over then quota_exceeded else remaining n)
      → ((precheck_result R sampled tid dim estimated (r, d)).0 ≡ not over)
        × ((precheck_result R sampled tid dim estimated (r, d)).2 ≡ d)
  unfolding precheck_result
  precheck_result-allowed sampled tid dim estimated over n r d h = ground arith

  -- With a limit in force and an answering store, a checked call passes exactly when the estimate
  -- fits, and exactly then the estimate is counted.
  pub precheck_dim_decides :
      (sampled : Bool) (ym : Text) (tid : ℕ) (dim : Text) (limit estimated : ℤ) (d : Db)
      → NoColon ym
      → NoColon dim
      → pos 0 ≤ℤ limit
      → IsCounter (read d (key_quota_used tid dim ym))
      → read d (key_quota_limit tid dim ym) ≡ some (num limit)
      → let used = used_of R d (key_quota_used tid dim ym) in
        let over = ltb_ℤ limit (used +ℤ estimated) in
        let ctx : Context = record { unlimited = false; tenant_id = some tid } in
        let (allowed, _, d') = precheck_dim R true sampled answered ym ctx dim estimated d in
        (allowed ≡ not over)
        × (used_of R d' (key_quota_used tid dim ym) ≡ (if over then used else used +ℤ estimated))
  unfolding precheck_dim
  precheck_dim_decides sampled ym tid dim limit estimated d month plain limited counts loaded =
      let (res, counted) =
        quota_deduct_outcome R ym tid dim limit month plain limited estimated d counts loaded in
      let (res', d') = quota_deduct R answered ym tid dim estimated d in
      let used = used_of R d (key_quota_used tid dim ym) in
      let (decided, same) =
        precheck_result-allowed sampled tid dim estimated (ltb_ℤ limit (used +ℤ estimated))
          (limit -ℤ used -ℤ estimated) res' d' res in
      (decided, rw same counted)

  -- A check whose estimate fits, as the database sees it.
  pub precheck_fits :
      (sampled : Bool) (ym : Text) (tid : ℕ) (limit estimated : ℤ) (d : Db)
      → NoColon ym
      → pos 0 ≤ℤ limit
      → IsCounter (read d (key_quota_used tid dim_llm_tokens_in ym))
      → read d (key_quota_limit tid dim_llm_tokens_in ym) ≡ some (num limit)
      → ltb_ℤ limit (used_of R d (key_quota_used tid dim_llm_tokens_in ym) +ℤ estimated) ≡ false
      → let ctx : Context = record { unlimited = false; tenant_id = some tid } in
        let (allowed, _, d') = precheck R true sampled answered ym ctx estimated d in
        (allowed ≡ true)
        × (d'
            ≡ R.expire
                (key_quota_used tid dim_llm_tokens_in ym)
                quota_ttl
                (R.incr_by (key_quota_used tid dim_llm_tokens_in ym) estimated d))
  unfolding precheck
  precheck_fits sampled ym tid limit estimated d month limited counts loaded fits =
      let plain : NoColon dim_llm_tokens_in = omega arith in
      let (res, _) =
        quota_deduct_outcome R ym tid dim_llm_tokens_in limit month plain limited estimated d counts
          loaded in
      let (res', d') = quota_deduct R answered ym tid dim_llm_tokens_in estimated d in
      let used = used_of R d (key_quota_used tid dim_llm_tokens_in ym) in
      let (decided, same) =
        precheck_result-allowed sampled tid dim_llm_tokens_in estimated
          (ltb_ℤ limit (used +ℤ estimated)) (limit -ℤ used -ℤ estimated) res' d' res in
      (
        decided ∙ ap not fits,
        same
            ∙ quota_deduct_fits R ym tid dim_llm_tokens_in limit month plain limited estimated d
                counts loaded fits,
      )

  -- A store that does not answer lets every checked call of a tenant pass.
  pub precheck_dim_unreachable :
      (sampled : Bool) (ym : Text) (tid : ℕ) (dim : Text) (estimated : ℤ) (d : Db)
      → let ctx : Context = record { unlimited = false; tenant_id = some tid } in
        let (allowed, _, d') = precheck_dim R true sampled refused ym ctx dim estimated d in
        (allowed ≡ true) × (d' ≡ d)
  unfolding precheck_dim quota_deduct run
  precheck_dim_unreachable sampled ym tid dim estimated d =
      rw R.int64_of-script_error (unfold deducted precheck_result in (refl, refl))

  -- The route's middleware and the handler's own check agree: on every context and database the
  -- one lets a request on exactly when the other does, and they leave the same database.
  pub middleware-precheck :
      (enabled sampled : Bool) (link : Link) (ym : Text) (ctx : Context) (est : ℤ) (d : Db)
      → let (gate, d') = middleware R enabled link ym ctx est d in
        let (allowed, _, d₂) = precheck R enabled sampled link ym ctx est d in
        ((gate ≡ next) ↔ (allowed ≡ true)) × (d' ≡ d₂)
  unfolding middleware precheck
  middleware-precheck enabled sampled link ym ctx est d = ground arith
