-- ===== src/Chat/Counting.antt =====
-- What one completion of chat.go adds to its tenant's counter of input tokens.
use Prim.Native.Nat.{max}
use ykt_aisaas.Base.{
  ℕ, suc, ◌+◌, ◌-◌, ◌≡◌, ◌≢◌, Bool, true, false, none, some, Option, refl, ◌∙◌, ap, arith, inl, inr,
  Text, NoColon, ℤ, pos, ◌+ℤ◌, ◌-ℤ◌, ◌≤ℤ◌, leb_ℤ, ltb_ℤ, ltb, int_laws, text_eq, text_eq_ne,
  Bool-cases, List, pos-sub, owed_positive, nothing_owed, add_none, add_max, if◌then◌else◌, subst,
}
use ykt_aisaas.Redis.{Redis, num, answered}
use ykt_aisaas.Redisx.{
  key_quota_used, key_quota_limit, dim_llm_tokens_in, dim_llm_tokens_out, int64_or_zero, quota_ttl,
}
use ykt_aisaas.Redisx.Keys.{key_quota_used-injective}
use ykt_aisaas.Redisx.Deduct.{
  IsCounter, used_of, used_of-incr_by, incr_by-IsCounter, used_of-debit, debit-IsCounter,
}
use ykt_aisaas.Quota.{Context, QuotaAudit, precheck, handle_chat_refund}
use ykt_aisaas.Quota.Guard.{precheck_fits}
use ykt_aisaas.Quota.Chat.{refund_outcome, refund-IsCounter}
use ykt_aisaas.Metering.{UsageRecord, Recorder, record_with_ctx}
use ykt_aisaas.Chat.{Links, record_tokens, usage_of, settle, checked, completion}

add_failed : (n : ℤ) (e : ℕ) → n +ℤ pos (e - 0) +ℤ pos 0 ≡ n +ℤ pos (max e 0)
add_failed n e = omega int_laws

add_both : (n : ℤ) (e m : ℕ) → n +ℤ pos e +ℤ pos m ≡ n +ℤ pos (e + m)
add_both n e m = omega int_laws

out_not_in : dim_llm_tokens_out ≢ dim_llm_tokens_in
out_not_in e = ground arith

in-ne-out :
    (t : ℕ) (ym : Text)
    → text_eq (key_quota_used t dim_llm_tokens_out ym) (key_quota_used t dim_llm_tokens_in ym)
      ≡ false
in-ne-out t ym = text_eq_ne _ _ λ e.
    out_not_in
      (key_quota_used-injective t t dim_llm_tokens_out dim_llm_tokens_in ym ym (omega arith)
        (omega arith) e).1

module _ (R : Redis) (ym : Text) (t : ℕ) where
  open R use {Db, read, incr_by, expire}

  abbrev key : Text
  key = key_quota_used (suc t) dim_llm_tokens_in ym

  -- The counter holds `n`.
  record Counts (d : Db) (n : ℤ) : Type 0 where
    is_counter : IsCounter (read d key)
    holds : used_of R d key ≡ n

  Counts-incr_by : (d : Db) (n a : ℤ) → Counts d n → Counts (incr_by key a d) (n +ℤ a)
  Counts-incr_by d n a c = record {
    is_counter = incr_by-IsCounter R key a d c.is_counter;
    holds = used_of-incr_by R key a d c.is_counter ∙ ap (λ (m : ℤ). m +ℤ a) c.holds;
  }

  Counts-incr_by_out :
      (d : Db) (n a : ℤ)
      → Counts d n
      → Counts (incr_by (key_quota_used (suc t) dim_llm_tokens_out ym) a d) n
  unfolding int64_or_zero
  Counts-incr_by_out d n a c = record {
    is_counter = rw (R.read-incr_by, in-ne-out (suc t) ym) c.is_counter;
    holds = rw (R.read-incr_by, in-ne-out (suc t) ym) c.holds;
  }

  Counts-refund :
      (stamp e a : ℕ) (d : Db) (n : ℤ)
      → Counts d n
      → Counts
          (handle_chat_refund R answered answered answered stamp ym
            (some (suc t))
            (pos e)
            (pos a)
            d)
          (n +ℤ pos (e - a))
  unfolding handle_chat_refund
  Counts-refund stamp e a d n c = elim (Bool-cases (leb_ℤ (pos e) (pos a))) [
    | inl settled ↦ rw settled (subst (λ m. Counts d m) (nothing_owed n e a settled) c)
    | inr owed ↦ rw owed (record {
      is_counter =
          refund-IsCounter R ym (suc t) dim_llm_tokens_in stamp (pos e -ℤ pos a) d c.is_counter
            (owed_positive e a owed);
      holds =
          (refund_outcome R ym (suc t) dim_llm_tokens_in stamp (pos e -ℤ pos a) d c.is_counter
            (owed_positive e a owed)).2
          ∙ cc (c.holds, pos-sub e a owed);
    })
  ]

  Counts-record :
      (rec : UsageRecord) (r : Recorder) (d : Db) (n : ℤ)
      → rec.dimension ≡ dim_llm_tokens_in
      → Counts d n
      → Counts
          (record_with_ctx R answered answered ym (some (suc t)) rec (r, d)).1
          (n +ℤ rec.amount)
  unfolding record_with_ctx
  Counts-record rec r d n e c = rw e (Counts-incr_by d n rec.amount c)

  Counts-record_out :
      (rec : UsageRecord) (r : Recorder) (d : Db) (n : ℤ)
      → rec.dimension ≡ dim_llm_tokens_out
      → Counts d n
      → Counts (record_with_ctx R answered answered ym (some (suc t)) rec (r, d)).1 n
  unfolding record_with_ctx
  Counts-record_out rec r d n e c = rw e (Counts-incr_by_out d n rec.amount c)

  -- All round trips answered.
  abbrev up : Links
  up = record {
    check = answered;
    count_in = answered;
    add_in = answered;
    count_out = answered;
    add_out = answered;
    mark = answered;
    refund = answered;
    unmark = answered;
  }

  abbrev pub tokens_of : Option (ℕ × ℕ) → ℕ
  tokens_of none = 0
  tokens_of (some (tokens_in, _)) = tokens_in

  Counts-in :
      (rec : UsageRecord) (i : ℕ) (s : Recorder × Db) (n : ℤ)
      → rec.dimension ≡ dim_llm_tokens_in
      → rec.amount ≡ pos i
      → Counts s.1 n
      → Counts
          (if ltb 0 i then record_with_ctx R answered answered ym (some (suc t)) rec s else s).1
          (n +ℤ pos i)
  Counts-in rec i (r, d) n e a c = elim (Bool-cases (ltb 0 i)) [
    | inl some_in ↦ rw some_in (
        subst
          (λ m.
            Counts (record_with_ctx R answered answered ym (some (suc t)) rec (r, d)).1 (n +ℤ m))
          a (Counts-record rec r d n e c))
    | inr none_in ↦ rw none_in (subst (λ m. Counts d m) (add_none n i none_in) c)
  ]

  Counts-out :
      (rec : UsageRecord) (o : ℕ) (s : Recorder × Db) (n : ℤ)
      → rec.dimension ≡ dim_llm_tokens_out
      → Counts s.1 n
      → Counts
          (if ltb 0 o then record_with_ctx R answered answered ym (some (suc t)) rec s else s).1
          n
  Counts-out rec o (r, d) n e c = elim (Bool-cases (ltb 0 o)) [
    | inl some_out ↦ rw some_out (Counts-record_out rec r d n e c)
    | inr none_out ↦ rw none_out c
  ]

  Counts-tokens :
      (model request : Text) (i o : ℕ) (r : Recorder) (d : Db) (n : ℤ)
      → Counts d n
      → Counts (record_tokens R up ym (some (suc t)) model request i o (r, d)).1 (n +ℤ pos i)
  unfolding record_tokens
  Counts-tokens model request i o r d n c =
      Counts-out (usage_of dim_llm_tokens_out o true model request) o _ (n +ℤ pos i)
        (unfold usage_of in refl)
        (Counts-in (usage_of dim_llm_tokens_in i true model request) i (r, d) n
          (unfold usage_of in refl) (unfold usage_of in refl) c)

  Counts-settle :
      (stamp e : ℕ) (model request : Text) (answer : Option (ℕ × ℕ)) (r : Recorder) (d : Db) (n : ℤ)
      → Counts d n
      → Counts
          (settle R up stamp ym (some (suc t)) model request e answer (r, d)).2
          (n +ℤ pos (max e (tokens_of answer)))
  unfolding settle
  Counts-settle stamp e model request none r d n c =
      let d' =
        handle_chat_refund R answered answered answered stamp ym (some (suc t)) (pos e) (pos 0) d in
      let rec = usage_of dim_llm_tokens_in 0 false model request in
      subst (λ m. Counts (record_with_ctx R answered answered ym (some (suc t)) rec (r, d')).1 m)
        (add_failed n e)
        (Counts-record rec r d' (n +ℤ pos (e - 0)) (unfold usage_of in refl)
          (Counts-refund stamp e 0 d n c))
  Counts-settle stamp e model request (some (i, o)) r d n c =
      let (r', d') = record_tokens R up ym (some (suc t)) model request i o (r, d) in
      subst
        (λ m.
          Counts
            (handle_chat_refund R answered answered answered stamp ym (some (suc t)) (pos e) (pos i)
              d')
            m)
        (add_max n e i)
        (Counts-refund stamp e i d' (n +ℤ pos i) (Counts-tokens model request i o r d n c))

  checked-true :
      (stamp e : ℕ) (model request : Text) (answer : Option (ℕ × ℕ)) (r : Recorder)
      (p : Bool × List QuotaAudit × Db)
      → p.0 ≡ true
      → checked R up stamp ym (some (suc t)) model request e answer r p
        ≡ settle R up stamp ym (some (suc t)) model request e answer (r, p.2)
  unfolding checked
  checked-true stamp e model request answer r (true, a, d) h = refl
  checked-true stamp e model request answer r (false, a, d) h = cc

  -- A completion whose estimate fits its tenant's limit, with every round trip answered, raises the
  -- tenant's counter of input tokens by its estimate and then by the larger of the estimate and the
  -- tokens that the upstream counted (0 where the upstream failed).
  pub completion_counts :
      (sampled : Bool) (stamp e : ℕ) (model request : Text) (limit : ℤ) (answer : Option (ℕ × ℕ))
      (r : Recorder) (d : Db)
      → NoColon ym
      → pos 0 ≤ℤ limit
      → IsCounter (read d key)
      → read d (key_quota_limit (suc t) dim_llm_tokens_in ym) ≡ some (num limit)
      → ltb_ℤ limit (used_of R d key +ℤ pos e) ≡ false
      → let ctx : Context = record { unlimited = false; tenant_id = some (suc t) } in
        used_of R (completion R true sampled up stamp ym ctx model request e answer r d).2 key
        ≡ used_of R d key +ℤ pos (e + max e (tokens_of answer))
  unfolding completion
  completion_counts sampled stamp e model request limit answer r d month limited counts loaded
        fits =
      let ctx : Context = record { unlimited = false; tenant_id = some (suc t) } in
      let ok =
        precheck_fits R sampled ym (suc t) limit (pos e) d month limited counts loaded fits in
      let debited : Db = expire key quota_ttl (incr_by key (pos e) d) in
      let start : Counts debited (used_of R d key +ℤ pos e) = record {
        is_counter = debit-IsCounter R key (pos e) quota_ttl d counts;
        holds = used_of-debit R key (pos e) quota_ttl d counts;
      } in
      rw
        (checked-true stamp e model request answer r
          (precheck R true sampled answered ym ctx (pos e) d) ok.0)
        (rw ok.1 (
          (Counts-settle stamp e model request answer r debited (used_of R d key +ℤ pos e)
            start).holds
          ∙ add_both (used_of R d key) e (max e (tokens_of answer))))
