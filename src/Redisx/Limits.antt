-- ===== src/Redisx/Limits.antt =====
-- QuotaDeduct of redisx.go over any sequence of calls, by any tenants, and its two outcomes.
use ykt_aisaas.Base.{
  ℕ, ◌≡◌, false, inl, inr, some, List, [], ◌∷◌, arith, Text, NoColon, All, ℤ, pos, negsuc, ◌+ℤ◌,
  ◌-ℤ◌, ◌≤ℤ◌, ltb_ℤ, int_laws, leℤ_of_not_ltb, text_eq, text_eq_iff, ap, ◌∙◌, Bool-cases,
  if◌then◌else◌, refl,
}
use ykt_aisaas.Redis.{Redis, num, Link, answered, refused, lost}
use ykt_aisaas.Redisx.{
  remaining, quota_exceeded, key_quota_used, key_quota_limit, deducted, run, quota_ttl,
  lua_quota_deduct, quota_deduct, quota_rollback, minus,
}
use ykt_aisaas.Redisx.Keys.{key_quota_used-injective, key_quota_used-ne-limit}
use ykt_aisaas.Redisx.Deduct.{
  IsCounter, used_of, IsWithin, script_limited, script-IsWithin, script_other-IsWithin,
  used_of-debit, used_of-incr_by, debit-IsCounter,
}

-- One call of QuotaDeduct.
pub record Call : Type 0 where
  pub tenant_id : ℕ
  pub dim : Text
  pub amount : ℤ
  pub link : Link

deducted_nonneg : (r : ℤ) → pos 0 ≤ℤ r → deducted (some r) ≡ remaining r
unfolding deducted
deducted_nonneg (pos n) h = ground arith
deducted_nonneg (negsuc n) h = absurd (omega arith)

pub room_left :
    (limit used amount : ℤ)
    → ltb_ℤ limit (used +ℤ amount) ≡ false
    → pos 0 ≤ℤ limit -ℤ used -ℤ amount
room_left limit used amount fits = omega (int_laws, leℤ_of_not_ltb limit (used +ℤ amount) fits)

undo : (used amount : ℤ) → used +ℤ amount +ℤ minus amount ≡ used
undo used amount = omega int_laws

module _ (R : Redis) where
  open R use {Db, read, incr_by, expire}

  -- The debits that the clients make in one month, in the order in which the server runs them.
  pub debits : Text → List Call → Db → Db
  debits ym [] d = d
  debits ym (c ∷ cs) d = debits ym cs (quota_deduct R c.link ym c.tenant_id c.dim c.amount d).1

  module _ (ym : Text) (tenant_id : ℕ) (dim : Text) (limit : ℤ) (month : NoColon ym)
      (plain : NoColon dim) (limited : pos 0 ≤ℤ limit) where
    abbrev used_key : Text
    used_key = key_quota_used tenant_id dim ym

    abbrev limit_key : Text
    limit_key = key_quota_limit tenant_id dim ym

    script_call-IsWithin :
        (t : ℕ) (e : Text) (amount : ℤ) (d : Db)
        → NoColon e
        → IsWithin R used_key limit_key limit d
        → IsWithin R used_key limit_key limit
            (lua_quota_deduct R
              (key_quota_used t e ym)
              (key_quota_limit t e ym)
              amount
              quota_ttl
              d).1
    script_call-IsWithin t e amount d plain' w =
        elim (Bool-cases (text_eq (key_quota_used t e ym) used_key)) [
          | inl same ↦
              let (t_eq, e_eq, _) =
                key_quota_used-injective t tenant_id e dim ym ym plain' plain
                  ((text_eq_iff _ _).0 same) in
              rw (t_eq, e_eq)
                (script-IsWithin R used_key limit_key limit amount quota_ttl d limited
                  (key_quota_used-ne-limit tenant_id tenant_id dim dim ym ym plain plain month) w)
          | inr other ↦
              script_other-IsWithin R used_key limit_key (key_quota_used t e ym)
                (key_quota_limit t e ym) limit amount quota_ttl d other
                (key_quota_used-ne-limit t tenant_id e dim ym ym plain' plain month) w
        ]

    call-IsWithin :
        (c : Call) (d : Db)
        → NoColon c.dim
        → IsWithin R used_key limit_key limit d
        → IsWithin R used_key limit_key limit
            (quota_deduct R c.link ym c.tenant_id c.dim c.amount d).1
    call-IsWithin c d plain' w = link_cases c.link
      where
        link_cases :
            (link : Link)
            → IsWithin R used_key limit_key limit
                (quota_deduct R link ym c.tenant_id c.dim c.amount d).1
        link_cases answered =
            unfold quota_deduct run in script_call-IsWithin c.tenant_id c.dim c.amount d plain' w
        link_cases lost =
            unfold quota_deduct run in script_call-IsWithin c.tenant_id c.dim c.amount d plain' w
        link_cases refused = unfold quota_deduct run in w

    -- No sequence of debits passes a limit that is in force: if a tenant's counter of a dimension
    -- starts within its limit, it ends within it, whatever tenants debit whatever dimensions by
    -- whatever amounts in between, and however their round trips end.
    pub debits-IsWithin :
        (calls : List Call) (d : Db)
        → All (λ (c : Call). NoColon c.dim) calls
        → IsWithin R used_key limit_key limit d
        → IsWithin R used_key limit_key limit (debits ym calls d)
    unfolding debits
    debits-IsWithin [] d plain_dims w = w
    debits-IsWithin (c ∷ cs) d plain_dims w =
        debits-IsWithin cs (quota_deduct R c.link ym c.tenant_id c.dim c.amount d).1 plain_dims.1
          (call-IsWithin c d plain_dims.0 w)

    -- With a limit in force an answered debit is refused exactly when it would pass the limit, and
    -- then counts nothing; any other is counted whole and returns what is left of the limit.
    pub quota_deduct_outcome :
        (amount : ℤ) (d : Db)
        → IsCounter (read d used_key)
        → read d limit_key ≡ some (num limit)
        → let used = used_of R d used_key in
          let over = ltb_ℤ limit (used +ℤ amount) in
          let (res, d') = quota_deduct R answered ym tenant_id dim amount d in
          (res ≡ (if over then quota_exceeded else remaining (limit -ℤ used -ℤ amount)))
          × (used_of R d' used_key ≡ (if over then used else used +ℤ amount))
    unfolding quota_deduct run
    quota_deduct_outcome amount d counts loaded =
        rw (script_limited R used_key limit_key amount limit quota_ttl d counts loaded limited)
          (elim (Bool-cases (ltb_ℤ limit (used_of R d used_key +ℤ amount))) [
            | inl over ↦ rw (over, R.int64_of-integer) (unfold deducted in (refl, refl))
            | inr fits ↦
                rw (fits, R.int64_of-integer)
                  (
                    deducted_nonneg (limit -ℤ used_of R d used_key -ℤ amount)
                        (room_left limit (used_of R d used_key) amount fits),
                    used_of-debit R used_key amount quota_ttl d counts,
                  )
          ])

    -- A debit that was counted and then rolled back leaves the counter where it was.
    pub quota_rollback-deduct :
        (amount : ℤ) (d : Db)
        → IsCounter (read d used_key)
        → read d limit_key ≡ some (num limit)
        → ltb_ℤ limit (used_of R d used_key +ℤ amount) ≡ false
        → let d' = (quota_deduct R answered ym tenant_id dim amount d).1 in
          used_of R (quota_rollback R answered ym tenant_id dim amount d') used_key
          ≡ used_of R d used_key
    unfolding quota_deduct run quota_rollback
    quota_rollback-deduct amount d counts loaded fits =
        rw
          (script_limited R used_key limit_key amount limit quota_ttl d counts loaded limited, fits)
          (let d' : Db = expire used_key quota_ttl (incr_by used_key amount d) in
            used_of-incr_by R used_key (minus amount) d'
              (debit-IsCounter R used_key amount quota_ttl d counts)
            ∙ (ap (λ (n : ℤ). n +ℤ minus amount)
                  (used_of-debit R used_key amount quota_ttl d counts)
                ∙ undo (used_of R d used_key) amount))

    -- An answered debit that fits, as the database sees it.
    pub quota_deduct_fits :
        (amount : ℤ) (d : Db)
        → IsCounter (read d used_key)
        → read d limit_key ≡ some (num limit)
        → ltb_ℤ limit (used_of R d used_key +ℤ amount) ≡ false
        → (quota_deduct R answered ym tenant_id dim amount d).1
          ≡ expire used_key quota_ttl (incr_by used_key amount d)
    unfolding quota_deduct run
    quota_deduct_fits amount d counts loaded fits =
        rw
          (script_limited R used_key limit_key amount limit quota_ttl d counts loaded limited, fits)
          refl
