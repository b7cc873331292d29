-- ===== src/Billing/Limits.antt =====
-- What QuotaLoader.LoadAll leaves in Redis.
use ykt_aisaas.Base.{
  ℕ, ◌≡◌, refl, sym, ap, ◌∙◌, true, false, ◌&&◌, inl, inr, List, [], ◌∷◌, arith, length, Text,
  Option, some, NoColon, text_eq, text_eq_iff, text_eq_ne, ◌==◌, if◌then◌else◌, Bool-cases, All,
}
use ykt_aisaas.Redis.{Redis, Link, answered, refused, lost, Value, num}
use ykt_aisaas.Redisx.{key_quota_used, key_quota_limit, quota_set_limit, command, is_answered}
use ykt_aisaas.Redisx.Keys.{key_quota_used-ne-limit, key_quota_limit-text_eq}
use ykt_aisaas.Billing.{QuotaRow, load_rows, load_all}

-- The dimension of a row has no colon.
abbrev pub IsPlain : Link × QuotaRow → Type 0
IsPlain (link, r) = NoColon r.dimension

-- The limit of the last row of a tenant and a dimension, or what there was before.
unfoldable pub limit_from : Option Value → ℕ → Text → List (Link × QuotaRow) → Option Value
limit_from before t dim [] = before
limit_from before t dim ((link, r) ∷ rows) =
    limit_from
      (if r.tenant_id == t && text_eq r.dimension dim then some (num r.limit_value) else before) t
      dim rows

abbrev pub IsAnswered : Link × QuotaRow → Type 0
IsAnswered (link, r) = link ≡ answered

text_eq_sym : (s t : Text) → text_eq s t ≡ false → text_eq t s ≡ false
text_eq_sym s t h = text_eq_ne t s λ e. ground (arith, text_eq_iff s t, sym e)

module _ (R : Redis) where
  open R use {Db, read, set, read-set}

  set_limit_used :
      (link : Link) (t : ℕ) (dim ym : Text) (r : QuotaRow) (d : Db)
      → NoColon dim
      → NoColon ym
      → NoColon r.dimension
      → read
          (quota_set_limit R link ym r.tenant_id r.dimension r.limit_value d).1
          (key_quota_used t dim ym)
        ≡ read d (key_quota_used t dim ym)
  unfolding quota_set_limit command
  set_limit_used link t dim ym r d h k h' =
      elim link
        as (λ l.
          read (quota_set_limit R l ym r.tenant_id r.dimension r.limit_value d).1
            (key_quota_used t dim ym)
          ≡ read d (key_quota_used t dim ym)) [ answered ↦ same | refused ↦ refl | lost ↦ same ]
    where
      limit-ne-used :
          text_eq (key_quota_limit r.tenant_id r.dimension ym) (key_quota_used t dim ym) ≡ false
      limit-ne-used =
          text_eq_sym _ _ (key_quota_used-ne-limit t r.tenant_id dim r.dimension ym ym h h' k)

      same :
          read
            (set (key_quota_limit r.tenant_id r.dimension ym) (num r.limit_value) d)
            (key_quota_used t dim ym)
          ≡ read d (key_quota_used t dim ym)
      same =
          rw
            (
              read-set d (key_quota_limit r.tenant_id r.dimension ym) (key_quota_used t dim ym)
                  (num r.limit_value),
              limit-ne-used,
            )
            refl

  set_limit_read :
      (t : ℕ) (dim ym : Text) (r : QuotaRow) (d : Db)
      → NoColon dim
      → NoColon r.dimension
      → read
          (quota_set_limit R answered ym r.tenant_id r.dimension r.limit_value d).1
          (key_quota_limit t dim ym)
        ≡ (if r.tenant_id == t && text_eq r.dimension dim
            then some (num r.limit_value)
            else read d (key_quota_limit t dim ym))
  unfolding quota_set_limit command
  set_limit_read t dim ym r d h h' =
      rw
        (
          read-set d (key_quota_limit r.tenant_id r.dimension ym) (key_quota_limit t dim ym)
              (num r.limit_value),
          key_quota_limit-text_eq r.tenant_id t r.dimension dim ym h' h,
        )
        refl

  -- Loading limits leaves every counter of the month as it is, whichever command fails.
  load_rows-used :
      (ym : Text) (n : ℕ) (rows : List (Link × QuotaRow)) (t : ℕ) (dim : Text) (d : Db)
      → NoColon dim
      → NoColon ym
      → All IsPlain rows
      → read (load_rows R ym n rows d).1 (key_quota_used t dim ym)
        ≡ read d (key_quota_used t dim ym)
  unfolding load_rows
  load_rows-used ym n [] t dim d h k plain = refl
  load_rows-used ym n ((link, r) ∷ rows) t dim d h k plain = elim (Bool-cases (is_answered link)) [
    | inl set ↦ rw set (
        load_rows-used ym n rows t dim _ h k plain.1 ∙ set_limit_used link t dim ym r d h k plain.0)
    | inr failed ↦ rw failed (set_limit_used link t dim ym r d h k plain.0)
  ]

  load_rows_limits :
      (ym : Text) (n : ℕ) (rows : List (Link × QuotaRow)) (t : ℕ) (dim : Text) (d : Db)
      → NoColon dim
      → All IsPlain rows
      → All IsAnswered rows
      → ((load_rows R ym n rows d).0 ≡ (n, true))
        × (read (load_rows R ym n rows d).1 (key_quota_limit t dim ym)
            ≡ limit_from (read d (key_quota_limit t dim ym)) t dim rows)
  unfolding load_rows limit_from
  load_rows_limits ym n [] t dim d h plain ok = (refl, refl)
  load_rows_limits ym n ((link, r) ∷ rows) t dim d h plain ok =
      let (counted, limits) =
        load_rows_limits ym n rows t dim
          (quota_set_limit R answered ym r.tenant_id r.dimension r.limit_value d).1 h plain.1
          ok.1 in
      rw ok.0 (
        counted,
        limits ∙ ap (λ v. limit_from v t dim rows) (set_limit_read t dim ym r d h plain.0),
      )

  -- Loading limits leaves every counter of the month as it is, also where a command fails. The
  -- dimensions and the month have no colon.
  pub load_all-used :
      (ym : Text) (rows : List (Link × QuotaRow)) (t : ℕ) (dim : Text) (d : Db)
      → NoColon dim
      → NoColon ym
      → All IsPlain rows
      → read (load_all R ym rows d).1 (key_quota_used t dim ym) ≡ read d (key_quota_used t dim ym)
  unfolding load_all
  load_all-used ym rows t dim d h k plain = load_rows-used ym (length rows) rows t dim d h k plain

  -- Where Redis answers every command, LoadAll counts all rows without an error, and the limit key
  -- of each tenant and dimension holds what their last row says, or what it held if they have none.
  -- The dimensions have no colon.
  pub load_all_limits :
      (ym : Text) (rows : List (Link × QuotaRow)) (t : ℕ) (dim : Text) (d : Db)
      → NoColon dim
      → All IsPlain rows
      → All IsAnswered rows
      → ((load_all R ym rows d).0 ≡ (length rows, true))
        × (read (load_all R ym rows d).1 (key_quota_limit t dim ym)
            ≡ limit_from (read d (key_quota_limit t dim ym)) t dim rows)
  unfolding load_all
  load_all_limits ym rows t dim d h plain ok =
      load_rows_limits ym (length rows) rows t dim d h plain ok
