-- ===== src/Redisx/Settle.antt =====
-- The refund at the end of a session (redisx.go, QuotaSnapshotRefund), from any database in which
-- the session's snapshot stands.
use ykt_aisaas.Base.{
  ℕ, ◌≡◌, true, false, inl, inr, none, ◌∙◌, refl, Text, ℤ, pos, ◌+ℤ◌, ◌-ℤ◌, leb_ℤ, int_laws,
  text_eq_refl, Bool-cases, if◌then◌else◌,
}
use ykt_aisaas.Redis.{Redis, Link, answered, refused, lost}
use ykt_aisaas.Redisx.{key_quota_used, key_session_quota, minus, found, hash_get}
use ykt_aisaas.Redisx.Keys.{key_session_quota-ne-used}
use ykt_aisaas.Redisx.Deduct.{IsCounter, used_of, used_of-incr_by, incr_by-IsCounter}
use ykt_aisaas.Redisx.SessionQuota.{read_initial, refund_rest, quota_snapshot_refund}

one_refund : (used refund : ℤ) → used +ℤ minus refund ≡ used -ℤ refund
one_refund used refund = omega int_laws

module _ (R : Redis) (ym : Text) (tenant_id : ℕ) (dim session_id : Text) where
  open R use {Db, read, incr_by, del}

  abbrev used_key : Text
  used_key = key_quota_used tenant_id dim ym

  abbrev session_key : Text
  session_key = key_session_quota session_id dim

  gone_unchanged :
      (actual : ℤ) (l₀ l₁ l₂ : Link) (d : Db)
      → read d session_key ≡ none
      → (refund_rest R l₁ l₂ ym tenant_id dim session_id actual
          (read_initial R l₀ session_id dim d)
          d).1
        ≡ d
  unfolding refund_rest read_initial
  gone_unchanged actual answered l₁ l₂ d gone = rw (gone, hash_get) refl
  gone_unchanged actual refused l₁ l₂ d gone = refl
  gone_unchanged actual lost l₁ l₂ d gone = refl

  module _ (initial actual : ℤ) (d : Db) (counts : IsCounter (read d used_key))
      (owed : leb_ℤ (initial -ℤ actual) (pos 0) ≡ false) where
    abbrev settled : Db
    settled = del session_key (incr_by used_key (minus (initial -ℤ actual)) d)

    rest-settled :
        refund_rest R answered answered ym tenant_id dim session_id actual (found initial) d
        ≡ (true, settled)
    unfolding refund_rest
    rest-settled = rw owed refl

    settled-used : used_of R settled used_key ≡ used_of R d used_key -ℤ (initial -ℤ actual)
    settled-used =
        rw (R.read-del, key_session_quota-ne-used tenant_id session_id dim dim ym)
          (used_of-incr_by R used_key (minus (initial -ℤ actual)) d counts
            ∙ one_refund (used_of R d used_key) (initial -ℤ actual))

    settled-IsCounter : IsCounter (read settled used_key)
    settled-IsCounter =
        rw (R.read-del, key_session_quota-ne-used tenant_id session_id dim dim ym)
          (incr_by-IsCounter R used_key (minus (initial -ℤ actual)) d counts)

    settled-gone : read settled session_key ≡ none
    settled-gone = rw (R.read-del, text_eq_refl) refl

    -- Once a refund has been paid out, refunds that start after it change nothing, whatever use
    -- they report and however their own commands end.
    pub refund_once :
        (again : ℤ) (l₀ l₁ l₂ : Link)
        → read_initial R answered session_id dim d ≡ found initial
        → let d' =
            (quota_snapshot_refund R answered answered answered ym tenant_id dim session_id actual
              d).1 in
          (used_of R d' used_key ≡ used_of R d used_key -ℤ (initial -ℤ actual))
          × ((quota_snapshot_refund R l₀ l₁ l₂ ym tenant_id dim session_id again d').1 ≡ d')
    unfolding quota_snapshot_refund
    refund_once again l₀ l₁ l₂ h =
        rw (h, rest-settled) (settled-used, gone_unchanged again l₀ l₁ l₂ settled settled-gone)

  -- What a refund takes back: nothing where the session used its whole debit or more, else what it
  -- did not use.
  pub refund_amount :
      (initial actual : ℤ) (d : Db)
      → IsCounter (read d used_key)
      → read_initial R answered session_id dim d ≡ found initial
      → let owed = initial -ℤ actual in
        let (ok, d') =
          quota_snapshot_refund R answered answered answered ym tenant_id dim session_id actual d in
        (ok ≡ true)
        × (used_of R d' used_key
            ≡ (if leb_ℤ owed (pos 0) then used_of R d used_key else used_of R d used_key -ℤ owed))
  unfolding quota_snapshot_refund
  refund_amount initial actual d counts h =
      rw h (elim (Bool-cases (leb_ℤ (initial -ℤ actual) (pos 0))) [
        | inl settled_up ↦ rw settled_up (refl, refl)
        | inr owed ↦ rw owed (refl, settled-used initial actual d counts owed)
      ])
