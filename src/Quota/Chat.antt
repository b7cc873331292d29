-- ===== src/Quota/Chat.antt =====
-- What a refund and a whole chat do to a tenant's counter (quota.go Refund, chat.go Completions).
use ykt_aisaas.Base.{
  ℕ, ◌≡◌, true, false, none, some, refl, ◌∙◌, ap, Text, ℤ, pos, ◌+ℤ◌, leb_ℤ, text_eq, text_eq_refl,
  codes,
}
use ykt_aisaas.Redis.{Redis, Link, answered, refused, str}
use ykt_aisaas.Redisx.{key_quota_used, int64_or_zero}
use ykt_aisaas.Redisx.Deduct.{IsCounter, used_of, used_of-incr_by, incr_by-IsCounter}
use ykt_aisaas.Quota.{pending_key, refund}

pending-ne-used :
    (t t' : ℕ) (dim dim' ym : Text) (stamp : ℕ)
    → text_eq (pending_key t dim stamp) (key_quota_used t' dim' ym) ≡ false
unfolding pending_key key_quota_used text_eq
pending-ne-used t t' dim dim' ym stamp = refl

used-ne-pending :
    (t t' : ℕ) (dim dim' ym : Text) (stamp : ℕ)
    → text_eq (key_quota_used t' dim' ym) (pending_key t dim stamp) ≡ false
unfolding pending_key key_quota_used text_eq
used-ne-pending t t' dim dim' ym stamp = refl

module _ (R : Redis) (ym : Text) (tid : ℕ) (dim : Text) (stamp : ℕ) where
  open R use {Db, read, set, incr_by, del}

  abbrev used_key : Text
  used_key = key_quota_used tid dim ym

  abbrev mark : Text
  mark = pending_key tid dim stamp

  module _ (amount : ℤ) (d : Db) (counts : IsCounter (read d used_key))
      (positive : leb_ℤ amount (pos 0) ≡ false) where
    marked-counts : IsCounter (read (set mark (str (codes "1")) d) used_key)
    marked-counts = rw (R.read-set, pending-ne-used tid tid dim dim ym stamp) counts

    marked-used : used_of R (set mark (str (codes "1")) d) used_key ≡ used_of R d used_key
    unfolding int64_or_zero
    marked-used = rw (R.read-set, pending-ne-used tid tid dim dim ym stamp) refl

    -- A refund of a positive amount, its commands answered, reports success, leaves no mark, and
    -- raises the counter of what is used by the amount.
    pub refund_outcome :
        let (ok, d') = refund R answered answered answered stamp ym tid dim amount d in
        (ok ≡ true)
        × (R.read d' mark ≡ none)
        × (used_of R d' used_key ≡ used_of R d used_key +ℤ amount)
    unfolding refund
    refund_outcome = rw positive (
      refl,
      rw (R.read-del, text_eq_refl) refl,
      rw (R.read-del, pending-ne-used tid tid dim dim ym stamp)
          (used_of-incr_by R used_key amount (set mark (str (codes "1")) d) marked-counts
            ∙ ap (λ (n : ℤ). n +ℤ amount) marked-used),
    )

    -- A refund whose INCRBY is refused reports an error, counts nothing, and leaves its mark.
    pub refund_interrupted :
        (l : Link)
        → let (ok, d') = refund R answered refused l stamp ym tid dim amount d in
          (ok ≡ false)
          × (R.read d' mark ≡ some (str (codes "1")))
          × (used_of R d' used_key ≡ used_of R d used_key)
    unfolding refund
    refund_interrupted l = rw positive (refl, rw (R.read-set, text_eq_refl) refl, marked-used)

    pub refund-IsCounter :
        IsCounter (read (refund R answered answered answered stamp ym tid dim amount d).1 used_key)
    unfolding refund
    refund-IsCounter = rw positive (
        rw (R.read-del, pending-ne-used tid tid dim dim ym stamp)
          (incr_by-IsCounter R used_key amount (set mark (str (codes "1")) d) marked-counts))
