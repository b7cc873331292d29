-- ===== src/Redisx/Deduct.antt =====
-- What a debit of a quota does (redisx.go, QuotaDeduct): its two outcomes, the limit that no
-- sequence of debits passes, and the rollback that undoes one.
use ykt_aisaas.Base.{
  ℕ, ◌≡◌, inl, inr, Bool, true, false, Option, none, some, arith, Text, ℤ, pos, negsuc, ◌+ℤ◌, ◌-ℤ◌,
  ◌≤ℤ◌, ltb_ℤ, if◌then◌else◌, text_eq, text_eq_refl, Bool-cases,
}
use ykt_aisaas.Redis.{Redis, Value, num, integer}
use ykt_aisaas.Redisx.{int64_or_zero, lua_quota_deduct}

-- A counter's key is missing or holds an integer.
abbrev pub is_counter : Option Value → Bool
is_counter none = true
is_counter (some (num n)) = true
is_counter (some v) = false

abbrev pub IsCounter : Option Value → Type 0
IsCounter v = is_counter v ≡ true

module _ (R : Redis) where
  open R use {Db, read, incr_by, expire}

  -- What a tenant has used of a dimension this month, as the code reads it.
  abbrev pub used_of : Db → Text → ℤ
  used_of d k = int64_or_zero (read d k)

  module _ (k l : Text) (amount limit : ℤ) (ttl : ℕ) (d : Db) (counts : IsCounter (read d k))
      (loaded : read d l ≡ some (num limit)) (limited : pos 0 ≤ℤ limit) where
    -- The script with a limit in force.
    pub script_limited : lua_quota_deduct R k l amount ttl d ≡ (
        if ltb_ℤ limit (used_of d k +ℤ amount)
        then (integer (negsuc 0), d)
        else (integer (limit -ℤ used_of d k -ℤ amount), expire k ttl (incr_by k amount d)))
    unfolding lua_quota_deduct int64_or_zero
    script_limited = ground arith

  -- The script writes no key but the counter that it is given.
  pub read-script_other :
      (k l j : Text) (amount : ℤ) (ttl : ℕ) (d : Db)
      → text_eq k j ≡ false
      → read (lua_quota_deduct R k l amount ttl d).1 j ≡ read d j
  unfolding lua_quota_deduct
  read-script_other k l j amount ttl d other =
      ground (arith, R.read-incr_by d k j amount, R.read-expire (incr_by k amount d) k j ttl)

  -- A counter that is within its limit.
  pub record IsWithin (k l : Text) (limit : ℤ) (d : Db) : Type 0 where
    pub counts : IsCounter (read d k)
    pub loaded : read d l ≡ some (num limit)
    pub within : used_of d k ≤ℤ limit

  debit-IsWithin :
      (k l : Text) (limit amount : ℤ) (ttl : ℕ) (d : Db)
      → text_eq k l ≡ false
      → ltb_ℤ limit (used_of d k +ℤ amount) ≡ false
      → IsWithin k l limit d
      → IsWithin k l limit (expire k ttl (incr_by k amount d))
  unfolding int64_or_zero ◌+ℤ◌
  debit-IsWithin k l limit amount ttl d apart fits w = record {
    counts = rw (R.read-expire, R.read-incr_by, text_eq_refl) (ground (arith, w.counts));
    loaded = rw (R.read-expire, R.read-incr_by, apart) w.loaded;
    within = rw (R.read-expire, R.read-incr_by, text_eq_refl) (ground (arith, w.counts));
  }

  pub script-IsWithin :
      (k l : Text) (limit amount : ℤ) (ttl : ℕ) (d : Db)
      → pos 0 ≤ℤ limit
      → text_eq k l ≡ false
      → IsWithin k l limit d
      → IsWithin k l limit (lua_quota_deduct R k l amount ttl d).1
  script-IsWithin k l limit amount ttl d limited apart w =
      rw (script_limited k l amount limit ttl d w.counts w.loaded limited)
        (elim (Bool-cases (ltb_ℤ limit (used_of d k +ℤ amount))) [
          | inl over ↦ rw over w
          | inr fits ↦ rw fits (debit-IsWithin k l limit amount ttl d apart fits w)
        ])

  -- A debit of another counter leaves this one as it was.
  pub script_other-IsWithin :
      (k l k' l' : Text) (limit amount : ℤ) (ttl : ℕ) (d : Db)
      → text_eq k' k ≡ false
      → text_eq k' l ≡ false
      → IsWithin k l limit d
      → IsWithin k l limit (lua_quota_deduct R k' l' amount ttl d).1
  unfolding int64_or_zero
  script_other-IsWithin k l k' l' limit amount ttl d other other' w = record {
    counts = rw (read-script_other k' l' k amount ttl d other) w.counts;
    loaded = rw (read-script_other k' l' l amount ttl d other') w.loaded;
    within = rw (read-script_other k' l' k amount ttl d other) w.within;
  }

  -- A counter after INCRBY and EXPIRE.
  pub used_of-debit :
      (k : Text) (amount : ℤ) (ttl : ℕ) (d : Db)
      → IsCounter (read d k)
      → used_of (expire k ttl (incr_by k amount d)) k ≡ used_of d k +ℤ amount
  unfolding int64_or_zero ◌+ℤ◌
  used_of-debit k amount ttl d counts =
      rw (R.read-expire, R.read-incr_by, text_eq_refl) (ground (arith, counts))

  pub used_of-incr_by :
      (k : Text) (amount : ℤ) (d : Db)
      → IsCounter (read d k)
      → used_of (incr_by k amount d) k ≡ used_of d k +ℤ amount
  unfolding int64_or_zero ◌+ℤ◌
  used_of-incr_by k amount d counts = rw (R.read-incr_by, text_eq_refl) (ground (arith, counts))

  pub debit-IsCounter :
      (k : Text) (amount : ℤ) (ttl : ℕ) (d : Db)
      → IsCounter (read d k)
      → IsCounter (read (expire k ttl (incr_by k amount d)) k)
  debit-IsCounter k amount ttl d counts =
      rw (R.read-expire, R.read-incr_by, text_eq_refl) (ground (arith, counts))

  pub incr_by-IsCounter :
      (k : Text) (amount : ℤ) (d : Db)
      → IsCounter (read d k)
      → IsCounter (read (incr_by k amount d) k)
  incr_by-IsCounter k amount d counts = rw (R.read-incr_by, text_eq_refl) (ground (arith, counts))
