-- ===== src/Auth/Logins.antt =====
-- internal/platform/auth/ratelimit.go: the limit on failed logins by address and by user name. The
-- expiry of the counters, which ends the cooldown, is the server's. `max_fail` is what the caller
-- gives, with 5 in place of what is not positive.
use ykt_aisaas.Base.{
  ℕ, zero, suc, ◌+◌, ◌≡◌, refl, ap, Bool, true, false, not, inl, inr, Bool-cases, List, [], ◌∷◌,
  ◌++◌, arith, Text, codes, ℤ, pos, ◌+ℤ◌, leb_ℤ, int_laws, text_eq, text_eq_refl, text_eq_iff,
  length, subst, ◌≤ℤ◌, if◌then◌else◌,
}
use ykt_aisaas.Redis.{Redis, Link, answered}
use ykt_aisaas.Redisx.{command, is_answered, int64_or_zero}
use ykt_aisaas.Redisx.Deduct.{IsCounter, used_of, used_of-debit, debit-IsCounter}

unfoldable pub fail_key : Text → Text
fail_key who = codes "aisaas:portal:login:fail:" ++ who

abbrev pub max_or_5 : ℤ → ℤ
max_or_5 max_fail = if leb_ℤ max_fail (pos 0) then pos 5 else max_fail

-- 15 minutes in seconds
abbrev pub default_cooldown : ℕ
default_cooldown = 900

abbrev pub cooldown_or_default : ℕ → ℕ
cooldown_or_default zero = default_cooldown
cooldown_or_default (suc n) = suc n

module _ (R : Redis) where
  open R use {Db, read, incr_by, del, expire}

  -- A GET read by `.Int64()` whose error is dropped.
  count_of : Link → Text → Db → ℤ
  unfolding int64_or_zero
  count_of link key d = if is_answered link then int64_or_zero (read d key) else pos 0

  -- LoginRateLimit: true lets the login try
  unfoldable pub login_rate_limit : Link → Link → Text → Text → ℤ → Db → Bool
  unfolding count_of fail_key
  login_rate_limit l₀ l₁ ip username max_fail d =
      if leb_ℤ (max_or_5 max_fail) (count_of l₀ (fail_key ip) d)
      then false
      else not (leb_ℤ (max_or_5 max_fail) (count_of l₁ (fail_key username) d))

  -- LoginFailRecord: one pipeline of four commands
  unfoldable pub login_fail_record : Link → Text → Text → ℕ → Db → Db
  unfolding command fail_key
  login_fail_record link ip username cooldown d =
      let ttl = cooldown_or_default cooldown in
      let ip_key = fail_key ip in
      let user_key = fail_key username in
      command R link
        (λ (d : Db).
          expire user_key ttl
            (incr_by user_key (pos 1) (expire ip_key ttl (incr_by ip_key (pos 1) d))))
        d

  -- LoginFailReset
  unfoldable pub login_fail_reset : Link → Link → Text → Text → Db → Db
  unfolding command fail_key
  login_fail_reset l₀ l₁ ip username d =
      command R l₁ (del (fail_key username)) (command R l₀ (del (fail_key ip)) d)

  -- Failures of one user name from any addresses.
  unfoldable pub failures : Text → List Text → Db → Db
  unfolding login_fail_record
  failures username [] d = d
  failures username (ip ∷ ips) d =
      failures username ips (login_fail_record answered ip username 0 d)

  -- A counter of at least `n`.
  pub record AtLeast (n : ℕ) (k : Text) (d : Db) : Type 0 where
    pub counts : IsCounter (read d k)
    pub enough : pos n ≤ℤ used_of R d k

  bump_same :
      (n ttl : ℕ) (k : Text) (d : Db)
      → AtLeast n k d
      → AtLeast (suc n) k (expire k ttl (incr_by k (pos 1) d))
  bump_same n ttl k d a = record {
    counts = debit-IsCounter R k (pos 1) ttl d a.counts;
    enough = rw (used_of-debit R k (pos 1) ttl d a.counts) (one_more (used_of R d k) n a.enough);
  }
    where
      one_more : (u : ℤ) (n : ℕ) → pos n ≤ℤ u → pos (suc n) ≤ℤ u +ℤ pos 1
      one_more u n h = omega int_laws

  bump_other :
      (n ttl : ℕ) (j k : Text) (d : Db)
      → AtLeast n k d
      → text_eq j k ≡ false
      → AtLeast n k (expire j ttl (incr_by j (pos 1) d))
  unfolding int64_or_zero
  bump_other n ttl j k d a other = record {
    counts = rw (R.read-expire, R.read-incr_by, other) a.counts;
    enough = rw (R.read-expire, R.read-incr_by, other) a.enough;
  }

  bump_any :
      (n ttl : ℕ) (j k : Text) (d : Db)
      → AtLeast n k d
      → AtLeast n k (expire j ttl (incr_by j (pos 1) d))
  bump_any n ttl j k d a = elim (Bool-cases (text_eq j k)) [
    | inl same ↦
        let grown : AtLeast (suc n) k (expire k ttl (incr_by k (pos 1) d)) =
          bump_same n ttl k d a in
        rw ((text_eq_iff j k).0 same)
          (record { counts = grown.counts; enough = less (used_of R _ k) n grown.enough })
    | inr other ↦ bump_other n ttl j k d a other
  ]
    where
      less : (u : ℤ) (n : ℕ) → pos (suc n) ≤ℤ u → pos n ≤ℤ u
      less u n h = omega arith

  failures-AtLeast :
      (username : Text) (ips : List Text) (n : ℕ) (d : Db)
      → AtLeast n (fail_key username) d
      → AtLeast (length ips + n) (fail_key username) (failures username ips d)
  unfolding failures login_fail_record command
  failures-AtLeast username [] n d a = subst (λ m. AtLeast m (fail_key username) d) (omega arith) a
  failures-AtLeast username (ip ∷ ips) n d a =
      subst (λ m. AtLeast m (fail_key username) (failures username (ip ∷ ips) d)) (omega arith)
        (failures-AtLeast username ips (suc n) _ (
          bump_same n default_cooldown (fail_key username) _
            (bump_any n default_cooldown (fail_key ip) (fail_key username) d a)))

  shut :
      (limit u v : ℤ) (m : ℕ)
      → leb_ℤ limit (pos m) ≡ true
      → pos m ≤ℤ v
      → (if leb_ℤ limit u then false else not (leb_ℤ limit v)) ≡ false
  shut limit u v m reached enough = elim (Bool-cases (leb_ℤ limit u)) [
    | inl here ↦ rw here refl
    | inr not_here ↦ rw not_here (ap not (through limit v m reached enough))
  ]
    where
      through :
          (limit v : ℤ) (m : ℕ) → leb_ℤ limit (pos m) ≡ true → pos m ≤ℤ v → leb_ℤ limit v ≡ true
      through limit v m reached enough = ground arith

  positive : (max_fail : ℤ) → leb_ℤ (max_or_5 max_fail) (pos 0) ≡ false
  positive max_fail = ground arith

  -- As many failed logins of a user name as the limit allows, from whatever addresses, shut that
  -- name out from every address, while its counter has not expired and Redis answers.
  pub failures_lem :
      (username : Text) (ips : List Text) (ip : Text) (max_fail : ℤ) (n : ℕ) (d : Db)
      → AtLeast n (fail_key username) d
      → leb_ℤ (max_or_5 max_fail) (pos (length ips + n)) ≡ true
      → login_rate_limit answered answered ip username max_fail (failures username ips d) ≡ false
  unfolding login_rate_limit count_of
  failures_lem username ips ip max_fail n d a reached =
      shut (max_or_5 max_fail) (used_of R (failures username ips d) (fail_key ip))
        (used_of R (failures username ips d) (fail_key username)) (length ips + n) reached
        (failures-AtLeast username ips n d a).enough

  reset_ip :
      (ip username : Text) (d : Db)
      → used_of R (login_fail_reset answered answered ip username d) (fail_key ip) ≡ pos 0
  unfolding login_fail_reset command int64_or_zero
  reset_ip ip username d = rw (R.read-del, R.read-del, text_eq_refl) (ground arith)

  reset_username :
      (ip username : Text) (d : Db)
      → used_of R (login_fail_reset answered answered ip username d) (fail_key username) ≡ pos 0
  unfolding login_fail_reset command int64_or_zero
  reset_username ip username d = rw (R.read-del, text_eq_refl) refl

  -- A reset lets both the address and the user name try again.
  pub login_fail_reset_lem :
      (ip username : Text) (max_fail : ℤ) (d : Db)
      → login_rate_limit answered answered ip username max_fail
          (login_fail_reset answered answered ip username d)
        ≡ true
  unfolding login_rate_limit count_of
  login_fail_reset_lem ip username max_fail d =
      rw
        (reset_ip ip username d, positive max_fail, reset_username ip username d, positive max_fail)
        refl
