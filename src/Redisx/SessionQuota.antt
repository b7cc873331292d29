-- ===== src/Redisx/SessionQuota.antt =====
-- The quota of a session (redisx.go): the debit that records what was taken beside the session, and
-- the refund at its end. The refund is three commands, each a round trip of its own.
use ykt_aisaas.Base.{
  ℕ, Bool, true, false, ℤ, pos, negsuc, ◌-ℤ◌, leb_ℤ, Option, none, some, Text, if◌then◌else◌,
}
use ykt_aisaas.Redis.{Redis, Link, Reply, script_error, integer}
use ykt_aisaas.Redisx.{
  key_quota_used, key_quota_limit, key_session_quota, number_or, ltz, minus, quota_ttl,
  SnapshotDeducted, snapshot_deducted, HashGet, found, nil_reply, wrong_type, hash_get, is_answered,
  command, run,
}

module _ (R : Redis) where
  open R use {Db, read, incr_by, del, slice_of}

  -- luaQuotaSnapshotDeduct. The script never declares `amount`: the first time that it names it, in
  -- `used + amount`, which is where a limit is in force, it ends with an error, and so it does where
  -- the limit or the counter is no number.
  unfoldable pub snapshot_limited : Option ℤ → Reply
  snapshot_limited none = script_error
  snapshot_limited (some limit) = if ltz limit then integer (negsuc 1) else script_error

  unfoldable pub lua_quota_snapshot_deduct : Text → Text → Text → ℤ → ℕ → Db → Reply × Db
  unfolding snapshot_limited number_or
  lua_quota_snapshot_deduct used_key limit_key session_key amount ttl d =
      (snapshot_limited (number_or (negsuc 0) (read d limit_key)), d)

  unfoldable pub quota_snapshot_deduct :
      Link → Text → ℕ → Text → Text → ℤ → Db → SnapshotDeducted × Db
  unfolding run lua_quota_snapshot_deduct snapshot_deducted
  quota_snapshot_deduct link ym tenant_id dim session_id amount d =
      let used_key = key_quota_used tenant_id dim ym in
      let limit_key = key_quota_limit tenant_id dim ym in
      let session_key = key_session_quota session_id dim in
      let (res, d') =
        run R link (lua_quota_snapshot_deduct used_key limit_key session_key amount quota_ttl) d in
      (snapshot_deducted (slice_of res), d')

  -- HGET of the field that the debit wrote; a round trip that is not answered is an error.
  unfoldable pub read_initial : Link → Text → Text → Db → HashGet
  unfolding hash_get
  read_initial link session_id dim d =
      if is_answered link
      then hash_get "initial" (read d (key_session_quota session_id dim))
      else wrong_type

  -- What follows the HGET: the result says whether the error is nil.
  unfoldable pub refund_rest : Link → Link → Text → ℕ → Text → Text → ℤ → HashGet → Db → Bool × Db
  unfolding command
  refund_rest l₁ l₂ ym tenant_id dim session_id actual_used nil_reply d = (true, d)
  refund_rest l₁ l₂ ym tenant_id dim session_id actual_used wrong_type d = (false, d)
  refund_rest l₁ l₂ ym tenant_id dim session_id actual_used (found initial) d =
      let refund = initial -ℤ actual_used in
      if leb_ℤ refund (pos 0) then (true, d) else (
        true,
        command R l₂ (del (key_session_quota session_id dim))
            (command R l₁ (incr_by (key_quota_used tenant_id dim ym) (minus refund)) d),
      )

  -- QuotaSnapshotRefund, with the links of its HGET, DECRBY and DEL.
  unfoldable pub quota_snapshot_refund :
      Link → Link → Link → Text → ℕ → Text → Text → ℤ → Db → Bool × Db
  unfolding read_initial refund_rest
  quota_snapshot_refund l₀ l₁ l₂ ym tenant_id dim session_id actual_used d =
      refund_rest l₁ l₂ ym tenant_id dim session_id actual_used (read_initial l₀ session_id dim d) d
