-- ===== src/Redisx.antt =====
-- internal/platform/redisx/redisx.go: the keys of the store, the two Lua scripts that debit a quota,
-- and the client's methods around them. Keys are code points; a tenant's id is printed by `%d`.
-- `ym` is the month that `time.Now().Format("200601")` gives, and a `Link` says how a round trip
-- ends. The client's own counters stay far below 2^53, where Lua's numbers are exact.
pub mod Keys
pub mod Deduct
pub mod Limits
pub mod SessionQuota
pub mod Refund
pub mod Settle
use ykt_aisaas.Base.{
  ℕ, zero, suc, Bool, true, false, String, ℤ, pos, negsuc, ◌+ℤ◌, ◌-ℤ◌, ltb_ℤ, leb_ℤ, ◌*◌, Option,
  none, some, List, [], ◌∷◌, ◌++◌, Text, codes, decimal, if◌then◌else◌,
}
use ykt_aisaas.Redis.{
  Redis, Value, num, hash, field, Link, answered, refused, lost, Reply, script_error, integer,
  array,
}

-- The dimensions that are metered.
abbrev pub dim_llm_tokens_in : Text
dim_llm_tokens_in = codes "llm_tokens_in"

abbrev pub dim_llm_tokens_out : Text
dim_llm_tokens_out = codes "llm_tokens_out"

abbrev pub dim_tts_chars : Text
dim_tts_chars = codes "tts_chars"

abbrev pub dim_asr_seconds : Text
dim_asr_seconds = codes "asr_seconds"

unfoldable pub key_api_key : ℕ → Text → Text
key_api_key tenant_id key_hash =
    codes "aisaas:tenant:" ++ (decimal tenant_id ++ (codes ":apikey:" ++ key_hash))

unfoldable pub key_api_key_by_hash : Text → Text
key_api_key_by_hash key_hash = codes "aisaas:apikey:idx:" ++ key_hash

unfoldable pub key_quota_used : ℕ → Text → Text → Text
key_quota_used tenant_id dim ym =
    codes "aisaas:tenant:" ++ (decimal tenant_id ++ (codes ":quota:" ++ (dim ++ (codes ":" ++ ym))))

unfoldable pub key_quota_limit : ℕ → Text → Text → Text
key_quota_limit tenant_id dim ym = key_quota_used tenant_id dim ym ++ codes ":limit"

unfoldable pub key_session_quota : Text → Text → Text
key_session_quota session_id dim =
    codes "aisaas:session:" ++ (session_id ++ (codes ":quota:" ++ dim))

-- `tonumber(redis.call('GET', key) or default)`: an error where the key holds no integer.
unfoldable pub number_or : ℤ → Option Value → Option ℤ
number_or default none = some default
number_or default (some (num n)) = some n
number_or default (some v) = none

-- 35 days in seconds
abbrev pub quota_ttl : ℕ
quota_ttl = 35 * 24 * 3600

-- What a debit of the quota returns, and how a method of the client can fail.
pub data Deducted : Type 0 where
  remaining : ℤ → Deducted
  quota_exceeded failed : Deducted

pub data SnapshotDeducted : Type 0 where
  taken : ℤ → ℤ → SnapshotDeducted
  snapshot_exceeded snapshot_failed : SnapshotDeducted

abbrev pub is_answered : Link → Bool
is_answered answered = true
is_answered refused = false
is_answered lost = false

-- -n for a decrement, as DECRBY takes it.
abbrev pub minus : ℤ → ℤ
minus n = pos 0 -ℤ n

abbrev pub ltz : ℤ → Bool
ltz n = ltb_ℤ n (pos 0)

-- HGET key field, read by `.Int64()`: `redis.Nil` where there is no such key or field, and another
-- error where the key holds no hash.
pub data HashGet : Type 0 where
  found : ℤ → HashGet
  nil_reply wrong_type : HashGet

abbrev pub found_or_nil : Option ℤ → HashGet
found_or_nil none = nil_reply
found_or_nil (some n) = found n

unfoldable pub hash_get : String → Option Value → HashGet
hash_get f none = nil_reply
hash_get f (some (hash fs)) = found_or_nil (field f fs)
hash_get f (some v) = wrong_type

-- `.Int64()` of a GET whose error is dropped: 0 where there is nothing to read.
unfoldable pub int64_or_zero : Option Value → ℤ
int64_or_zero (some (num n)) = n
int64_or_zero _ = pos 0

-- The `switch` on the reply of a debit.
unfoldable pub deducted : Option ℤ → Deducted
deducted none = failed
deducted (some (negsuc (suc zero))) = remaining (pos 0)
deducted (some (negsuc zero)) = quota_exceeded
deducted (some res) = remaining res

unfoldable pub snapshot_deducted : Option (ℤ × ℤ) → SnapshotDeducted
snapshot_deducted none = snapshot_failed
snapshot_deducted (some (negsuc (suc zero), s)) = taken (pos 0) (pos 0)
snapshot_deducted (some (negsuc zero, s)) = snapshot_exceeded
snapshot_deducted (some (r, s)) = taken r s

module _ (R : Redis) where
  open R use {Db, read, set, incr_by, del, hset, expire, int64_of, slice_of}

  -- A command whose reply is not read, and a script.
  unfoldable pub command : Link → (Db → Db) → Db → Db
  command answered f d = f d
  command refused f d = d
  command lost f d = f d

  unfoldable pub run : Link → (Db → Reply × Db) → Db → Reply × Db
  run answered f d = f d
  run refused f d = (script_error, d)
  run lost f d = (script_error, (f d).1)

  -- luaQuotaDeduct: the test on the limit, then the one on what is used
  deduct_within : Text → ℤ → ℕ → ℤ → Option ℤ → Db → Reply × Db
  deduct_within used_key amount ttl limit none d = (script_error, d)
  deduct_within used_key amount ttl limit (some used) d =
      if ltb_ℤ limit (used +ℤ amount)
      then (integer (negsuc 0), d)
      else (integer (limit -ℤ used -ℤ amount), expire used_key ttl (incr_by used_key amount d))

  deduct_limited : Text → ℤ → ℕ → Option ℤ → Db → Reply × Db
  unfolding deduct_within number_or
  deduct_limited used_key amount ttl none d = (script_error, d)
  deduct_limited used_key amount ttl (some limit) d =
      if ltz limit
      then (integer (negsuc 1), d)
      else deduct_within used_key amount ttl limit (number_or (pos 0) (read d used_key)) d

  unfoldable pub lua_quota_deduct : Text → Text → ℤ → ℕ → Db → Reply × Db
  unfolding deduct_limited number_or
  lua_quota_deduct used_key limit_key amount ttl d =
      deduct_limited used_key amount ttl (number_or (negsuc 0) (read d limit_key)) d

  unfoldable pub quota_deduct : Link → Text → ℕ → Text → ℤ → Db → Deducted × Db
  unfolding run lua_quota_deduct deducted
  quota_deduct link ym tenant_id dim amount d =
      let used_key = key_quota_used tenant_id dim ym in
      let limit_key = key_quota_limit tenant_id dim ym in
      let (res, d') = run link (lua_quota_deduct used_key limit_key amount quota_ttl) d in
      (deducted (int64_of res), d')

  unfoldable pub quota_rollback : Link → Text → ℕ → Text → ℤ → Db → Db
  unfolding command
  quota_rollback link ym tenant_id dim amount d =
      command link (incr_by (key_quota_used tenant_id dim ym) (minus amount)) d

  unfoldable pub quota_refund : Link → Text → ℕ → Text → ℤ → Db → Db
  unfolding quota_rollback
  quota_refund link ym tenant_id dim amount d = quota_rollback link ym tenant_id dim amount d

  -- The result says whether the error is nil.
  unfoldable pub quota_set_limit : Link → Text → ℕ → Text → ℤ → Db → Bool × Db
  unfolding command
  quota_set_limit link ym tenant_id dim limit d =
      (is_answered link, command link (set (key_quota_limit tenant_id dim ym) (num limit)) d)

  -- (limit, used); a read that fails gives 0
  unfoldable pub quota_remaining : Link → Link → Text → ℕ → Text → Db → ℤ × ℤ
  unfolding int64_or_zero
  quota_remaining limit_link used_link ym tenant_id dim d = (
    if is_answered limit_link
        then int64_or_zero (read d (key_quota_limit tenant_id dim ym))
        else pos 0,
    if is_answered used_link
        then int64_or_zero (read d (key_quota_used tenant_id dim ym))
        else pos 0,
  )
