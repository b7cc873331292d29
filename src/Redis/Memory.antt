-- ===== src/Redis/Memory.antt =====
-- A database that meets the interface: a function from keys to what they hold. Keys do not expire.
use ykt_aisaas.Base.{ℤ, Option, none, some, Text, text_eq, if◌then◌else◌, refl}
use ykt_aisaas.Redis.{Value, Redis, Reply, integer, array, incremented, with_fields}

abbrev pub Table : Type 0
Table = Text → Option Value

abbrev pub write : Text → Option Value → Table → Table
write k v d j = if text_eq k j then v else d j

abbrev pub empty_table : Table
empty_table k = none

abbrev pub int64_reply : Reply → Option ℤ
int64_reply (integer n) = some n
int64_reply _ = none

abbrev pub slice_reply : Reply → Option (ℤ × ℤ)
slice_reply (array m n) = some (m, n)
slice_reply _ = none

abbrev pub memory : Redis
memory = record {
  Db = Table;
  read = λ d k. d k;
  set = λ k v d. write k (some v) d;
  incr_by = λ k a d. write k (incremented a (d k)) d;
  del = λ k d. write k none d;
  hset = λ k fs d. write k (with_fields fs (d k)) d;
  expire = λ k ttl d. d;
  read-set = λ d k j v. refl;
  read-incr_by = λ d k j a. refl;
  read-del = λ d k j. refl;
  read-hset = λ d k j fs. refl;
  read-expire = λ d k j ttl. refl;
  int64_of = int64_reply;
  slice_of = slice_reply;
  int64_of-script_error = refl;
  int64_of-integer = λ n. refl;
  slice_of-script_error = refl;
  slice_of-integer = λ n. refl;
  slice_of-array = λ m n. refl;
}
