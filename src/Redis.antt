-- ===== src/Redis.antt =====
-- What the code relies on of the Redis server and of go-redis: the commands that it sends, as an
-- interface over an abstract database with the documented effect of each on what a key holds.
pub mod Memory
use ykt_aisaas.Base.{
  ℕ, String, ℤ, ◌+ℤ◌, ◌≡◌, Option, none, some, List, [], ◌∷◌, Text, text_eq, str_eq, if◌then◌else◌,
}

-- What a key holds: a string that reads as an integer, another string, one that expires at a time in
-- nanoseconds, or a hash of integers.
pub data Value : Type 0 where
  num : ℤ → Value
  str : Text → Value
  str_until : ℕ → Text → Value
  hash : List (String × ℤ) → Value

-- HGET and HSET on the fields of a hash.
unfoldable pub field : String → List (String × ℤ) → Option ℤ
field f [] = none
field f ((g, v) ∷ fs) = if str_eq g f then some v else field f fs

unfoldable pub put_fields : List (String × ℤ) → List (String × ℤ) → List (String × ℤ)
put_fields [] old = old
put_fields ((f, v) ∷ fs) old = (f, v) ∷ put_fields fs old

-- INCRBY starts a missing key at 0, and is an error that changes nothing on what is no integer.
abbrev pub incremented : ℤ → Option Value → Option Value
incremented a none = some (num a)
incremented a (some (num n)) = some (num (n +ℤ a))
incremented a (some v) = some v

-- HSET starts a missing key as an empty hash, and is an error on what is no hash.
abbrev pub with_fields : List (String × ℤ) → Option Value → Option Value
with_fields fs none = some (hash (put_fields fs []))
with_fields fs (some (hash old)) = some (hash (put_fields fs old))
with_fields fs (some v) = some v

-- How one round trip to the server ends: answered, refused before it ran, or run and its answer
-- lost on the way back.
pub data Link : Type 0 where
  answered refused lost : Link

-- A reply of the server, or of a script that it runs.
pub data Reply : Type 0 where
  script_error : Reply
  integer : ℤ → Reply
  array : ℤ → ℤ → Reply

pub record Redis : Type 1 where
  pub Db : Type 0
  pub read : Db → Text → Option Value
  pub set : Text → Value → Db → Db
  pub incr_by : Text → ℤ → Db → Db
  pub del : Text → Db → Db
  pub hset : Text → List (String × ℤ) → Db → Db
  -- EXPIRE with a positive number of seconds
  pub expire : Text → ℕ → Db → Db
  pub read-set :
      (d : Db) (k j : Text) (v : Value)
      → read (set k v d) j ≡ (if text_eq k j then some v else read d j)
  pub read-incr_by :
      (d : Db) (k j : Text) (a : ℤ)
      → read (incr_by k a d) j ≡ (if text_eq k j then incremented a (read d k) else read d j)
  pub read-del : (d : Db) (k j : Text) → read (del k d) j ≡ (if text_eq k j then none else read d j)
  pub read-hset :
      (d : Db) (k j : Text) (fs : List (String × ℤ))
      → read (hset k fs d) j ≡ (if text_eq k j then with_fields fs (read d k) else read d j)
  pub read-expire : (d : Db) (k j : Text) (ttl : ℕ) → read (expire k ttl d) j ≡ read d j
  -- How go-redis reads a reply: `Cmd.Int64` wants an integer, `Cmd.Slice` an array.
  pub int64_of : Reply → Option ℤ
  pub slice_of : Reply → Option (ℤ × ℤ)
  pub int64_of-script_error : int64_of script_error ≡ none
  pub int64_of-integer : (n : ℤ) → int64_of (integer n) ≡ some n
  pub slice_of-script_error : slice_of script_error ≡ none
  pub slice_of-integer : (n : ℤ) → slice_of (integer n) ≡ none
  pub slice_of-array : (m n : ℤ) → slice_of (array m n) ≡ some (m, n)
