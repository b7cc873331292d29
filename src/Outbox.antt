-- ===== src/Outbox.antt =====
-- internal/platform/outbox (writer.go, worker.go): the table of messages, the SQL statements on it,
-- the backoff, and what a worker does with one message. The table is in the order of its ids, which
-- the inserts number upwards. Times and durations are nanoseconds. `Bool` results of statements say
-- whether the database answered without an error.
pub mod Backoff
pub mod Life
pub mod Picked
pub mod Batch
pub mod Claims
pub mod Exclusive
use ykt_aisaas.Base.{
  ℕ, suc, ◌+◌, ◌*◌, ◌≤◌, ltb, leb, ◌==◌, Bool, true, false, ◌&&◌, ℤ, pos, pos_part, Option, none,
  some, List, [], ◌∷◌, ◌++◌, Text, codes, length, take, filter, get_or, if◌then◌else◌,
}

pub data Status : Type 0 where
  pending processing done failed : Status

abbrev pub is_pending : Status → Bool
is_pending pending = true
is_pending processing = false
is_pending done = false
is_pending failed = false

-- A row of ykt_aisaas_memory_outbox.
pub record Row : Type 0 where
  pub id : ℕ
  pub tenant_id : Text
  pub device_id : Text
  pub kind : Text
  pub payload : Text
  pub status : Status
  pub retry_count : ℕ
  pub next_retry_at : Option ℕ
  pub worker_id : Option Text
  pub error_message : Option Text

-- OutboxMessage, its payload as the text that JSON gives.
pub record Message : Type 0 where
  pub tenant_id : Text
  pub device_id : Text
  pub payload : Text
  pub kind : Text

pub record Table : Type 0 where
  pub rows : List Row
  pub next_id : ℕ

-- Write, once the payload is marshalled (`none` where json.Marshal fails). The column defaults fill
-- the rest of the row.
unfoldable pub write_row : ℕ → Message → Text → Row
write_row id msg payload = record {
  id = id;
  tenant_id = msg.tenant_id;
  device_id = msg.device_id;
  kind = msg.kind;
  payload = payload;
  status = pending;
  retry_count = 0;
  next_retry_at = none;
  worker_id = none;
  error_message = none;
}

unfoldable pub write : Bool → Option Text → Message → Table → Option ℕ × Table
unfolding write_row
write ok none msg t = (none, t)
write false (some payload) msg t = (none, t)
write true (some payload) msg t = (
  some t.next_id,
  record { rows = t.rows ++ write_row t.next_id msg payload ∷ []; next_id = suc t.next_id },
)

-- ToMessage
unfoldable pub to_message : Row → Message
to_message r = record {
  tenant_id = r.tenant_id;
  device_id = r.device_id;
  payload = r.payload;
  kind = r.kind;
}

abbrev pub second : ℕ
second = 1000000000

abbrev pub backoff_durations : List ℕ
backoff_durations =
    (1 * second)
    ∷ (2 * second)
    ∷ (4 * second)
    ∷ (8 * second)
    ∷ (16 * second)
    ∷ (32 * second)
    ∷ (60 * second)
    ∷ []

-- A negative count is taken as 0.
unfoldable pub backoff : ℤ → ℕ
backoff retry_count =
    let n = pos_part retry_count in
    if leb (length backoff_durations) n
    then get_or backoff_durations 6 0
    else get_or backoff_durations n 0

abbrev pub max_retry : ℕ
max_retry = 10

abbrev pub is_due : ℕ → Option ℕ → Bool
is_due now none = true
is_due now (some t) = leb t now

-- The first SELECT of processBatch.
unfoldable pub select_pending : ℕ → ℕ → List Row → List Row
select_pending now batch_size rows =
    take batch_size (filter (λ (r : Row). is_pending r.status && is_due now r.next_retry_at) rows)

-- UPDATE ... WHERE: the rows that a test finds, changed, and their number.
unfoldable pub update_where : (Row → Bool) → (Row → Row) → List Row → ℕ × List Row
update_where p f [] = (0, [])
update_where p f (r ∷ rows) =
    let (n, rest) = update_where p f rows in if p r then (suc n, f r ∷ rest) else (n, r ∷ rest)

abbrev pub with_id : ℕ → Row → Bool
with_id i r = r.id == i

-- The UPDATE that claims a message: it finds the row only while it is pending.
unfoldable pub claim_row : Text → ℕ → List Row → ℕ × List Row
unfolding update_where
claim_row worker i =
    update_where (λ (r : Row). with_id i r && is_pending r.status)
      (λ (r : Row). record r { status = processing; worker_id = some worker })

unfoldable pub mark_done : ℕ → List Row → List Row
unfolding update_where
mark_done i rows = (update_where (with_id i) (λ (r : Row). record r { status = done }) rows).1

-- markFailed, on the row as it was selected.
unfoldable pub mark_failed : ℕ → Row → Text → List Row → List Row
unfolding update_where backoff
mark_failed now r err rows =
    let new_retry = r.retry_count + 1 in
    if ltb max_retry new_retry
    then (update_where (with_id r.id)
        (λ (q : Row). record q {
          status = failed;
          retry_count = new_retry;
          error_message = some err;
        })
        rows).1
    else (update_where (with_id r.id)
        (λ (q : Row). record q {
          status = pending;
          retry_count = new_retry;
          next_retry_at = some (now + backoff (pos r.retry_count));
          error_message = some err;
        })
        rows).1

-- processOne: the handler's result, `none` for no error, decides the UPDATE. `stored` says whether
-- that UPDATE reaches the database; its error is only logged.
unfoldable pub finish_one : Bool → ℕ → Row → Option Text → List Row → List Row
unfolding mark_done mark_failed
finish_one false now r result rows = rows
finish_one true now r none rows = mark_done r.id rows
finish_one true now r (some err) rows = mark_failed now r err rows

unfoldable pub process_one : (Message → Option Text) → Bool → ℕ → Row → List Row → List Row
unfolding finish_one to_message
process_one handler stored now r rows = finish_one stored now r (handler (to_message r)) rows

-- The loop of processBatch that claims: `answers` says of each row's UPDATE whether it reached the
-- database.
unfoldable pub claim_all : Text → (ℕ → Bool) → List Row → List Row → List Row × List Row
unfolding claim_row
claim_all worker answers [] rows = ([], rows)
claim_all worker answers (r ∷ selected) rows =
    let (affected, updated) = claim_row worker r.id rows in
    let now_rows = if answers r.id then updated else rows in
    let (claimed, rows') = claim_all worker answers selected now_rows in
    (if answers r.id && ltb 0 affected then r ∷ claimed else claimed, rows')

unfoldable pub process_all :
    (Message → Option Text) → (ℕ → Bool) → ℕ → List Row → List Row → List Row
unfolding process_one
process_all handler stored now [] rows = rows
process_all handler stored now (r ∷ claimed) rows =
    process_all handler stored now claimed (process_one handler (stored r.id) now r rows)

-- processBatch, where its SELECT is answered.
unfoldable pub process_batch :
    (Message → Option Text) → Text → ℕ → ℕ → (ℕ → Bool) → (ℕ → Bool) → List Row → List Row
unfolding select_pending claim_all process_all
process_batch handler worker batch_size now answers stored rows =
    let (claimed, rows') = claim_all worker answers (select_pending now batch_size rows) rows in
    process_all handler stored now claimed rows'
