-- ===== src/Metering/Dlq.antt =====
-- internal/platform/metering/dlq.go: the table of records that could not be stored, and the pass
-- that tries them again. A row's payload is the record that it decodes to, or none. `updated` says of
-- a row whether the statement on it succeeds, since its error is dropped; `process` is the callback,
-- true where it returns no error.
use ykt_aisaas.Base.{
  ℕ, zero, suc, ◌+◌, ◌≤◌, Bool, true, false, inl, inr, Bool-cases, ltb, leb, ◌==◌, Option, none,
  some, List, [], ◌∷◌, ◌++◌, arith, take, filter, All, All-take, All-filter, if◌then◌else◌,
}
use ykt_aisaas.Metering.{UsageRecord}

pub record DlqRow : Type 0 where
  pub id : ℕ
  pub payload : Option UsageRecord
  pub retry_count : ℕ

abbrev pub with_id : ℕ → DlqRow → Bool
with_id i r = r.id == i

-- Push: the id is the table's next one.
unfoldable pub push : Bool → ℕ → UsageRecord → List DlqRow → List DlqRow
push stored id rec rows =
    if stored then rows ++ record { id = id; payload = some rec; retry_count = 0 } ∷ [] else rows

delete_where : (DlqRow → Bool) → List DlqRow → List DlqRow
delete_where p [] = []
delete_where p (r ∷ rows) = let rest = delete_where p rows in if p r then rest else r ∷ rest

set_retries : ℕ → ℕ → List DlqRow → List DlqRow
set_retries i n [] = []
set_retries i n (r ∷ rows) =
    let rest = set_retries i n rows in
    if with_id i r then record r { retry_count = n } ∷ rest else r ∷ rest

-- One turn of the loop: the rows, and the ids for which an alert is published.
retry_record :
    ℕ
    → Bool
    → (UsageRecord → Bool)
    → DlqRow
    → Option UsageRecord
    → List DlqRow × List ℕ
    → List DlqRow × List ℕ
unfolding delete_where set_retries
retry_record max_retry updated process r none (rows, alerts) = (rows, alerts)
retry_record max_retry updated process r (some rec) (rows, alerts) =
    if process rec then (if updated then delete_where (with_id r.id) rows else rows, alerts) else (
      if updated then set_retries r.id (r.retry_count + 1) rows else rows,
      if leb max_retry (r.retry_count + 1) then alerts ++ r.id ∷ [] else alerts,
    )

retry_all :
    ℕ
    → (ℕ → Bool)
    → (UsageRecord → Bool)
    → List DlqRow
    → List DlqRow × List ℕ
    → List DlqRow × List ℕ
unfolding retry_record
retry_all max_retry updated process [] s = s
retry_all max_retry updated process (r ∷ selected) s =
    retry_all max_retry updated process selected
      (retry_record max_retry (updated r.id) process r r.payload s)

-- NewDLQWorker's bound
-- (a negative number counts as 0)
unfoldable pub max_or_3 : ℕ → ℕ
max_or_3 zero = 3
max_or_3 (suc n) = suc n

-- Retry, where its SELECT is answered
unfoldable pub retry : ℕ → (ℕ → Bool) → (UsageRecord → Bool) → List DlqRow → List DlqRow × List ℕ
unfolding retry_all
retry max_retry updated process rows =
    retry_all max_retry updated process
      (take 100 (filter (λ (r : DlqRow). ltb r.retry_count max_retry) rows)) (rows, [])

-- A row that has not been tried more often than is allowed.
abbrev pub IsTried : ℕ → DlqRow → Type 0
IsTried max_retry r = r.retry_count ≤ max_retry

delete_where-IsTried :
    (m : ℕ) (p : DlqRow → Bool) (rows : List DlqRow)
    → All (IsTried m) rows
    → All (IsTried m) (delete_where p rows)
unfolding delete_where
delete_where-IsTried m p [] h = h
delete_where-IsTried m p (r ∷ rows) h = elim (Bool-cases (p r)) [
  | inl hit ↦ rw hit (delete_where-IsTried m p rows h.1)
  | inr miss ↦ rw miss (h.0, delete_where-IsTried m p rows h.1)
]

set_retries-IsTried :
    (m i n : ℕ) (rows : List DlqRow)
    → n ≤ m
    → All (IsTried m) rows
    → All (IsTried m) (set_retries i n rows)
unfolding set_retries
set_retries-IsTried m i n [] few h = h
set_retries-IsTried m i n (r ∷ rows) few h = elim (Bool-cases (with_id i r)) [
  | inl hit ↦ rw hit (few, set_retries-IsTried m i n rows few h.1)
  | inr miss ↦ rw miss (h.0, set_retries-IsTried m i n rows few h.1)
]

retry_record-IsTried :
    (m : ℕ) (updated : Bool) (process : UsageRecord → Bool) (r : DlqRow)
    (payload : Option UsageRecord) (rows : List DlqRow) (alerts : List ℕ)
    → r.retry_count + 1 ≤ m
    → All (IsTried m) rows
    → All (IsTried m) (retry_record m updated process r payload (rows, alerts)).0
unfolding retry_record
retry_record-IsTried m updated process r none rows alerts few h = h
retry_record-IsTried m false process r (some rec) rows alerts few h =
    elim (Bool-cases (process rec)) [ inl fine ↦ rw fine h | inr bad ↦ rw bad h ]
retry_record-IsTried m true process r (some rec) rows alerts few h =
    elim (Bool-cases (process rec)) [
      | inl fine ↦ rw fine (delete_where-IsTried m (with_id r.id) rows h)
      | inr bad ↦ rw bad (set_retries-IsTried m r.id (r.retry_count + 1) rows few h)
    ]

-- A row that is selected may be tried once more.
abbrev MayRetry : ℕ → DlqRow → Type 0
MayRetry m r = r.retry_count + 1 ≤ m

retry_all-IsTried :
    (m : ℕ) (updated : ℕ → Bool) (process : UsageRecord → Bool) (selected rows : List DlqRow)
    (alerts : List ℕ)
    → All (MayRetry m) selected
    → All (IsTried m) rows
    → All (IsTried m) (retry_all m updated process selected (rows, alerts)).0
unfolding retry_all
retry_all-IsTried m updated process [] rows alerts few h = h
retry_all-IsTried m updated process (r ∷ selected) rows alerts few h =
    let (rows', alerts') = retry_record m (updated r.id) process r r.payload (rows, alerts) in
    retry_all-IsTried m updated process selected rows' alerts' few.1
      (retry_record-IsTried m (updated r.id) process r r.payload rows alerts few.0 h)

selected-MayRetry :
    (m n : ℕ) (rows : List DlqRow)
    → All (MayRetry m) (take n (filter (λ (r : DlqRow). ltb r.retry_count m) rows))
selected-MayRetry m n rows =
    All-take (MayRetry m) n _
      (All-filter (MayRetry m) (λ (r : DlqRow). ltb r.retry_count m) rows (λ r h. ground arith))

-- A pass keeps every row of the dead-letter table within the allowed retries, whatever the callback
-- returns and whichever statements succeed.
pub retry-IsTried :
    (m : ℕ) (updated : ℕ → Bool) (process : UsageRecord → Bool) (rows : List DlqRow)
    → All (IsTried m) rows
    → All (IsTried m) (retry m updated process rows).0
unfolding retry
retry-IsTried m updated process rows h =
    retry_all-IsTried m updated process _ rows [] (selected-MayRetry m 100 rows) h
