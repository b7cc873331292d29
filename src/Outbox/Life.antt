-- ===== src/Outbox/Life.antt =====
-- What becomes of a message (worker.go): the outcome of one processing, and the retries that a row
-- can have.
use mathlib.Core.Option
use mathlib.Core.Path.{fun_ext}
use Prim.Native.Nat.{min}
use ykt_aisaas.Outbox.Backoff.{backoff_exact}
use ykt_aisaas.Base.{
  ℕ, suc, ◌+◌, ◌*◌, ◌^◌, ◌≤◌, ◌≡◌, refl, ap, Bool, true, false, ◌&&◌, inl, inr, Option, none, some,
  List, [], ◌∷◌, arith, Text, ltb, leb, ◌==◌, if◌then◌else◌, All, All-take, filter, Bool-cases,
  Option-cases,
}
use ykt_aisaas.Outbox.{
  Status, pending, processing, done, failed, is_pending, is_due, Row, Message, update_where,
  with_id, claim_row, mark_done, mark_failed, process_one, to_message, second, max_retry,
  select_pending, claim_all, process_all, process_batch,
}

-- The row with an id.
unfoldable pub find : ℕ → List Row → Option Row
find i [] = none
find i (r ∷ rows) = if with_id i r then some r else find i rows

-- An UPDATE by id changes that row and no other.
pub find-update_where :
    (i j : ℕ) (f : Row → Row) (rows : List Row)
    → ((r : Row) → (f r).id ≡ r.id)
    → find j (update_where (with_id i) f rows).1
      ≡ (if i == j then Option.map f (find j rows) else find j rows)
unfolding find update_where
find-update_where i j f [] keeps = ground arith
find-update_where i j f (r ∷ rows) keeps =
    ground (arith, keeps r, find-update_where i j f rows keeps)

-- A row's retries agree with its status: a failed row has used up all of them and one attempt more.
abbrev pub retries_fit : Status → ℕ → Bool
retries_fit pending n = leb n max_retry
retries_fit processing n = leb n max_retry
retries_fit done n = leb n (max_retry + 1)
retries_fit failed n = n == max_retry + 1

abbrev pub IsSound : Row → Type 0
IsSound r = retries_fit r.status r.retry_count ≡ true

-- A row that was selected or claimed can be retried.
abbrev HasRetries : Row → Type 0
HasRetries r = r.retry_count ≤ max_retry

All-update_where :
    (p : Row → Bool) (f : Row → Row) (rows : List Row)
    → ((q : Row) → p q ≡ true → IsSound q → IsSound (f q))
    → All IsSound rows
    → All IsSound (update_where p f rows).1
unfolding update_where
All-update_where p f [] keeps h = tt
All-update_where p f (q ∷ rows) keeps h =
    let rest = All-update_where p f rows keeps h.1 in
    elim (Bool-cases (p q)) [
      | inl hit ↦ rw hit (keeps q hit h.0, rest)
      | inr miss ↦ rw miss (h.0, rest)
    ]

claim_row-IsSound :
    (worker : Text) (i : ℕ) (rows : List Row)
    → All IsSound rows
    → All IsSound (claim_row worker i rows).1
unfolding claim_row
claim_row-IsSound worker i rows h =
    All-update_where (λ (r : Row). with_id i r && is_pending r.status)
      (λ (r : Row). record r { status = processing; worker_id = some worker }) rows
      (λ q hit ok. ground arith) h

done_fits : (s : Status) (n : ℕ) → retries_fit s n ≡ true → retries_fit done n ≡ true
done_fits s n h = ground arith

mark_done-IsSound : (i : ℕ) (rows : List Row) → All IsSound rows → All IsSound (mark_done i rows)
unfolding mark_done
mark_done-IsSound i rows h =
    All-update_where (with_id i) (λ (r : Row). record r { status = done }) rows
      (λ q hit ok. done_fits q.status q.retry_count ok) h

mark_failed-IsSound :
    (now : ℕ) (r : Row) (err : Text) (rows : List Row)
    → HasRetries r
    → All IsSound rows
    → All IsSound (mark_failed now r err rows)
unfolding mark_failed
mark_failed-IsSound now r err rows fits h = elim (Bool-cases (ltb max_retry (r.retry_count + 1))) [
  | inl last ↦ rw last (All-update_where (with_id r.id) _ rows (λ q hit ok. ground arith) h)
  | inr more ↦ rw more (All-update_where (with_id r.id) _ rows (λ q hit ok. ground arith) h)
]

process_one-IsSound :
    (handler : Message → Option Text) (stored : Bool) (now : ℕ) (r : Row) (rows : List Row)
    → HasRetries r
    → All IsSound rows
    → All IsSound (process_one handler stored now r rows)
unfolding process_one
process_one-IsSound handler false now r rows fits h = h
process_one-IsSound handler true now r rows fits h = elim (Option-cases (handler (to_message r))) [
  | inl fine ↦ rw fine (mark_done-IsSound r.id rows h)
  | inr (err, bad) ↦ rw bad (mark_failed-IsSound now r err rows fits h)
]

process_all-IsSound :
    (handler : Message → Option Text) (stored : ℕ → Bool) (now : ℕ) (claimed rows : List Row)
    → All HasRetries claimed
    → All IsSound rows
    → All IsSound (process_all handler stored now claimed rows)
unfolding process_all
process_all-IsSound handler stored now [] rows fits h = h
process_all-IsSound handler stored now (r ∷ claimed) rows fits h =
    process_all-IsSound handler stored now claimed (process_one handler (stored r.id) now r rows)
      fits.1 (process_one-IsSound handler (stored r.id) now r rows fits.0 h)

claim_if-IsSound :
    (ok : Bool) (worker : Text) (i : ℕ) (rows : List Row)
    → All IsSound rows
    → All IsSound (if ok then (claim_row worker i rows).1 else rows)
claim_if-IsSound true worker i rows h = claim_row-IsSound worker i rows h
claim_if-IsSound false worker i rows h = h

claim_all-IsSound :
    (worker : Text) (answers : ℕ → Bool) (selected rows : List Row)
    → All HasRetries selected
    → All IsSound rows
    → All HasRetries (claim_all worker answers selected rows).0
      × All IsSound (claim_all worker answers selected rows).1
unfolding claim_all
claim_all-IsSound worker answers [] rows fits h = (tt, h)
claim_all-IsSound worker answers (r ∷ selected) rows fits h =
    let (affected, updated) = claim_row worker r.id rows in
    let now_rows = if answers r.id then updated else rows in
    let (rest, sound) =
      claim_all-IsSound worker answers selected now_rows fits.1
        (claim_if-IsSound (answers r.id) worker r.id rows h) in
    (
      elim (Bool-cases (answers r.id && ltb 0 affected)) [
        | inl won ↦ rw won (fits.0, rest)
        | inr lost ↦ rw lost rest
      ],
      sound,
    )

All-filter_pending :
    (now : ℕ) (rows : List Row)
    → All IsSound rows
    → All HasRetries (filter (λ (r : Row). is_pending r.status && is_due now r.next_retry_at) rows)
All-filter_pending now [] h = tt
All-filter_pending now (r ∷ rows) h =
    let rest = All-filter_pending now rows h.1 in
    elim (Bool-cases (is_pending r.status && is_due now r.next_retry_at)) [
      | inl hit ↦ rw hit (ground (arith, h.0), rest)
      | inr miss ↦ rw miss rest
    ]

-- A batch keeps every row's retries in agreement with its status, whatever the handler returns and
-- whichever statements reach the database: a row is retried at most ten times, and it is failed
-- only after the eleventh attempt.
pub process_batch-IsSound :
    (handler : Message → Option Text) (worker : Text) (batch_size now : ℕ)
    (answers stored : ℕ → Bool) (rows : List Row)
    → All IsSound rows
    → All IsSound (process_batch handler worker batch_size now answers stored rows)
unfolding process_batch
process_batch-IsSound handler worker batch_size now answers stored rows h =
    let selected = select_pending now batch_size rows in
    let (fits, sound) =
      claim_all-IsSound worker answers selected rows
        (unfold select_pending in All-take HasRetries batch_size _ (All-filter_pending now rows h))
        h in
    let (claimed, rows') = claim_all worker answers selected rows in
    process_all-IsSound handler stored now claimed rows' fits sound

-- What processing makes of the row `q` that was selected as `r`: done; or pending again after
-- min(2^n, 60) seconds for its n earlier failures; or failed, at the eleventh.
abbrev pub settled : Option Text → ℕ → Row → Row → Row
settled none now r q = record q { status = done }
settled (some err) now r q =
    if leb max_retry r.retry_count
    then record q { status = failed; retry_count = suc r.retry_count; error_message = some err }
    else record q {
      status = pending;
      retry_count = suc r.retry_count;
      next_retry_at = some (now + min (2 ^ r.retry_count) 60 * second);
      error_message = some err;
    }

last_test : (n : ℕ) → leb max_retry n ≡ true → ltb max_retry (n + 1) ≡ true
last_test n h = ground arith

more_test : (n : ℕ) → leb max_retry n ≡ false → ltb max_retry (n + 1) ≡ false
more_test n h = ground arith

settled_id : (result : Option Text) (now : ℕ) (r q : Row) → (settled result now r q).id ≡ q.id
settled_id result now r q = ground arith

mark_failed_lem :
    (now : ℕ) (r : Row) (err : Text) (rows : List Row)
    → mark_failed now r err rows ≡ (update_where (with_id r.id) (settled (some err) now r) rows).1
unfolding mark_failed
mark_failed_lem now r err rows = elim (Bool-cases (leb max_retry r.retry_count)) [
  | inl last ↦ rw (last_test r.retry_count last) (
      ap (λ (f : Row → Row). (update_where (with_id r.id) f rows).1)
        (fun_ext λ q. rw last (ground arith)))
  | inr more ↦ rw (more_test r.retry_count more) (
      ap (λ (f : Row → Row). (update_where (with_id r.id) f rows).1)
        (fun_ext λ q. rw (more, backoff_exact r.retry_count) (ground arith)))
]

-- Processing a message whose UPDATE is stored settles its row by the handler's result, and leaves
-- every other row as it was.
pub process_one_outcome :
    (handler : Message → Option Text) (now j : ℕ) (r : Row) (rows : List Row)
    → find j (process_one handler true now r rows) ≡ (
        if r.id == j
        then Option.map (settled (handler (to_message r)) now r) (find j rows)
        else find j rows)
unfolding process_one
process_one_outcome handler now j r rows = elim (Option-cases (handler (to_message r))) [
  | inl fine ↦ rw fine (
      unfold mark_done in
      find-update_where r.id j (λ (q : Row). record q { status = done }) rows (λ q. refl))
  | inr (err, bad) ↦
      rw (bad, mark_failed_lem now r err rows)
        (find-update_where r.id j (settled (some err) now r) rows (settled_id (some err) now r))
]
