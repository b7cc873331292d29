-- ===== src/Outbox/Batch.antt =====
-- What a whole batch (processBatch of worker.go) makes of every row, where its statements succeed.
use mathlib.Core.Option
use ykt_aisaas.Base.{
  ℕ, ◌≡◌, refl, ap, ◌∙◌, subst, Bool, true, false, ◌&&◌, inl, inr, Option, none, some, List, [],
  ◌∷◌, arith, Text, ltb, ◌==◌, ==_iff, if◌then◌else◌, Bool-cases,
}
use ykt_aisaas.Outbox.{
  processing, is_pending, Row, Message, update_where, with_id, claim_row, process_one, to_message,
  select_pending, claim_all, process_all, process_batch,
}
use ykt_aisaas.Outbox.Picked.{IsUnique, IsPicked, still_picked, select_pending-IsPicked}
use ykt_aisaas.Outbox.Life.{find, settled, process_one_outcome}

find-update :
    (p : Row → Bool) (f : Row → Row) (rows : List Row) (j : ℕ)
    → ((q : Row) → (f q).id ≡ q.id)
    → find j (update_where p f rows).1 ≡ Option.map (λ q. if p q then f q else q) (find j rows)
unfolding find update_where
find-update p f [] j keeps = refl
find-update p f (r ∷ rows) j keeps = elim (Bool-cases (p r)) [
  | inl hit ↦ elim (Bool-cases (r.id == j)) [
    | inl here ↦ simp (hit, keeps r, here) refl
    | inr later ↦ simp (hit, keeps r, later) (find-update p f rows j keeps)
  ]
  | inr miss ↦ elim (Bool-cases (r.id == j)) [
    | inl here ↦ simp (miss, here) refl
    | inr later ↦ simp (miss, later) (find-update p f rows j keeps)
  ]
]

find_id : (j : ℕ) (rows : List Row) (r : Row) → find j rows ≡ some r → (r.id == j) ≡ true
unfolding find
find_id j [] r h = absurd (ground (arith, h))
find_id j (q ∷ rows) r h = elim (Bool-cases (q.id == j)) [
  | inl here ↦
      let same : q ≡ r = ground (arith, h, here) in
      subst (λ (s : Row). (s.id == j) ≡ true) same here
  | inr later ↦
      let found : find j rows ≡ some r = ground (arith, h, later) in find_id j rows r found
]

-- The claimed form of a row
abbrev pub claimed_by : Text → Row → Row
claimed_by worker r = record r { status = processing; worker_id = some worker }

claim_affected :
    (worker : Text) (i : ℕ) (rows : List Row) (r : Row)
    → find i rows ≡ some r
    → is_pending r.status ≡ true
    → ltb 0 (claim_row worker i rows).0 ≡ true
unfolding claim_row find update_where
claim_affected worker i [] r h live = absurd (ground (arith, h))
claim_affected worker i (q ∷ rows) r h live = elim (Bool-cases (q.id == i)) [
  | inl here ↦
      let same : q ≡ r = ground (arith, h, here) in
      let ready : is_pending q.status ≡ true = ap (λ (s : Row). is_pending s.status) same ∙ live in
      simp (here, ready) (ground arith)
  | inr later ↦
      let found : find i rows ≡ some r = ground (arith, h, later) in
      simp (later) (claim_affected worker i rows r found live)
]

-- What a change by `f` of the selected rows makes of a row.
abbrev pub changed : (Row → Row) → Option Row → Option Row → Option Row
changed f none found = found
changed f (some c) found = some (f c)

claim_find :
    (worker : Text) (r : Row) (rows : List Row) (j : ℕ)
    → find r.id rows ≡ some r
    → is_pending r.status ≡ true
    → find j (claim_row worker r.id rows).1
      ≡ (if r.id == j then some (claimed_by worker r) else find j rows)
unfolding claim_row
claim_find worker r rows j found live =
    find-update (λ (q : Row). with_id r.id q && is_pending q.status) (claimed_by worker) rows j
      (λ q. refl)
    ∙ elim (Bool-cases (r.id == j)) [
      | inl here ↦
          let own : (r.id == r.id) ≡ true = ground arith in
          rw (here, ← (==_iff r.id j).0 here, found, own, live) refl
      | inr other ↦ rw other (untouched (find j rows) refl other)
    ]
  where
    untouched :
        (o : Option Row)
        → find j rows ≡ o
        → (r.id == j) ≡ false
        → Option.map
            (λ (q : Row). if with_id r.id q && is_pending q.status then claimed_by worker q else q)
            o
          ≡ o
    untouched none e other = refl
    untouched (some q) e other =
        let id : (q.id == j) ≡ true = find_id j rows q e in
        let miss : (q.id == r.id) ≡ false = ground (arith, id, other) in simp (miss) refl

abbrev Claims : Text → List Row → List Row → Type 0
Claims worker selected rows =
    ((claim_all worker (λ i. true) selected rows).0 ≡ selected)
    × ((j : ℕ)
        → find j (claim_all worker (λ i. true) selected rows).1
          ≡ changed (claimed_by worker) (find j selected) (find j rows))

Claims-all :
    (worker : Text) (selected rows : List Row)
    → IsPicked rows selected
    → Claims worker selected rows
unfolding claim_all find
Claims-all worker [] rows picked = (refl, λ j. refl)
Claims-all worker (r ∷ selected) rows ((first, rest), (absent, unique)) =
    let rows' = (claim_row worker r.id rows).1 in
    let here : (j : ℕ)
        → find j rows' ≡ (if r.id == j then some (claimed_by worker r) else find j rows) =
      λ j. claim_find worker r rows j first.0 first.1 in
    let others : (j : ℕ) → (r.id == j) ≡ false → find j rows' ≡ find j rows =
      λ j other. here j ∙ rw other refl in
    let (all, finds) =
      Claims-all worker selected rows'
        (still_picked r.id rows rows' selected others absent rest, unique) in
    let won : ltb 0 (claim_row worker r.id rows).0 ≡ true =
      claim_affected worker r.id rows r first.0 first.1 in
    (rw (won, all) refl, λ j. finds j ∙ joined j (here j))
  where
    joined :
        (j : ℕ)
        → find j (claim_row worker r.id rows).1
          ≡ (if r.id == j then some (claimed_by worker r) else find j rows)
        → changed (claimed_by worker) (find j selected) (find j (claim_row worker r.id rows).1)
          ≡ changed
              (claimed_by worker)
              (if r.id == j then some r else find j selected)
              (find j rows)
    joined j e = elim (Bool-cases (r.id == j)) [
      | inl here ↦
          let gone : find j selected ≡ none = rw (← (==_iff r.id j).0 here) absent in
          rw (e, here, gone) refl
      | inr other ↦ rw (e, other) refl
    ]

-- What the handler's result makes of a row that was picked.
settled_of : (Message → Option Text) → ℕ → Option Row → Option Row → Option Row
settled_of handler now none found = found
settled_of handler now (some c) found = Option.map (settled (handler (to_message c)) now c) found

find-process_all :
    (handler : Message → Option Text) (now : ℕ) (claimed rows : List Row) (j : ℕ)
    → IsUnique claimed
    → find j (process_all handler (λ i. true) now claimed rows)
      ≡ settled_of handler now (find j claimed) (find j rows)
unfolding process_all settled_of find
find-process_all handler now [] rows j unique = refl
find-process_all handler now (r ∷ claimed) rows j (absent, unique) =
    find-process_all handler now claimed (process_one handler true now r rows) j unique
    ∙ joined (process_one_outcome handler now j r rows)
  where
    joined :
        find j (process_one handler true now r rows) ≡ (
          if r.id == j
          then Option.map (settled (handler (to_message r)) now r) (find j rows)
          else find j rows)
        → settled_of handler now (find j claimed) (find j (process_one handler true now r rows))
          ≡ settled_of handler now (if r.id == j then some r else find j claimed) (find j rows)
    joined e = elim (Bool-cases (r.id == j)) [
      | inl here ↦
          let gone : find j claimed ≡ none = rw (← (==_iff r.id j).0 here) absent in
          rw (e, here, gone) refl
      | inr other ↦ rw (e, other) refl
    ]

-- What a batch makes of a row that it selects.
abbrev pub handled : (Message → Option Text) → Text → ℕ → Row → Row
handled handler worker now c = settled (handler (to_message c)) now c (claimed_by worker c)

-- In a table with each id once, a batch whose statements all succeed hands each row that its SELECT
-- finds to the handler and settles it by the result, done, or pending for a retry, or failed, under
-- the name of its worker, and leaves every other row as it was.
pub process_batch_outcome :
    (handler : Message → Option Text) (worker : Text) (size now : ℕ) (rows : List Row) (j : ℕ)
    → IsUnique rows
    → find j (process_batch handler worker size now (λ i. true) (λ i. true) rows)
      ≡ changed (handled handler worker now) (find j (select_pending now size rows)) (find j rows)
unfolding process_batch
process_batch_outcome handler worker size now rows j unique =
    let selected = select_pending now size rows in
    let picked = select_pending-IsPicked now size rows unique in
    let (all, finds) : Claims worker selected rows = Claims-all worker selected rows picked in
    let (claimed, rows') = claim_all worker (λ i. true) selected rows in
    let same : claimed ≡ selected = all in
    find-process_all handler now claimed rows' j (rw same picked.1)
    ∙ (ap (λ c. settled_of handler now (find j c) (find j rows')) same
        ∙ (ap (settled_of handler now (find j selected)) (finds j) ∙ both (find j selected)))
  where
    both :
        (o : Option Row)
        → settled_of handler now o (changed (claimed_by worker) o (find j rows))
          ≡ changed (handled handler worker now) o (find j rows)
    both none = unfold settled_of in refl
    both (some c) = unfold settled_of in refl
