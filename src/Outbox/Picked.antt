-- ===== src/Outbox/Picked.antt =====
-- The rows that the SELECT of processBatch (worker.go) finds are rows of the table, each once.
use ykt_aisaas.Base.{
  ℕ, zero, suc, ◌≡◌, refl, ◌∙◌, Bool, true, false, ◌&&◌, inl, inr, none, some, List, [], ◌∷◌, arith,
  ◌==◌, All, All-take, filter, take, Bool-cases,
}
use ykt_aisaas.Outbox.{is_pending, is_due, Row, select_pending}
use ykt_aisaas.Outbox.Life.{find}

-- Each id stands once.
abbrev pub IsUnique : List Row → Type 0
IsUnique [] = Unit
IsUnique (r ∷ rows) = (find r.id rows ≡ none) × IsUnique rows

-- Rows that the table has as they are, pending, each once.
abbrev pub IsPicked : List Row → List Row → Type 0
IsPicked rows selected =
    All (λ r. (find r.id rows ≡ some r) × (is_pending r.status ≡ true)) selected × IsUnique selected

-- Rows with other ids than `i` are picked still.
pub still_picked :
    (i : ℕ) (rows rows' selected : List Row)
    → ((j : ℕ) → (i == j) ≡ false → find j rows' ≡ find j rows)
    → find i selected ≡ none
    → All (λ r. (find r.id rows ≡ some r) × (is_pending r.status ≡ true)) selected
    → All (λ r. (find r.id rows' ≡ some r) × (is_pending r.status ≡ true)) selected
unfolding find
still_picked i rows rows' [] same absent h = tt
still_picked i rows rows' (r ∷ selected) same absent h = elim (Bool-cases (r.id == i)) [
  | inl here ↦ absurd (ground (arith, absent, here))
  | inr other ↦
      let later : find i selected ≡ none = ground (arith, absent, other) in
      let apart : (i == r.id) ≡ false = ground (arith, other) in
      (
        (unfold find in same r.id apart ∙ h.0.0, h.0.1),
        still_picked i rows rows' selected same later h.1,
      )
]

-- What the SELECT finds are rows of the table as they are.
filter-absent :
    (p : Row → Bool) (i : ℕ) (rows : List Row) → find i rows ≡ none → find i (filter p rows) ≡ none
unfolding find
filter-absent p i [] h = refl
filter-absent p i (r ∷ rows) h = elim (Bool-cases (r.id == i)) [
  | inl here ↦ absurd (ground (arith, h, here))
  | inr other ↦
      let later : find i rows ≡ none = ground (arith, h, other) in
      elim (Bool-cases (p r)) [
        | inl kept ↦ rw (kept, other) (filter-absent p i rows later)
        | inr gone ↦ rw gone (filter-absent p i rows later)
      ]
]

filter-IsUnique : (p : Row → Bool) (rows : List Row) → IsUnique rows → IsUnique (filter p rows)
filter-IsUnique p [] h = tt
filter-IsUnique p (r ∷ rows) h = elim (Bool-cases (p r)) [
  | inl kept ↦ rw kept (filter-absent p r.id rows h.0, filter-IsUnique p rows h.1)
  | inr gone ↦ rw gone (filter-IsUnique p rows h.1)
]

take-absent : (n i : ℕ) (rows : List Row) → find i rows ≡ none → find i (take n rows) ≡ none
unfolding find
take-absent zero i rows h = refl
take-absent (suc n) i [] h = refl
take-absent (suc n) i (r ∷ rows) h = elim (Bool-cases (r.id == i)) [
  | inl here ↦ absurd (ground (arith, h, here))
  | inr other ↦
      let later : find i rows ≡ none = ground (arith, h, other) in
      rw other (take-absent n i rows later)
]

take-IsUnique : (n : ℕ) (rows : List Row) → IsUnique rows → IsUnique (take n rows)
take-IsUnique zero rows h = tt
take-IsUnique (suc n) [] h = tt
take-IsUnique (suc n) (r ∷ rows) h = (take-absent n r.id rows h.0, take-IsUnique n rows h.1)

-- Rows that a table has, it has with one more row of another id.
All-found_cons :
    (q : Row) (rows selected : List Row)
    → find q.id selected ≡ none
    → All (λ r. (find r.id rows ≡ some r) × (is_pending r.status ≡ true)) selected
    → All (λ r. (find r.id (q ∷ rows) ≡ some r) × (is_pending r.status ≡ true)) selected
All-found_cons q rows selected absent h =
    still_picked q.id rows (q ∷ rows) selected (λ j other. unfold find in rw other refl) absent h

picked_filter :
    (now : ℕ) (rows : List Row)
    → IsUnique rows
    → All
        (λ r. (find r.id rows ≡ some r) × (is_pending r.status ≡ true))
        (filter (λ (r : Row). is_pending r.status && is_due now r.next_retry_at) rows)
picked_filter now [] h = tt
picked_filter now (r ∷ rows) h =
    let due = λ (q : Row). is_pending q.status && is_due now q.next_retry_at in
    let rest =
      All-found_cons r rows (filter due rows) (filter-absent due r.id rows h.0)
        (picked_filter now rows h.1) in
    elim (Bool-cases (is_pending r.status && is_due now r.next_retry_at)) [
      | inl kept ↦
          let own : (r.id == r.id) ≡ true = ground arith in
          rw kept ((unfold find in simp (own) refl, ground (arith, kept)), rest)
      | inr gone ↦ rw gone rest
    ]

pub select_pending-IsPicked :
    (now size : ℕ) (rows : List Row) → IsUnique rows → IsPicked rows (select_pending now size rows)
unfolding select_pending
select_pending-IsPicked now size rows h =
    let due = λ (q : Row). is_pending q.status && is_due now q.next_retry_at in
    (
      All-take (λ r. (find r.id rows ≡ some r) × (is_pending r.status ≡ true)) size
          (filter due rows) (picked_filter now rows h),
      take-IsUnique size (filter due rows) (filter-IsUnique due rows h),
    )
