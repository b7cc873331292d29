-- ===== src/Outbox/Claims.antt =====
-- Several workers over one table (worker.go, processBatch): every SELECT, claim and final UPDATE is a
-- step of its own, so the workers' steps interleave in any way.
use ykt_aisaas.Base.{
  ℕ, ◌+◌, ◌≡◌, refl, Bool, true, false, not, ◌&&◌, ◌||◌, inl, inr, Option, none, some, List, [],
  ◌∷◌, ◌++◌, arith, Text, ltb, ◌==◌, if◌then◌else◌, Bool-cases,
}
use ykt_aisaas.Outbox.{
  is_pending, Row, update_where, with_id, claim_row, mark_done, mark_failed, finish_one,
  select_pending,
}

-- Some row with this id is pending.
unfoldable pub idle : ℕ → List Row → Bool
idle i [] = false
idle i (r ∷ rows) = (with_id i r && is_pending r.status) || idle i rows

-- Some row of a list has this id.
unfoldable pub holds : ℕ → List Row → Bool
holds i [] = false
holds i (r ∷ rows) = with_id i r || holds i rows

-- No two rows of a list have the same id.
unfoldable pub distinct : List Row → Bool
distinct [] = true
distinct (r ∷ rows) = not (holds r.id rows) && distinct rows

-- A claim succeeds exactly on a pending message, and leaves it pending no more.
pub claim_affects :
    (worker : Text) (i : ℕ) (rows : List Row) → ltb 0 (claim_row worker i rows).0 ≡ idle i rows
unfolding claim_row idle
claim_affects worker i [] = refl
claim_affects worker i (r ∷ rows) = ground (arith, claim_affects worker i rows)

pub idle-claim :
    (worker : Text) (i j : ℕ) (rows : List Row)
    → idle j (claim_row worker i rows).1 ≡ (if i == j then false else idle j rows)
unfolding claim_row idle
idle-claim worker i j [] = ground arith
idle-claim worker i j (r ∷ rows) = ground (arith, idle-claim worker i j rows)

pub idle-update_where :
    (i j : ℕ) (f : Row → Row) (rows : List Row)
    → ((r : Row) → (f r).id ≡ r.id)
    → (i == j) ≡ false
    → idle j (update_where (with_id i) f rows).1 ≡ idle j rows
unfolding idle update_where
idle-update_where i j f [] keeps ne = refl
idle-update_where i j f (r ∷ rows) keeps ne =
    ground (arith, keeps r, idle-update_where i j f rows keeps ne)

pub idle-finish :
    (stored : Bool) (now j : ℕ) (r : Row) (result : Option Text) (rows : List Row)
    → (r.id == j) ≡ false
    → idle j (finish_one stored now r result rows) ≡ idle j rows
unfolding finish_one mark_done mark_failed
idle-finish false now j r result rows ne = refl
idle-finish true now j r none rows ne = idle-update_where r.id j _ rows (λ q. refl) ne
idle-finish true now j r (some err) rows ne = elim (Bool-cases (ltb 10 (r.retry_count + 1))) [
  | inl last ↦ rw last (idle-update_where r.id j _ rows (λ q. refl) ne)
  | inr more ↦ rw more (idle-update_where r.id j _ rows (λ q. refl) ne)
]

pub holds-append :
    (i : ℕ) (xs : List Row) (r : Row) → holds i (xs ++ r ∷ []) ≡ (holds i xs || with_id i r)
unfolding holds
holds-append i [] r = ground arith
holds-append i (x ∷ xs) r = ground (arith, holds-append i xs r)

pub distinct-append :
    (xs : List Row) (r : Row) → distinct (xs ++ r ∷ []) ≡ (not (holds r.id xs) && distinct xs)
unfolding distinct holds
distinct-append [] r = refl
distinct-append (x ∷ xs) r = ground (arith, distinct-append xs r, holds-append x.id xs r)

-- The table, and what each worker has selected and claimed and not yet finished.
pub record System : Type 0 where
  pub rows : List Row
  pub selected : ℕ → List Row
  pub claimed : ℕ → List Row

abbrev pub at : ℕ → List Row → (ℕ → List Row) → ℕ → List Row
at w v f u = if u == w then v else f u

module _ (name : ℕ → Text) where
  -- One step of worker `w`.
  pub data Step (s : System) : System → Type 0 where
    select :
        (w now batch_size : ℕ)
        → s.selected w ≡ []
        → s.claimed w ≡ []
        → Step s (record s { selected = at w (select_pending now batch_size s.rows) s.selected })
    claim :
        (w : ℕ) (r : Row) (rest : List Row)
        → s.selected w ≡ r ∷ rest
        → ltb 0 (claim_row (name w) r.id s.rows).0 ≡ true
        → Step s (record {
          rows = (claim_row (name w) r.id s.rows).1;
          selected = at w rest s.selected;
          claimed = at w (s.claimed w ++ r ∷ []) s.claimed;
        })
    -- the row was no longer pending
    claim_late :
        (w : ℕ) (r : Row) (rest : List Row)
        → s.selected w ≡ r ∷ rest
        → ltb 0 (claim_row (name w) r.id s.rows).0 ≡ false
        → Step s (record s {
          rows = (claim_row (name w) r.id s.rows).1;
          selected = at w rest s.selected;
        })
    -- the UPDATE returned an error, having run or not
    claim_error :
        (w : ℕ) (r : Row) (rest : List Row) (ran : Bool)
        → s.selected w ≡ r ∷ rest
        → Step s (record s {
          rows = if ran then (claim_row (name w) r.id s.rows).1 else s.rows;
          selected = at w rest s.selected;
        })
    finish :
        (w now : ℕ) (r : Row) (rest : List Row) (stored : Bool) (result : Option Text)
        → s.selected w ≡ []
        → s.claimed w ≡ r ∷ rest
        → Step s (record s {
          rows = finish_one stored now r result s.rows;
          claimed = at w rest s.claimed;
        })
    -- a client writes a message under a new id
    insert :
        (r : Row)
        → ((w : ℕ) → holds r.id (s.claimed w) ≡ false)
        → Step s (record s { rows = s.rows ++ r ∷ [] })

  pub data Reach (s : System) : System → Type 0 where
    here : Reach s s
    next : {t u : System} → Reach s t → Step t u → Reach s u
