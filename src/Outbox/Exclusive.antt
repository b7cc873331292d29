-- ===== src/Outbox/Exclusive.antt =====
-- No message is in two workers' hands (worker.go, the CAS of processBatch).
use ykt_aisaas.Base.{
  ℕ, ◌≡◌, refl, sym, ◌∙◌, subst, Bool, true, false, not, ◌&&◌, ◌||◌, inl, inr, Option, List, [],
  ◌∷◌, ◌++◌, arith, Text, ltb, ◌==◌, if◌then◌else◌, Bool-cases, ==_iff,
}
use ykt_aisaas.Outbox.{Row, is_pending, with_id, claim_row, finish_one}
use ykt_aisaas.Outbox.Claims.{
  idle, holds, distinct, System, Step, select, claim, claim_late, claim_error, finish, insert,
  Reach, here, next, at, claim_affects, idle-claim, idle-finish, holds-append, distinct-append,
}

-- What a worker has claimed is pending no more, in no other worker's hands, and there once.
record KeepsApart (s : System) : Type 0 where
  pub owned : (w i : ℕ) → holds i (s.claimed w) ≡ true → idle i s.rows ≡ false
  pub alone : (w v i : ℕ) → holds i (s.claimed w) ≡ true → holds i (s.claimed v) ≡ true → w ≡ v
  pub once : (w : ℕ) → distinct (s.claimed w) ≡ true

idle-append :
    (i : ℕ) (rows : List Row) (r : Row)
    → idle i (rows ++ r ∷ []) ≡ (idle i rows || (with_id i r && is_pending r.status))
unfolding idle
idle-append i [] r = ground arith
idle-append i (x ∷ rows) r = ground (arith, idle-append i rows r)

same_id : (i j : ℕ) (rows : List Row) → (i == j) ≡ true → holds i rows ≡ holds j rows
same_id i j rows h = rw ((==_iff i j).0 h) refl

-- Claims leave a table in which what was not pending is not pending.
claim_keeps :
    (worker : Text) (i j : ℕ) (rows : List Row)
    → idle j rows ≡ false
    → idle j (claim_row worker i rows).1 ≡ false
claim_keeps worker i j rows h = ground (arith, idle-claim worker i j rows)

rest_distinct : (r : Row) (rest : List Row) → distinct (r ∷ rest) ≡ true → distinct rest ≡ true
unfolding distinct
rest_distinct r rest h = ground arith

module _ (f : ℕ → List Row) (w v i : ℕ) where
  gained :
      (r : Row) → holds i (at w (f w ++ r ∷ []) f v) ≡ (holds i (f v) || (v == w && with_id i r))
  gained r = elim (Bool-cases (v == w)) [
    | inl e ↦ rw ((==_iff v w).0 e) (ground (arith, holds-append i (f w) r))
    | inr e ↦ rw e (ground arith)
  ]

  finished :
      (r : Row) (rest : List Row)
      → f w ≡ r ∷ rest
      → holds i (f v) ≡ ((v == w && with_id i r) || holds i (at w rest f v))
  unfolding holds
  finished r rest h = elim (Bool-cases (v == w)) [
    | inl e ↦ rw ((==_iff v w).0 e) (rw h (ground arith))
    | inr e ↦ rw e (ground arith)
  ]

module _ (name : ℕ → Text) (s : System) (x : KeepsApart s) where
  free :
      (r : Row) (v i : ℕ)
      → idle r.id s.rows ≡ true
      → with_id i r ≡ true
      → holds i (s.claimed v) ≡ false
  free r v i pending e = ground (arith, x.owned v r.id, same_id r.id i (s.claimed v) e)

  -- A worker gets a message that nobody holds.
  claimed-KeepsApart :
      (w : ℕ) (r : Row) (rest : List Row)
      → ltb 0 (claim_row (name w) r.id s.rows).0 ≡ true
      → KeepsApart (record {
        rows = (claim_row (name w) r.id s.rows).1;
        selected = at w rest s.selected;
        claimed = at w (s.claimed w ++ r ∷ []) s.claimed;
      })
  claimed-KeepsApart w r rest won =
      let pending = sym (claim_affects (name w) r.id s.rows) ∙ won in
      record {
        owned = λ v i h.
            ground
              (arith, gained s.claimed w v i r, idle-claim (name w) r.id i s.rows, x.owned v i);
        alone = λ u v i h k. ground (
          arith,
          gained s.claimed w u i r,
          gained s.claimed w v i r,
          x.alone u v i,
          free r u i pending,
          free r v i pending,
        );
        once = λ v. elim (Bool-cases (v == w)) [
          | inl e ↦ rw e (
              rw (distinct-append (s.claimed w) r)
                (ground (arith, x.once w, free r w r.id pending ((==_iff r.id r.id).1 refl))))
          | inr e ↦ rw e (x.once v)
        ];
      }

  -- What stays claimed has another id than what is finished.
  not_finished :
      (w v i : ℕ) (r : Row) (rest : List Row)
      → s.claimed w ≡ r ∷ rest
      → holds i (at w rest s.claimed v) ≡ true
      → (r.id == i) ≡ false
  unfolding holds distinct
  not_finished w v i r rest h k =
      let mine = subst (λ l. distinct l ≡ true) h (x.once w) in
      elim (Bool-cases (v == w)) [
        | inl e ↦ ground (arith, rw e at k, same_id r.id i rest, mine)
        | inr e ↦
            ground (arith, rw e at k, finished s.claimed w w i r rest h, x.alone v w i, ==_iff w w)
      ]

  finished-KeepsApart :
      (w now : ℕ) (r : Row) (rest : List Row) (stored : Bool) (result : Option Text)
      → s.claimed w ≡ r ∷ rest
      → KeepsApart
          (record s { rows = finish_one stored now r result s.rows; claimed = at w rest s.claimed })
  finished-KeepsApart w now r rest stored result h = record {
    owned = λ v i k. ground (
      arith,
      not_finished w v i r rest h k,
      idle-finish stored now i r result s.rows,
      finished s.claimed w v i r rest h,
      x.owned v i,
    );
    alone = λ u v i k l. ground (
      arith,
      finished s.claimed w u i r rest h,
      finished s.claimed w v i r rest h,
      x.alone u v i,
    );
    once = λ v. elim (Bool-cases (v == w)) [
      | inl e ↦ rw e (rest_distinct r rest (subst (λ l. distinct l ≡ true) h (x.once w)))
      | inr e ↦ rw e (x.once v)
    ];
  }

-- The table after a claim that gave nothing, or an insert, with the claims as they were.
other-KeepsApart :
    (s : System) (rows : List Row) (selected : ℕ → List Row)
    → ((w i : ℕ) → holds i (s.claimed w) ≡ true → idle i rows ≡ false)
    → KeepsApart s
    → KeepsApart (record { rows = rows; selected = selected; claimed = s.claimed })
other-KeepsApart s rows selected owned x = record { owned = owned; alone = x.alone; once = x.once }

claim_error_keeps :
    (ran : Bool) (worker : Text) (i j : ℕ) (rows : List Row)
    → idle j rows ≡ false
    → idle j (if ran then (claim_row worker i rows).1 else rows) ≡ false
claim_error_keeps true worker i j rows h = claim_keeps worker i j rows h
claim_error_keeps false worker i j rows h = h

Step-KeepsApart : (name : ℕ → Text) {s t : System} → Step name s t → KeepsApart s → KeepsApart t
Step-KeepsApart name {s} (select w now batch_size _ _) x = other-KeepsApart s s.rows _ x.owned x
Step-KeepsApart name {s} (claim w r rest _ won) x = claimed-KeepsApart name s x w r rest won
Step-KeepsApart name {s} (claim_late w r rest _ _) x =
    other-KeepsApart s _ _ (λ v i h. claim_keeps (name w) r.id i s.rows (x.owned v i h)) x
Step-KeepsApart name {s} (claim_error w r rest ran _) x =
    other-KeepsApart s _ _ (λ v i h. claim_error_keeps ran (name w) r.id i s.rows (x.owned v i h)) x
Step-KeepsApart name {s} (finish w now r rest stored result _ h) x =
    finished-KeepsApart name s x w now r rest stored result h
Step-KeepsApart name {s} (insert r fresh) x =
    other-KeepsApart s _ s.selected
      (λ v i h.
        ground
          (arith, idle-append i s.rows r, x.owned v i h, fresh v, same_id r.id i (s.claimed v)))
      x

Reach-KeepsApart :
    (name : ℕ → Text) {s t : System} → ((w : ℕ) → s.claimed w ≡ []) → Reach name s t → KeepsApart t
unfolding holds distinct
Reach-KeepsApart name {s} none_claimed here = record {
  owned = λ w i h. ground (arith, none_claimed w);
  alone = λ w v i h k. ground (arith, none_claimed w);
  once = λ w. ground (arith, none_claimed w);
}
Reach-KeepsApart name none_claimed (next r st) =
    Step-KeepsApart name st (Reach-KeepsApart name none_claimed r)

-- No message is in the hands of two workers, or twice in those of one, and none that is in a
-- worker's hands is pending.
pub record IsExclusive (s : System) : Type 0 where
  pub owned : (w i : ℕ) → (holds i (s.claimed w) && idle i s.rows) ≡ false
  pub alone : (w v i : ℕ) → (holds i (s.claimed w) && holds i (s.claimed v) && not (w == v)) ≡ false
  pub once : (w : ℕ) → distinct (s.claimed w) ≡ true

KeepsApart-IsExclusive : (s : System) → KeepsApart s → IsExclusive s
KeepsApart-IsExclusive s x = record {
  owned = λ w i. ground (arith, x.owned w i);
  alone = λ w v i. ground (arith, x.alone w v i);
  once = x.once;
}

-- From a start at which no worker has claimed anything, whatever the interleaving of the workers'
-- selects, claims and updates, with errors, and of inserts: a message is never in the hands of two
-- workers or twice in those of one, and while it is in some worker's hands it is not pending.
pub Reach-IsExclusive :
    (name : ℕ → Text) {s t : System} → ((w : ℕ) → s.claimed w ≡ []) → Reach name s t → IsExclusive t
Reach-IsExclusive name {s} {t} none_claimed r =
    KeepsApart-IsExclusive t (Reach-KeepsApart name none_claimed r)
