-- ===== src/AbTest/Updates.antt =====
-- The statements of service.go: what an UPDATE does to the rows of the table of experiments.
use ykt_aisaas.Base.{
  ℕ, ◌≡◌, refl, ap, ◌∙◌, ==_iff, Bool, true, false, not, ◌&&◌, ◌||◌, inl, inr, Bool-cases, some,
  List, [], ◌∷◌, arith, All, subst,
}
use ykt_aisaas.AbTest.{Experiment, load_experiment, update_where, with_id}

-- The ids of a table are distinct.
unfoldable pub has_id : ℕ → List Experiment → Bool
has_id i [] = false
has_id i (e ∷ rows) = with_id i e || has_id i rows

abbrev pub is_distinct : List Experiment → Bool
is_distinct [] = true
is_distinct (e ∷ rows) = not (has_id e.id rows) && is_distinct rows

pub has_id-update :
    (j : ℕ) (p : Experiment → Bool) (f : Experiment → Experiment) (rows : List Experiment)
    → ((e : Experiment) → (f e).id ≡ e.id)
    → has_id j (update_where p f rows).1 ≡ has_id j rows
unfolding has_id update_where
has_id-update j p f [] keeps = refl
has_id-update j p f (e ∷ rows) keeps = ground (arith, keeps e, has_id-update j p f rows keeps)

pub is_distinct-update :
    (p : Experiment → Bool) (f : Experiment → Experiment) (rows : List Experiment)
    → ((e : Experiment) → (f e).id ≡ e.id)
    → is_distinct (update_where p f rows).1 ≡ is_distinct rows
unfolding update_where
is_distinct-update p f [] keeps = refl
is_distinct-update p f (e ∷ rows) keeps = elim (Bool-cases (p e)) [
  | inl hit ↦
      rw (hit, keeps e, has_id-update e.id p f rows keeps, is_distinct-update p f rows keeps) refl
  | inr miss ↦ rw (miss, has_id-update e.id p f rows keeps, is_distinct-update p f rows keeps) refl
]

pub update_absent :
    (i : ℕ) (f : Experiment → Experiment) (rows : List Experiment)
    → has_id i rows ≡ false
    → (update_where (with_id i) f rows).1 ≡ rows
unfolding has_id update_where
update_absent i f [] h = refl
update_absent i f (e ∷ rows) h = ground (arith, update_absent i f rows)

-- An UPDATE of the row that was loaded.
pub update_loaded :
    (P : Experiment → Type 0) (i : ℕ) (f : Experiment → Experiment) (rows : List Experiment)
    (exp : Experiment)
    → load_experiment true i rows ≡ some exp
    → is_distinct rows ≡ true
    → (P exp → P (f exp))
    → All P rows
    → All P (update_where (with_id i) f rows).1
unfolding load_experiment update_where
update_loaded P i f [] exp loaded apart step h = h
update_loaded P i f (e ∷ rows) exp loaded apart step h = elim (Bool-cases (with_id i e)) [
  | inl hit ↦
      let same : e ≡ exp = ground (arith, hit) in
      let alone : has_id i rows ≡ false = ground (arith, (==_iff e.id i).0 hit) in
      rw (hit, update_absent i f rows alone, same) (step (subst P same h.0), h.1)
  | inr miss ↦
      let rest : load_experiment true i rows ≡ some exp = ground (arith, miss) in
      rw miss (h.0, update_loaded P i f rows exp rest (ground arith) step h.1)
]

pub update-All :
    (P : Experiment → Type 0) (p : Experiment → Bool) (f : Experiment → Experiment)
    (rows : List Experiment)
    → ((e : Experiment) → p e ≡ true → P e → P (f e))
    → All P rows
    → All P (update_where p f rows).1
unfolding update_where
update-All P p f [] step h = h
update-All P p f (e ∷ rows) step h = elim (Bool-cases (p e)) [
  | inl hit ↦ rw hit (step e hit h.0, update-All P p f rows step h.1)
  | inr miss ↦ rw miss (h.0, update-All P p f rows step h.1)
]

pub load_first :
    (i : ℕ) (e : Experiment) (rows : List Experiment)
    → with_id i e ≡ true
    → load_experiment true i (e ∷ rows) ≡ some e
unfolding load_experiment
load_first i e rows mine = rw mine refl

pub load_later :
    (i : ℕ) (e : Experiment) (rows : List Experiment)
    → with_id i e ≡ false
    → load_experiment true i (e ∷ rows) ≡ load_experiment true i rows
unfolding load_experiment
load_later i e rows other_row = rw other_row refl

-- What an UPDATE by id makes of the row that a SELECT by id finds.
pub load-update :
    (p : Experiment → Bool) (f : Experiment → Experiment) (i : ℕ) (rows : List Experiment)
    (exp : Experiment)
    → ((e : Experiment) → (f e).id ≡ e.id)
    → load_experiment true i rows ≡ some exp
    → p exp ≡ true
    → load_experiment true i (update_where p f rows).1 ≡ some (f exp)
unfolding load_experiment update_where
load-update p f i [] exp keeps found hit = ground arith
load-update p f i (e ∷ rows) exp keeps found hit = elim (Bool-cases (with_id i e)) [
  | inl mine ↦
      let same : e ≡ exp = ground (arith, mine) in
      let hit_e : p e ≡ true = rw same hit in
      let mine' : with_id i (f e) ≡ true = simp (keeps e) mine in
      rw hit_e (load_first i (f e) _ mine' ∙ ap (λ (x : Experiment). some (f x)) same)
  | inr other_row ↦
      let rest : load_experiment true i rows ≡ some exp = ground (arith, other_row) in
      let later = load-update p f i rows exp keeps rest hit in
      elim (Bool-cases (p e)) [
        | inl touched ↦ rw touched (load_later i (f e) _ (simp (keeps e) other_row) ∙ later)
        | inr untouched ↦ rw (untouched, other_row) later
      ]
]

pub loaded_id :
    (i : ℕ) (rows : List Experiment) (exp : Experiment)
    → load_experiment true i rows ≡ some exp
    → with_id i exp ≡ true
unfolding load_experiment
loaded_id i [] exp found = ground arith
loaded_id i (e ∷ rows) exp found = elim (Bool-cases (with_id i e)) [
  | inl mine ↦ let same : e ≡ exp = ground (arith, mine) in rw (← same) mine
  | inr other_row ↦ loaded_id i rows exp (ground (arith, other_row))
]
