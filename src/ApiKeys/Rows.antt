-- ===== src/ApiKeys/Rows.antt =====
-- Lookups in the table of keys, before and after an UPDATE.
use ykt_aisaas.Database.{Scope}
use ykt_aisaas.Base.{
  ℕ, ◌≡◌, refl, ap, subst, ◌∙◌, Bool, true, false, not, ◌&&◌, inl, inr, Bool-cases, some, List, [],
  ◌∷◌, ◌==◌, Text, text_eq, text_eq_refl, All, arith, if◌then◌else◌,
}
use ykt_aisaas.Auth.{find_key}
use ykt_aisaas.ApiKeys.{KeyDo, key_row, key_rows, sees, get_by_id, update_where}

-- What a SELECT by id finds.
abbrev pub Found : Scope → ℕ → KeyDo → Type 0
Found sc id row = ((row.id == id) ≡ true) × (row.is_deleted ≡ false) × (sees sc row ≡ true)

pub get_by_id-Found :
    (sc : Scope) (id : ℕ) (rows : List KeyDo) (row : KeyDo)
    → get_by_id sc id rows ≡ some row
    → Found sc id row
unfolding get_by_id
get_by_id-Found sc id [] row h = absurd (ground (arith, h))
get_by_id-Found sc id (r ∷ rows) row h =
    here ((r.id == id && not r.is_deleted) && sees sc r) refl (get_by_id-Found sc id rows row) h
  where
    here :
        (test : Bool)
        → ((r.id == id && not r.is_deleted) && sees sc r) ≡ test
        → (get_by_id sc id rows ≡ some row → Found sc id row)
        → (if test then some r else get_by_id sc id rows) ≡ some row
        → Found sc id row
    here true e later h =
        let same : r ≡ row = ground (arith, h) in
        subst (λ q. Found sc id q) same (parts (r.id == id) r.is_deleted (sees sc r) e)
      where
        parts : (a d s : Bool) → ((a && not d) && s) ≡ true → (a ≡ true) × (d ≡ false) × (s ≡ true)
        parts a d s e = ground (arith, e)
    here false e later h = later h

-- The hash of a key is a unique column.
abbrev pub IsOnly : KeyDo → List KeyDo → Type 0
IsOnly row rows = All (λ r. text_eq r.api_key_hash row.api_key_hash ≡ true → r ≡ row) rows

-- An UPDATE that keeps hashes and deletion marks
abbrev pub KeepsKey : (KeyDo → KeyDo) → Type 0
KeepsKey f = (r : KeyDo) → ((f r).api_key_hash ≡ r.api_key_hash) × ((f r).is_deleted ≡ r.is_deleted)

pub find_here :
    (r : KeyDo) (hash : Text) (rows : List KeyDo)
    → r.is_deleted ≡ false
    → text_eq r.api_key_hash hash ≡ true
    → find_key hash (key_rows (r ∷ rows)) ≡ some (key_row r)
unfolding key_rows find_key
find_here r hash rows live same = simp (live, same) refl

pub find_past :
    (r : KeyDo) (hash : Text) (rows : List KeyDo)
    → text_eq r.api_key_hash hash ≡ false
    → find_key hash (key_rows (r ∷ rows)) ≡ find_key hash (key_rows rows)
unfolding key_rows find_key
find_past r hash rows other = elim (Bool-cases r.is_deleted) [
  | inl gone ↦ simp (gone) refl
  | inr live ↦ simp (live, other) refl
]

updated_head :
    (sc : Scope) (id : ℕ) (f : KeyDo → KeyDo) (r : KeyDo)
    → Found sc id r
    → (if r.id == id && sees sc r then f r else r) ≡ f r
updated_head sc id f r (same_id, live, seen) = simp (same_id, seen) refl

hash_kept :
    (f : KeyDo → KeyDo) (r : KeyDo) (b : Bool)
    → KeepsKey f
    → (if b then f r else r).api_key_hash ≡ r.api_key_hash
hash_kept f r true keeps = (keeps r).0
hash_kept f r false keeps = refl

pub find_key-updated :
    (sc : Scope) (id : ℕ) (f : KeyDo → KeyDo) (rows : List KeyDo) (row : KeyDo)
    → KeepsKey f
    → get_by_id sc id rows ≡ some row
    → IsOnly row rows
    → find_key row.api_key_hash (key_rows (update_where sc id f rows)) ≡ some (key_row (f row))
unfolding get_by_id update_where
find_key-updated sc id f [] row keeps h only = absurd (ground (arith, h))
find_key-updated sc id f (r ∷ rows) row keeps h only =
    elim (Bool-cases (text_eq r.api_key_hash row.api_key_hash)) [
      | inl here ↦ first (only.0 here) (get_by_id-Found sc id (r ∷ rows) row h)
      | inr other ↦
          find_past (if r.id == id && sees sc r then f r else r) row.api_key_hash
            (update_where sc id f rows)
            (ap (λ t. text_eq t row.api_key_hash) (hash_kept f r (r.id == id && sees sc r) keeps)
              ∙ other)
          ∙ find_key-updated sc id f rows row keeps
              (not_first other ((r.id == id && not r.is_deleted) && sees sc r) h) only.1
    ]
  where
    next : List KeyDo
    next = update_where sc id f rows

    first :
        r ≡ row
        → Found sc id row
        → find_key row.api_key_hash (key_rows ((if r.id == id && sees sc r then f r else r) ∷ next))
          ≡ some (key_row (f row))
    first same found =
        let head : (if r.id == id && sees sc r then f r else r) ≡ f row =
          ap (λ q. if q.id == id && sees sc q then f q else q) same
          ∙ updated_head sc id f row found in
        ap (λ q. find_key row.api_key_hash (key_rows (q ∷ next))) head
        ∙ find_here (f row) row.api_key_hash next ((keeps row).1 ∙ found.1)
            (ap (λ t. text_eq t row.api_key_hash) (keeps row).0 ∙ text_eq_refl row.api_key_hash)

    not_first :
        text_eq r.api_key_hash row.api_key_hash ≡ false
        → (test : Bool) → (if test then some r else get_by_id sc id rows) ≡ some row
        → get_by_id sc id rows ≡ some row
    not_first other true h =
        let same : r ≡ row = ground (arith, h) in
        let eq : text_eq r.api_key_hash row.api_key_hash ≡ true =
          ap (λ (q : KeyDo). text_eq q.api_key_hash row.api_key_hash) same
          ∙ text_eq_refl row.api_key_hash in
        absurd (ground (arith, other, eq))
    not_first other false h = h
