-- ===== src/Mcp/Connections.antt =====
-- The manager's two maps agree, and no connection is left open outside them.
use mathlib.Core.Option
use ykt_aisaas.Base.{
  ℕ, ◌≤◌, ◌<◌, ◌≡◌, refl, sym, ap, ◌∙◌, ◌==◌, true, false, inl, inr, Bool-cases, none, some, List,
  [], ◌∷◌, Text, text_eq, text_eq_iff, Assoc, lookup, remove, IsDistinct, arith,
}
use ykt_aisaas.Mcp.{Client, Manager, release}

abbrev pub conns_of : Assoc Client → List ℕ
conns_of [] = []
conns_of ((name, c) ∷ clients) = c.conn ∷ conns_of clients

-- Numbers below `n`, the latest first.
abbrev pub IsDescending : ℕ → List ℕ → Type 0
IsDescending n [] = Unit
IsDescending n (i ∷ l) = (i < n) × IsDescending i l

pub record IsSound (m : Manager) : Type 0 where
  pub distinct_clients : IsDistinct m.clients
  pub distinct_configs : IsDistinct m.configs
  pub same_configs :
      (name : Text)
      → lookup name m.configs ≡ Option.map (λ (c : Client). c.cfg) (lookup name m.clients)
  pub no_others : m.opened ≡ conns_of m.clients
  pub numbered : IsDescending m.next (conns_of m.clients)

pub IsDescending-weaken : (n k : ℕ) (l : List ℕ) → n ≤ k → IsDescending n l → IsDescending k l
IsDescending-weaken n k [] le h = tt
IsDescending-weaken n k (i ∷ l) le h = (omega (arith, h.0), h.1)

pub release-fresh : (n i : ℕ) (l : List ℕ) → n ≤ i → IsDescending n l → release i l ≡ l
unfolding release
release-fresh n i [] le h = refl
release-fresh n i (j ∷ l) le h =
    let other : (j == i) ≡ false = ground (arith, h.0) in
    simp (other) (
      ap (λ t. j ∷ t) (release-fresh n i l le (IsDescending-weaken j n l (omega (arith, h.0)) h.1)))

pub release-first : (i : ℕ) (l : List ℕ) → IsDescending i l → release i (i ∷ l) ≡ l
unfolding release
release-first i l h =
    let same : (i == i) ≡ true = ground arith in
    simp (same) (unfold release in release-fresh i i l (omega arith) h)

pub remove-absent : {V : Type 0} (k : Text) (m : Assoc V) → lookup k m ≡ none → remove k m ≡ m
unfolding lookup remove
remove-absent k [] h = refl
remove-absent k ((j, v) ∷ m) h = elim (Bool-cases (text_eq k j)) [
  | inl here ↦ absurd (ground (arith, h, here))
  | inr later ↦
      let absent : lookup k m ≡ none = ground (arith, h, later) in
      rw later (ap (λ t. (j, v) ∷ t) (remove-absent k m absent))
]

pub conn_below :
    (n : ℕ) (k : Text) (clients : Assoc Client) (c : Client)
    → lookup k clients ≡ some c
    → IsDescending n (conns_of clients)
    → c.conn < n
unfolding lookup
conn_below n k [] c h d = absurd (ground (arith, h))
conn_below n k ((j, e) ∷ clients) c h d = elim (Bool-cases (text_eq k j)) [
  | inl here ↦
      let same : e ≡ c = ground (arith, h, here) in rw (← ap (λ (q : Client). q.conn) same) d.0
  | inr later ↦
      let found : lookup k clients ≡ some c = ground (arith, h, later) in
      conn_below n k clients c found
        (IsDescending-weaken e.conn n (conns_of clients) (omega (arith, d.0)) d.1)
]

pub conns_of-remove :
    (n : ℕ) (k : Text) (clients : Assoc Client) (c : Client)
    → lookup k clients ≡ some c
    → IsDistinct clients
    → IsDescending n (conns_of clients)
    → conns_of (remove k clients) ≡ release c.conn (conns_of clients)
unfolding lookup remove
conns_of-remove n k [] c h distinct d = absurd (ground (arith, h))
conns_of-remove n k ((j, e) ∷ clients) c h distinct d = elim (Bool-cases (text_eq k j)) [
  | inl here ↦
      let same : e ≡ c = ground (arith, h, here) in
      let key : k ≡ j = (text_eq_iff k j).0 here in
      rw here (
        ap conns_of (remove-absent k clients (ap (λ t. lookup t clients) key ∙ distinct.0))
        ∙ (sym (release-first e.conn (conns_of clients) d.1)
            ∙ ap (λ (q : Client). release q.conn (e.conn ∷ conns_of clients)) same))
  | inr later ↦
      let found : lookup k clients ≡ some c = ground (arith, h, later) in
      let below : c.conn < e.conn = conn_below e.conn k clients c found d.1 in
      rw later (
        ap (λ t. e.conn ∷ t) (conns_of-remove e.conn k clients c found distinct.1 d.1)
        ∙ sym (skip e.conn c.conn (conns_of clients) below))
]
  where
    skip : (i j : ℕ) (l : List ℕ) → j < i → release j (i ∷ l) ≡ i ∷ release j l
    skip i j l lt =
        let other : (i == j) ≡ false = ground (arith, lt) in unfold release in simp (other) refl

pub release-IsDescending : (n i : ℕ) (l : List ℕ) → IsDescending n l → IsDescending n (release i l)
unfolding release
release-IsDescending n i [] h = tt
release-IsDescending n i (j ∷ l) h = elim (Bool-cases (j == i)) [
  | inl same ↦
      simp (same) (
        IsDescending-weaken j n (release i l) (omega (arith, h.0)) (release-IsDescending j i l h.1))
  | inr other ↦ simp (other) (h.0, release-IsDescending j i l h.1)
]
