-- ===== src/Base/Lists.antt =====
-- Lists measured by native numbers, predicates on all elements, and sums.
use Prim.Native.Nat.{ℕ, zero, suc, ◌+◌}
use mathlib.Core.Path.{◌≡◌, refl, ap}
use mathlib.Core.List.{List, [], ◌∷◌, ◌++◌, Memᴰ}
use mathlib.Core.List.Memᴰ.{head, tail}
use mathlib.Core.Bool.{Bool, true}
use mathlib.Core.Logic.{◌⊎◌, inl, inr}
use native.Mathlib.Omega.{arith}
use ykt_aisaas.Base.Tests.{if◌then◌else◌, Bool-cases}

module _ {ℓ} {A : Type ℓ} where
  abbrev pub length : List A → ℕ
  length [] = 0
  length (x ∷ xs) = suc (length xs)

  pub length-append : (xs ys : List A) → length (xs ++ ys) ≡ length xs + length ys
  length-append [] ys = omega arith
  length-append (x ∷ xs) ys = omega (arith, length-append xs ys)

  pub append_assoc : (xs ys zs : List A) → (xs ++ ys) ++ zs ≡ xs ++ (ys ++ zs)
  append_assoc [] ys zs = refl
  append_assoc (x ∷ xs) ys zs = ap (λ t. x ∷ t) (append_assoc xs ys zs)

  pub append_nil : (xs : List A) → xs ++ [] ≡ xs
  append_nil [] = refl
  append_nil (x ∷ xs) = ap (λ t. x ∷ t) (append_nil xs)

  abbrev pub take : ℕ → List A → List A
  take zero xs = []
  take (suc n) [] = []
  take (suc n) (x ∷ xs) = x ∷ take n xs

  abbrev pub drop : ℕ → List A → List A
  drop zero xs = xs
  drop (suc n) [] = []
  drop (suc n) (x ∷ xs) = drop n xs

  -- A test keeps the elements that pass it (the library's `filter` takes a decision).
  abbrev pub filter : (A → Bool) → List A → List A
  filter p [] = []
  filter p (x ∷ xs) = if p x then x ∷ filter p xs else filter p xs

abbrev pub All {ℓ κ} : {A : Type ℓ} → (A → Type κ) → List A → Type κ
All P [] = Unit
All P (x ∷ xs) = P x × All P xs

pub All-append {ℓ κ} :
    {A : Type ℓ} (P : A → Type κ) (xs ys : List A) → All P xs → All P ys → All P (xs ++ ys)
All-append P [] ys hx hy = hy
All-append P (x ∷ xs) ys hx hy = (hx.0, All-append P xs ys hx.1 hy)

module _ {ℓ} {A : Type ℓ} where
  -- Out of range reads give the default.
  abbrev pub get_or : List A → ℕ → A → A
  get_or [] i d = d
  get_or (x ∷ xs) zero d = x
  get_or (x ∷ xs) (suc i) d = get_or xs i d

pub All-take {ℓ κ} :
    {A : Type ℓ} (P : A → Type κ) (n : ℕ) (xs : List A) → All P xs → All P (take n xs)
All-take P zero xs h = tt
All-take P (suc n) [] h = tt
All-take P (suc n) (x ∷ xs) h = (h.0, All-take P n xs h.1)

-- What a filter keeps has the property that its test decides.
pub All-filter {ℓ κ} :
    {A : Type ℓ} (P : A → Type κ) (p : A → Bool) (xs : List A)
    → ((x : A) → p x ≡ true → P x)
    → All P (filter p xs)
All-filter P p [] h = tt
All-filter P p (x ∷ xs) h = elim (Bool-cases (p x)) [
  | inl kept ↦ rw kept (h x kept, All-filter P p xs h)
  | inr dropped ↦ rw dropped (All-filter P p xs h)
]

-- Members of a list with one more at its end.
module _ {ℓ} {A : Type ℓ} where
  pub Mem-append_left : (a : A) (xs ys : List A) → Memᴰ a xs → Memᴰ a (xs ++ ys)
  Mem-append_left a [] ys m = elim m [ ]
  Mem-append_left a (x ∷ xs) ys (head e) = head e
  Mem-append_left a (x ∷ xs) ys (tail m) = tail (Mem-append_left a xs ys m)

  pub Mem-append_last : (a : A) (xs : List A) → Memᴰ a (xs ++ a ∷ [])
  Mem-append_last a [] = head refl
  Mem-append_last a (x ∷ xs) = tail (Mem-append_last a xs)

  pub Mem_of_append_last : (a b : A) (xs : List A) → Memᴰ a (xs ++ b ∷ []) → Memᴰ a xs ⊎ (a ≡ b)
  Mem_of_append_last a b [] (head e) = inr e
  Mem_of_append_last a b [] (tail m) = elim m [ ]
  Mem_of_append_last a b (x ∷ xs) (head e) = inl (head e)
  Mem_of_append_last a b (x ∷ xs) (tail m) = elim (Mem_of_append_last a b xs m) [
    | inl before ↦ inl (tail before)
    | inr last ↦ inr last
  ]
