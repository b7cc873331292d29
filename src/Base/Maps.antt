-- ===== src/Base/Maps.antt =====
-- Maps from texts, as association lists that hold a key once.
use mathlib.Core.Path.{◌≡◌, refl, ◌∙◌}
use mathlib.Core.Logic.{inl, inr}
use mathlib.Core.Bool.{false}
use mathlib.Core.Option.{Option, none, some}
use mathlib.Core.List.{List, [], ◌∷◌}
use native.Mathlib.Omega.{arith}
use ykt_aisaas.Base.Tests.{if◌then◌else◌, Bool-cases}
use ykt_aisaas.Base.Texts.{Text, text_eq, text_eq_iff, text_eq_refl}

abbrev pub Assoc {ℓ} : Type ℓ → Type ℓ
Assoc V = List (Text × V)

module _ {ℓ} {V : Type ℓ} where
  unfoldable pub lookup : Text → Assoc V → Option V
  lookup k [] = none
  lookup k ((j, v) ∷ m) = let rest = lookup k m in if text_eq k j then some v else rest

  unfoldable pub remove : Text → Assoc V → Assoc V
  remove k [] = []
  remove k ((j, v) ∷ m) = let rest = remove k m in if text_eq k j then rest else (j, v) ∷ rest

  unfoldable pub put : Text → V → Assoc V → Assoc V
  unfolding remove
  put k v m = (k, v) ∷ remove k m

  pub lookup-remove :
      (j k : Text) (m : Assoc V)
      → lookup j (remove k m) ≡ (if text_eq j k then none else lookup j m)
  unfolding lookup remove
  lookup-remove j k [] = elim (Bool-cases (text_eq j k)) [
    | inl same ↦ rw same refl
    | inr other ↦ rw other refl
  ]
  lookup-remove j k ((i, v) ∷ m) = elim (Bool-cases (text_eq k i)) [
    | inl gone ↦ elim (Bool-cases (text_eq j k)) [
      | inl same ↦ rw (gone, same) (lookup-remove j k m ∙ rw same refl)
      | inr other ↦
          let differs : text_eq j i ≡ false = rw (← (text_eq_iff k i).0 gone) other in
          rw (gone, other, differs) (lookup-remove j k m ∙ rw other refl)
    ]
    | inr kept ↦ elim (Bool-cases (text_eq j i)) [
      | inl here ↦
          let differs : text_eq j k ≡ false =
            ground (arith, text_eq_iff k i, text_eq_iff j i, text_eq_iff j k) in
          rw (kept, here, differs) refl
      | inr later ↦ rw (kept, later) (lookup-remove j k m)
    ]
  ]

  pub lookup-put :
      (j k : Text) (v : V) (m : Assoc V)
      → lookup j (put k v m) ≡ (if text_eq j k then some v else lookup j m)
  unfolding lookup put
  lookup-put j k v m = elim (Bool-cases (text_eq j k)) [
    | inl same ↦ rw same refl
    | inr other ↦ rw other (lookup-remove j k m ∙ rw other refl)
  ]

  -- Each key stands once.
  abbrev pub IsDistinct : Assoc V → Type ℓ
  IsDistinct [] = Unit
  IsDistinct ((k, v) ∷ m) = (lookup k m ≡ none) × IsDistinct m

  pub remove-IsDistinct : (k : Text) (m : Assoc V) → IsDistinct m → IsDistinct (remove k m)
  unfolding remove
  remove-IsDistinct k [] h = tt
  remove-IsDistinct k ((i, v) ∷ m) h = elim (Bool-cases (text_eq k i)) [
    | inl gone ↦ rw gone (remove-IsDistinct k m h.1)
    | inr kept ↦ rw kept (absent, remove-IsDistinct k m h.1)
  ]
    where
      absent : lookup i (remove k m) ≡ none
      absent = elim (Bool-cases (text_eq i k)) [
        | inl same ↦ rw (lookup-remove i k m, same) refl
        | inr other ↦ rw (lookup-remove i k m, other) h.0
      ]

  pub put-IsDistinct : (k : Text) (v : V) (m : Assoc V) → IsDistinct m → IsDistinct (put k v m)
  unfolding put
  put-IsDistinct k v m h = (rw (lookup-remove k k m, text_eq_refl) refl, remove-IsDistinct k m h)
