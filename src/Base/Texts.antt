-- ===== src/Base/Texts.antt =====
-- Text as a list of code points, its equality test, and the decimal form of a number (`%d`).
use Prim.Native.Nat.{ℕ, zero, suc, ◌+◌, ◌*◌, ◌-◌, ◌/◌, ◌%◌, ◌≤◌, ◌<◌}
use Prim.Native.Char.{code}
use Prim.Native.String.{String}
use mathlib.Core.Path.{◌≡◌, refl, ap, sym, subst, ◌∙◌}
use mathlib.Core.Logic.{◌≢◌, ◌↔◌, inl, inr}
use mathlib.Core.Bool.{Bool, true, false, ◌&&◌}
use mathlib.Core.List.{List, [], ◌∷◌, ◌++◌}
use native.Mathlib.Omega.{arith}
use ykt_aisaas.Base.Tests.{ltb, ◌==◌, Bool-cases}
use ykt_aisaas.Base.Lists.{All, All-append}

abbrev pub Text : Type 0
Text = List ℕ

-- The code points of a literal: its bytes, if it is ASCII.
abbrev pub codes : String → Text
codes String.[] = []
codes (String.◌∷◌ c s) = code c ∷ codes s

unfoldable pub text_eq : Text → Text → Bool
text_eq [] [] = true
text_eq [] (b ∷ t) = false
text_eq (a ∷ s) [] = false
text_eq (a ∷ s) (b ∷ t) = a == b && text_eq s t

pub text_eq_iff : (s t : Text) → (text_eq s t ≡ true) ↔ (s ≡ t)
unfolding text_eq
text_eq_iff [] [] = ground arith
text_eq_iff [] (b ∷ t) = ground arith
text_eq_iff (a ∷ s) [] = ground arith
text_eq_iff (a ∷ s) (b ∷ t) = ground (arith, text_eq_iff s t)

pub text_eq_refl : (s : Text) → text_eq s s ≡ true
text_eq_refl s = (text_eq_iff s s).1 refl

pub text_eq_ne : (s t : Text) → s ≢ t → text_eq s t ≡ false
text_eq_ne s t h = ground (arith, text_eq_iff s t)

-- The decimal digits of a number, most significant first; the fuel `n + 1` is enough for `n`.
unfoldable pub decimal_fuel : ℕ → ℕ → Text
decimal_fuel zero n = []
decimal_fuel (suc f) n = elim (ltb n 10) [
  | true ↦ (48 + n) ∷ []
  | false ↦ decimal_fuel f (n / 10) ++ (48 + n % 10) ∷ []
]

unfoldable pub decimal : ℕ → Text
unfolding decimal_fuel
decimal n = decimal_fuel (suc n) n

-- The number that decimal digits stand for.
read_from : ℕ → Text → ℕ
read_from acc [] = acc
read_from acc (c ∷ t) = read_from (acc * 10 + (c - 48)) t

read_from-append :
    (acc : ℕ) (s : Text) (c : ℕ) → read_from acc (s ++ c ∷ []) ≡ read_from acc s * 10 + (c - 48)
unfolding read_from
read_from-append acc [] c = refl
read_from-append acc (d ∷ s) c = read_from-append (acc * 10 + (d - 48)) s c

read-decimal_fuel : (f n : ℕ) → n < f → read_from 0 (decimal_fuel f n) ≡ n
unfolding decimal_fuel read_from
read-decimal_fuel zero n h = elim h [ ]
read-decimal_fuel (suc f) n h = ground (
  arith,
  read-decimal_fuel f (n / 10),
  read_from-append 0 (decimal_fuel f (n / 10)) (48 + n % 10),
)

read-decimal : (n : ℕ) → read_from 0 (decimal n) ≡ n
unfolding decimal
read-decimal n = read-decimal_fuel (suc n) n (omega arith)

pub decimal-injective : (m n : ℕ) → decimal m ≡ decimal n → m ≡ n
decimal-injective m n h = sym (read-decimal m) ∙ (ap (read_from 0) h ∙ read-decimal n)

abbrev pub IsDigit : ℕ → Type 0
IsDigit c = (48 ≤ c) × (c ≤ 57)

pub decimal_fuel_small : (f n : ℕ) → ltb n 10 ≡ true → decimal_fuel (suc f) n ≡ (48 + n) ∷ []
unfolding decimal_fuel
decimal_fuel_small f n h = ground arith

pub decimal_fuel_large :
    (f n : ℕ)
    → ltb n 10 ≡ false
    → decimal_fuel (suc f) n ≡ decimal_fuel f (n / 10) ++ (48 + n % 10) ∷ []
unfolding decimal_fuel
decimal_fuel_large f n h = ground arith

All-digits-decimal_fuel : (f n : ℕ) → All IsDigit (decimal_fuel f n)
All-digits-decimal_fuel zero n = unfold decimal_fuel in tt
All-digits-decimal_fuel (suc f) n = elim (Bool-cases (ltb n 10)) [
  | inl small ↦ subst (λ t. All IsDigit t) (sym (decimal_fuel_small f n small)) (ground arith, tt)
  | inr large ↦
      subst (λ t. All IsDigit t) (sym (decimal_fuel_large f n large))
        (All-append IsDigit (decimal_fuel f (n / 10)) ((48 + n % 10) ∷ [])
          (All-digits-decimal_fuel f (n / 10)) (omega arith, tt))
]

pub All-digits-decimal : (n : ℕ) → All IsDigit (decimal n)
unfolding decimal
All-digits-decimal n = All-digits-decimal_fuel (suc n) n

-- A text without the separator `:` (58) ends where the first separator stands.
abbrev pub NoColon : Text → Type 0
NoColon = All (λ c. c ≢ 58)

pub All-digits-NoColon : (s : Text) → All IsDigit s → NoColon s
All-digits-NoColon [] h = tt
All-digits-NoColon (c ∷ s) h = (omega arith, All-digits-NoColon s h.1)

-- Two texts with a separator, which neither has before it, are split by it alike.
pub split_at :
    (x : ℕ) (s t u v : Text)
    → All (λ c. c ≢ x) s
    → All (λ c. c ≢ x) t
    → s ++ (x ∷ u) ≡ t ++ (x ∷ v)
    → (s ≡ t) × (u ≡ v)
split_at x [] [] u v hs ht e = ground arith
split_at x [] (b ∷ t) u v hs ht e = absurd (ground arith)
split_at x (a ∷ s) [] u v hs ht e = absurd (ground arith)
split_at x (a ∷ s) (b ∷ t) u v hs ht e = ground (arith, split_at x s t u v hs.1 ht.1 (ground arith))

pub split_at_colon :
    (s t u v : Text) → NoColon s → NoColon t → s ++ (58 ∷ u) ≡ t ++ (58 ∷ v) → (s ≡ t) × (u ≡ v)
split_at_colon = split_at 58

pub append-cancel : (p s t : Text) → p ++ s ≡ p ++ t → s ≡ t
append-cancel [] s t e = e
append-cancel (c ∷ p) s t e = append-cancel p s t (ground arith)
