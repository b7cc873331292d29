-- ===== src/Base/Trim.antt =====
-- How strings.TrimSpace and Trim cut a text, and the spaces of unicode.IsSpace.
use Prim.Native.Nat.{ℕ, suc, ◌≤◌}
use mathlib.Core.Bool.{Bool, true, false, ◌&&◌, ◌||◌}
use mathlib.Core.List.{[], ◌∷◌}
use native.Mathlib.Omega.{arith}
use ykt_aisaas.Base.Tests.{leb, ◌==◌, if◌then◌else◌}
use ykt_aisaas.Base.Lists.{length}
use ykt_aisaas.Base.Texts.{Text}

abbrev pub is_space : ℕ → Bool
is_space c =
    (leb 9 c && leb c 13)
    || c == 32
    || c == 133
    || c == 160
    || c == 5760
    || (leb 8192 c && leb c 8202)
    || c == 8232
    || c == 8233
    || c == 8239
    || c == 8287
    || c == 12288

-- strings.TrimFunc, as TrimSpace and Trim use it
unfoldable pub trim_start : (ℕ → Bool) → Text → Text
trim_start p [] = []
trim_start p (c ∷ s) = let rest = trim_start p s in if p c then rest else c ∷ s

unfoldable pub keep_end : Bool → ℕ → Text → Text
keep_end drops c [] = if drops then [] else c ∷ []
keep_end drops c (d ∷ s) = c ∷ d ∷ s

unfoldable pub trim_end : (ℕ → Bool) → Text → Text
unfolding keep_end
trim_end p [] = []
trim_end p (c ∷ s) = keep_end (p c) c (trim_end p s)

unfoldable pub trim : (ℕ → Bool) → Text → Text
unfolding trim_start trim_end
trim p s = trim_end p (trim_start p s)

length-trim_start : (p : ℕ → Bool) (s : Text) → length (trim_start p s) ≤ length s
unfolding trim_start
length-trim_start p [] = omega arith
length-trim_start p (c ∷ s) = ground (arith, length-trim_start p s)

length-keep_end : (b : Bool) (c : ℕ) (s : Text) → length (keep_end b c s) ≤ suc (length s)
unfolding keep_end
length-keep_end true c [] = omega arith
length-keep_end false c [] = omega arith
length-keep_end b c (d ∷ s) = omega arith

length-trim_end : (p : ℕ → Bool) (s : Text) → length (trim_end p s) ≤ length s
unfolding trim_end
length-trim_end p [] = omega arith
length-trim_end p (c ∷ s) =
    omega (arith, length-keep_end (p c) c (trim_end p s), length-trim_end p s)

pub length-trim : (p : ℕ → Bool) (s : Text) → length (trim p s) ≤ length s
unfolding trim
length-trim p s = omega (arith, length-trim_end p (trim_start p s), length-trim_start p s)
