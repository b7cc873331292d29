-- ===== src/Auth/Lists.antt =====
-- internal/platform/auth/apikey.go, parseJSONArr: how a column that holds a JSON array of strings is
-- read. A text is its code points.
pub mod Reading
use ykt_aisaas.Base.{
  ℕ, suc, ◌≡◌, ◌≢◌, refl, sym, ap, ◌∙◌, Bool, true, false, not, ◌&&◌, ◌||◌, inl, inr, Bool-cases,
  ltb, leb, ◌==◌, ==_iff, List, [], ◌∷◌, ◌++◌, map, arith, Text, codes, All, if◌then◌else◌,
  is_space, trim,
}

abbrev pub is_quote : ℕ → Bool
is_quote c = c == 34

-- strings.TrimPrefix and TrimSuffix, by one code point
trim_prefix : ℕ → Text → Text
trim_prefix x [] = []
trim_prefix x (c ∷ s) = if c == x then s else c ∷ s

trim_suffix : ℕ → Text → Text
trim_suffix x [] = []
trim_suffix x (c ∷ []) = if c == x then [] else c ∷ []
trim_suffix x (c ∷ d ∷ s) = c ∷ trim_suffix x (d ∷ s)

-- strings.Split, by one code point
on_head : ℕ → List Text → List Text
on_head c [] = (c ∷ []) ∷ []
on_head c (t ∷ ts) = (c ∷ t) ∷ ts

split : ℕ → Text → List Text
unfolding on_head
split x [] = [] ∷ []
split x (c ∷ s) = let rest = split x s in if c == x then [] ∷ rest else on_head c rest

-- The loop over the parts
keep_part : Text → List Text → List Text
keep_part [] out = out
keep_part (c ∷ t) out = (c ∷ t) ∷ out

keep_parts : List Text → List Text
unfolding trim keep_part
keep_parts [] = []
keep_parts (p ∷ ps) = keep_part (trim is_quote (trim is_space p)) (keep_parts ps)

parse_inner : Text → List Text
unfolding split keep_parts
parse_inner [] = []
parse_inner (c ∷ s) = keep_parts (split 44 (c ∷ s))

-- parseJSONArr
unfoldable pub parse_json_arr : Text → List Text
unfolding parse_inner trim trim_prefix trim_suffix
parse_json_arr s = parse_inner (trim_suffix 93 (trim_prefix 91 (trim is_space s)))
