-- ===== src/Auth/Lists/Reading.antt =====
-- What parseJSONArr of apikey.go reads of the arrays that json.Marshal writes.
use ykt_aisaas.Base.{
  ℕ, ◌≡◌, ◌≢◌, refl, ap, ◌∙◌, Bool, true, false, List, [], ◌∷◌, ◌++◌, arith, Text, All, is_space,
  trim_start, trim_end, keep_end, trim,
}
use ykt_aisaas.Auth.Lists.{
  is_quote, trim_prefix, trim_suffix, on_head, split, keep_part, keep_parts, parse_inner,
  parse_json_arr,
}

-- json.Marshal of strings that need no escapes
abbrev pub quoted : Text → Text
quoted s = 34 ∷ (s ++ 34 ∷ [])

abbrev pub joined : Text → List Text → Text
joined s [] = quoted s
joined s (t ∷ ts) = quoted s ++ 44 ∷ joined t ts

abbrev pub json_inner : List Text → Text
json_inner [] = []
json_inner (s ∷ ts) = joined s ts

abbrev pub json_array : List Text → Text
json_array ts = 91 ∷ (json_inner ts ++ 93 ∷ [])

-- A string with neither a quote nor a comma, and not empty.
abbrev pub IsWord : Text → Type 0
IsWord s = (s ≢ []) × All (λ c. (c ≢ 34) × (c ≢ 44)) s

trim_end-last :
    (p : ℕ → Bool) (s : Text) (c : ℕ) → p c ≡ false → trim_end p (s ++ c ∷ []) ≡ s ++ c ∷ []
unfolding trim_end keep_end
trim_end-last p [] c h = rw h refl
trim_end-last p (d ∷ []) c h = rw h refl
trim_end-last p (d ∷ e ∷ s) c h = rw (trim_end-last p (e ∷ s) c h) refl

trim_end-drop :
    (p : ℕ → Bool) (s : Text) (c : ℕ) → p c ≡ true → trim_end p (s ++ c ∷ []) ≡ trim_end p s
unfolding trim_end keep_end
trim_end-drop p [] c h = rw h refl
trim_end-drop p (d ∷ s) c h = rw (trim_end-drop p s c h) refl

trim_end-plain : (s : Text) → All (λ c. (c ≢ 34) × (c ≢ 44)) s → trim_end is_quote s ≡ s
unfolding trim_end keep_end
trim_end-plain [] h = refl
trim_end-plain (c ∷ s) h = rw (trim_end-plain s h.1) (kept s)
  where
    kept : (s : Text) → keep_end (is_quote c) c s ≡ c ∷ s
    kept [] = ground (arith, h.0.0)
    kept (d ∷ s) = refl

trim_suffix-last : (x : ℕ) (s : Text) → trim_suffix x (s ++ x ∷ []) ≡ s
unfolding trim_suffix
trim_suffix-last x [] = ground arith
trim_suffix-last x (c ∷ []) = ground arith
trim_suffix-last x (c ∷ d ∷ s) = ap (λ t. c ∷ t) (trim_suffix-last x (d ∷ s))

NoComma : Text → Type 0
NoComma = All (λ c. c ≢ 44)

split-last : (u : Text) → NoComma u → split 44 u ≡ u ∷ []
unfolding split on_head NoComma
split-last [] h = refl
split-last (c ∷ u) h = rw (split-last u h.1) (ground (arith, h.0))

split-next : (u rest : Text) → NoComma u → split 44 (u ++ 44 ∷ rest) ≡ u ∷ split 44 rest
unfolding split on_head NoComma
split-next [] rest h = ground arith
split-next (c ∷ u) rest h = rw (split-next u rest h.1) (ground (arith, h.0))

NoComma-quoted : (s : Text) → All (λ c. (c ≢ 34) × (c ≢ 44)) s → NoComma (quoted s)
unfolding NoComma
NoComma-quoted s h = (omega arith, closing s h)
  where
    closing : (s : Text) → All (λ c. (c ≢ 34) × (c ≢ 44)) s → NoComma (s ++ 34 ∷ [])
    closing [] h = (omega arith, tt)
    closing (c ∷ s) h = (h.0.1, closing s h.1)

trim-space_quoted : (s : Text) → trim is_space (quoted s) ≡ quoted s
unfolding trim trim_start
trim-space_quoted s = trim_end-last is_space (34 ∷ s) 34 refl

trim-quote_quoted : (s : Text) → IsWord s → trim is_quote (quoted s) ≡ s
unfolding trim trim_start
trim-quote_quoted [] h = absurd (h.0 refl)
trim-quote_quoted (c ∷ s) h =
    let first : is_quote c ≡ false = ground (arith, h.1.0.0) in
    rw first (trim_end-drop is_quote (c ∷ s) 34 refl ∙ trim_end-plain (c ∷ s) h.1)

keep_part-word : (s : Text) (out : List Text) → IsWord s → keep_part s out ≡ s ∷ out
unfolding keep_part
keep_part-word [] out h = absurd (h.0 refl)
keep_part-word (c ∷ s) out h = refl

keep_parts-joined :
    (s : Text) (ts : List Text) → All IsWord (s ∷ ts) → keep_parts (split 44 (joined s ts)) ≡ s ∷ ts
unfolding keep_parts
keep_parts-joined s [] h =
    rw
      (
        split-last (quoted s) (NoComma-quoted s h.0.1),
        trim-space_quoted s,
        trim-quote_quoted s h.0,
        keep_part-word s [] h.0,
      )
      refl
keep_parts-joined s (t ∷ ts) h =
    rw
      (
        split-next (quoted s) (joined t ts) (NoComma-quoted s h.0.1),
        keep_parts-joined t ts h.1,
        trim-space_quoted s,
        trim-quote_quoted s h.0,
        keep_part-word s (t ∷ ts) h.0,
      )
      refl

parse_inner-joined :
    (s : Text) (ts : List Text) → parse_inner (joined s ts) ≡ keep_parts (split 44 (joined s ts))
unfolding parse_inner
parse_inner-joined s [] = refl
parse_inner-joined s (t ∷ ts) = refl

-- Reading what json.Marshal writes for a list of strings gives the list back, where no string is
-- empty or has a quote or a comma.
pub parse_json_arr-json_array :
    (ts : List Text) → All IsWord ts → parse_json_arr (json_array ts) ≡ ts
unfolding parse_json_arr parse_inner trim trim_start trim_prefix
parse_json_arr-json_array [] h = refl
parse_json_arr-json_array (s ∷ ts) h =
    rw (trim_end-last is_space (91 ∷ joined s ts) 93 refl, trim_suffix-last 93 (joined s ts))
      (parse_inner-joined s ts ∙ keep_parts-joined s ts h)
