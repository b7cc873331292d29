-- ===== src/Rag/Spaces.antt =====
-- That cutting a text into paragraphs loses nothing but spaces.
use ykt_aisaas.Base.{
  ℕ, ◌≡◌, refl, ap, ◌∙◌, true, not, ◌&&◌, inl, inr, Bool-cases, List, [], ◌∷◌, ◌++◌, Text, ◌==◌,
  filter, append_nil, arith, is_space, trim, trim_start, trim_end, keep_end,
}
use ykt_aisaas.Rag.{
  trim_space, crlf_to_lf, on_first, split_lines, add_para, keep_paras, or_whole, split_paragraphs,
}

abbrev pub solid : Text → Text
solid s = filter (λ c. not (is_space c)) s

abbrev pub concat : List Text → Text
concat [] = []
concat (t ∷ ts) = t ++ concat ts

solid-append : (s t : Text) → solid (s ++ t) ≡ solid s ++ solid t
solid-append [] t = refl
solid-append (c ∷ s) t = elim (Bool-cases (is_space c)) [
  | inl space ↦ rw space (solid-append s t)
  | inr other ↦ rw other (ap (λ u. c ∷ u) (solid-append s t))
]

-- One rune more, on both sides.
solid-cons : (c : ℕ) (s t : Text) → solid s ≡ solid t → solid (c ∷ s) ≡ solid (c ∷ t)
solid-cons c s t e = elim (Bool-cases (is_space c)) [
  | inl space ↦ rw space e
  | inr other ↦ rw other (ap (λ u. c ∷ u) e)
]

solid-trim_start : (s : Text) → solid (trim_start is_space s) ≡ solid s
unfolding trim_start
solid-trim_start [] = refl
solid-trim_start (c ∷ s) = elim (Bool-cases (is_space c)) [
  | inl space ↦ rw space (solid-trim_start s)
  | inr other ↦ rw (other, other) refl
]

solid-keep_end : (c : ℕ) (s : Text) → solid (keep_end (is_space c) c s) ≡ solid (c ∷ s)
unfolding keep_end
solid-keep_end c [] = elim (Bool-cases (is_space c)) [
  | inl space ↦ rw space refl
  | inr other ↦ rw (other, other) refl
]
solid-keep_end c (d ∷ s) = refl

solid-trim_end : (s : Text) → solid (trim_end is_space s) ≡ solid s
unfolding trim_end
solid-trim_end [] = refl
solid-trim_end (c ∷ s) =
    solid-keep_end c (trim_end is_space s) ∙ solid-cons c (trim_end is_space s) s (solid-trim_end s)

solid-trim_space : (s : Text) → solid (trim_space s) ≡ solid s
unfolding trim_space trim
solid-trim_space s = solid-trim_end (trim_start is_space s) ∙ solid-trim_start s

solid-crlf_to_lf : (s : Text) → solid (crlf_to_lf s) ≡ solid s
unfolding crlf_to_lf
solid-crlf_to_lf [] = refl
solid-crlf_to_lf (c ∷ []) = refl
solid-crlf_to_lf (c ∷ d ∷ s) = elim (Bool-cases (c == 13 && d == 10)) [
  | inl pair ↦
      let space : is_space c ≡ true = ground arith in rw (pair, space) (solid-crlf_to_lf (d ∷ s))
  | inr other ↦ rw other (solid-cons c (crlf_to_lf (d ∷ s)) (d ∷ s) (solid-crlf_to_lf (d ∷ s)))
]

concat-on_first : (c : ℕ) (ts : List Text) → concat (on_first c ts) ≡ c ∷ concat ts
unfolding on_first
concat-on_first c [] = refl
concat-on_first c (t ∷ ts) = refl

solid-split_lines : (s : Text) → solid (concat (split_lines s)) ≡ solid s
unfolding split_lines
solid-split_lines [] = refl
solid-split_lines (c ∷ s) = elim (Bool-cases (c == 10)) [
  | inl newline ↦
      let space : is_space c ≡ true = ground arith in rw (newline, space) (solid-split_lines s)
  | inr other ↦
      rw (other, concat-on_first c (split_lines s))
        (solid-cons c (concat (split_lines s)) s (solid-split_lines s))
]

concat-add_para : (p : Text) (ts : List Text) → concat (add_para p ts) ≡ p ++ concat ts
unfolding add_para
concat-add_para [] ts = refl
concat-add_para (c ∷ p) ts = refl

solid-keep_paras : (ts : List Text) → solid (concat (keep_paras ts)) ≡ solid (concat ts)
unfolding keep_paras
solid-keep_paras [] = refl
solid-keep_paras (t ∷ ts) =
    rw
      (
        concat-add_para (trim_space t) (keep_paras ts),
        solid-append (trim_space t) (concat (keep_paras ts)),
        solid-append t (concat ts),
        solid-trim_space t,
        solid-keep_paras ts,
      )
      refl

solid-or_whole :
    (text : Text) (ps : List Text)
    → solid (concat ps) ≡ solid text
    → solid (concat (or_whole text ps)) ≡ solid text
unfolding or_whole
solid-or_whole text [] e = ap solid (append_nil text)
solid-or_whole text (p ∷ ps) e = e

-- The paragraphs of a text hold, in their order, exactly its runes that are not spaces, and spaces.
pub solid-split_paragraphs : (text : Text) → solid (concat (split_paragraphs text)) ≡ solid text
unfolding split_paragraphs
solid-split_paragraphs text = solid-or_whole text (keep_paras (split_lines (crlf_to_lf text))) (
    solid-keep_paras (split_lines (crlf_to_lf text))
    ∙ (solid-split_lines (crlf_to_lf text) ∙ solid-crlf_to_lf text))
