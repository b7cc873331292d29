-- ===== src/Rag.antt =====
-- internal/rag/chunker.go: how a document is cut into chunks, by paragraph first and by a sliding
-- window over a paragraph that is too long. A text is its runes.
pub mod Windows
pub mod Spaces
pub mod Kept
use ykt_aisaas.Base.{
  ℕ, zero, suc, ◌+◌, ◌-◌, ◌/◌, Bool, true, false, not, ◌&&◌, ◌||◌, Option, none, some, List, [],
  ◌∷◌, ◌++◌, Text, ℤ, pos, negsuc, ltb, leb, ◌==◌, leb_ℤ, ltb_ℤ, length, take, drop, if◌then◌else◌,
  ◌>>=◌, is_space, trim,
}

-- The first lines of Chunk: what stands for a size and an overlap that are out of range.
unfoldable pub size_or_default : ℤ → ℕ
size_or_default (pos zero) = 800
size_or_default (pos (suc n)) = suc n
size_or_default (negsuc n) = 800

unfoldable pub overlap_or_default : ℕ → ℤ → ℕ
overlap_or_default size (pos overlap) = if leb size overlap then size / 8 else overlap
overlap_or_default size (negsuc n) = size / 8

-- strings.TrimSpace
unfoldable pub trim_space : Text → Text
unfolding trim
trim_space s = trim is_space s

-- appendChunk
unfoldable pub append_chunk : List Text → Text → List Text
unfolding trim_space
append_chunk out c =
    let trimmed = trim_space c in if leb 2 (length trimmed) then out ++ trimmed ∷ [] else out

-- strings.ReplaceAll(text, "\r\n", "\n")
unfoldable pub crlf_to_lf : Text → Text
crlf_to_lf [] = []
crlf_to_lf (c ∷ []) = c ∷ []
crlf_to_lf (c ∷ d ∷ s) =
    let rest = crlf_to_lf (d ∷ s) in if c == 13 && d == 10 then rest else c ∷ rest

-- strings.Split(norm, "\n")
unfoldable pub on_first : ℕ → List Text → List Text
on_first c [] = (c ∷ []) ∷ []
on_first c (t ∷ ts) = (c ∷ t) ∷ ts

unfoldable pub split_lines : Text → List Text
unfolding on_first
split_lines [] = [] ∷ []
split_lines (c ∷ s) = let rest = split_lines s in if c == 10 then [] ∷ rest else on_first c rest

-- The loop of splitParagraphs
unfoldable pub add_para : Text → List Text → List Text
add_para [] paras = paras
add_para (c ∷ p) paras = (c ∷ p) ∷ paras

unfoldable pub keep_paras : List Text → List Text
unfolding add_para trim_space
keep_paras [] = []
keep_paras (p ∷ parts) = add_para (trim_space p) (keep_paras parts)

unfoldable pub or_whole : Text → List Text → List Text
or_whole text [] = text ∷ []
or_whole text (p ∷ paras) = p ∷ paras

-- splitParagraphs
unfoldable pub split_paragraphs : Text → List Text
unfolding or_whole keep_paras split_lines crlf_to_lf
split_paragraphs text = or_whole text (keep_paras (split_lines (crlf_to_lf text)))

-- string(r[i:end])
abbrev pub slice : ℕ → ℕ → Text → Text
slice i end r = take (end - i) (drop i r)

abbrev pub window_end : ℕ → ℕ → Text → ℕ
window_end size i r = if ltb (length r) (i + size) then length r else i + size

-- The inner loop of Chunk, from the index `i`; `none` only where the fuel runs out.
unfoldable pub windows : ℕ → ℕ → ℕ → Text → ℕ → List Text → Option (List Text)
unfolding append_chunk
windows zero size step r i out = none
windows (suc fuel) size step r i out =
    let end = window_end size i r in
    let out' = append_chunk out (slice i end r) in
    let rest = windows fuel size step r (i + step) out' in
    if ltb i (length r) then (if end == length r then some out' else rest) else some out

-- One paragraph. The loop gets a round for every rune and one more.
unfoldable pub chunk_para : ℕ → ℕ → Text → List Text → Option (List Text)
unfolding append_chunk windows
chunk_para size overlap para out =
    if leb (length para) size
    then some (append_chunk out para)
    else windows (suc (length para)) size (size - overlap) para 0 out

-- The loop of Chunk over the paragraphs
unfoldable pub chunk_paras : ℕ → ℕ → List Text → List Text → Option (List Text)
unfolding chunk_para
chunk_paras size overlap [] out = some out
chunk_paras size overlap (para ∷ paras) out = do
  out' ← chunk_para size overlap para out
  chunk_paras size overlap paras out'

unfoldable pub chunk_trimmed : ℕ → ℕ → Text → Option (List Text)
unfolding split_paragraphs chunk_paras
chunk_trimmed size overlap [] = some []
chunk_trimmed size overlap (c ∷ s) = chunk_paras size overlap (split_paragraphs (c ∷ s)) []

-- Chunk
unfoldable pub chunk : Text → ℤ → ℤ → Option (List Text)
unfolding chunk_trimmed size_or_default overlap_or_default trim_space
chunk text size overlap =
    let n = size_or_default size in chunk_trimmed n (overlap_or_default n overlap) (trim_space text)
