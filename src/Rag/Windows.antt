-- ===== src/Rag/Windows.antt =====
-- The bounds of the chunks, and the end of the loop that cuts a long paragraph.
use ykt_aisaas.Base.{
  ℕ, zero, suc, ◌+◌, ◌-◌, ◌≤◌, ◌<◌, ◌≡◌, refl, false, inl, inr, Bool-cases, Option, some, List, [],
  ◌∷◌, Text, ℤ, pos, negsuc, ltb, leb, ◌==◌, length, take, drop, All, All-append, arith, is_space,
  length-trim,
}
use ykt_aisaas.Rag.{
  size_or_default, overlap_or_default, trim_space, append_chunk, slice, window_end, windows,
  chunk_para, chunk_paras, chunk_trimmed, split_paragraphs, chunk,
}

-- What Chunk returns: at least two runes, and no more than the size.
abbrev pub IsChunk : ℕ → Text → Type 0
IsChunk size c = (2 ≤ length c) × (length c ≤ size)

pub size_positive : (size : ℤ) → 0 < size_or_default size
unfolding size_or_default
size_positive (pos zero) = omega arith
size_positive (pos (suc n)) = omega arith
size_positive (negsuc n) = omega arith

pub overlap_smaller : (size : ℕ) (overlap : ℤ) → 0 < size → overlap_or_default size overlap < size
unfolding overlap_or_default
overlap_smaller size (pos n) h = ground arith
overlap_smaller size (negsuc n) h = ground arith

pub length-trim_space : (s : Text) → length (trim_space s) ≤ length s
unfolding trim_space
length-trim_space s = length-trim is_space s

length-take : (n : ℕ) (s : Text) → length (take n s) ≤ n
length-take zero s = omega arith
length-take (suc n) [] = omega arith
length-take (suc n) (c ∷ s) = omega (arith, length-take n s)

pub append_chunk-All :
    (size : ℕ) (out : List Text) (c : Text)
    → All (IsChunk size) out
    → length c ≤ size
    → All (IsChunk size) (append_chunk out c)
unfolding append_chunk
append_chunk-All size out c h short = elim (Bool-cases (leb 2 (length (trim_space c)))) [
  | inl kept ↦ rw kept (
      All-append (IsChunk size) out (trim_space c ∷ []) h
        ((ground arith, omega (arith, length-trim_space c)), tt))
  | inr dropped ↦ rw dropped h
]

slice_short : (size i : ℕ) (r : Text) → length (slice i (window_end size i r) r) ≤ size
slice_short size i r = ground (arith, length-take (window_end size i r - i) (drop i r))

-- A result, and a property of it.
abbrev pub Returns : ℕ → Option (List Text) → Type 0
Returns size o = (out : List Text) × (o ≡ some out) × All (IsChunk size) out

pub windows-Returns :
    (fuel size step : ℕ) (r : Text) (i : ℕ) (out : List Text)
    → 0 < step
    → length r ≤ fuel + i
    → All (IsChunk size) out
    → Returns size (windows (suc fuel) size step r i out)
unfolding windows
windows-Returns zero size step r i out moves enough h =
    let past : ltb i (length r) ≡ false = ground arith in rw past (out, refl, h)
windows-Returns (suc fuel) size step r i out moves enough h =
    let out' = append_chunk out (slice i (window_end size i r) r) in
    let h' : All (IsChunk size) out' =
      append_chunk-All size out (slice i (window_end size i r) r) h (slice_short size i r) in
    let next : Returns size (windows (suc fuel) size step r (i + step) out') =
      windows-Returns fuel size step r (i + step) out' moves (omega arith) h' in
    elim (Bool-cases (ltb i (length r))) [
      | inl inside ↦ elim (Bool-cases (window_end size i r == length r)) [
        | inl last ↦ rw (inside, last) (out', refl, h')
        | inr more ↦ rw (inside, more) next
      ]
      | inr past ↦ rw past (out, refl, h)
    ]

pub chunk_para-Returns :
    (size overlap : ℕ) (para : Text) (out : List Text)
    → overlap < size
    → All (IsChunk size) out
    → Returns size (chunk_para size overlap para out)
unfolding chunk_para
chunk_para-Returns size overlap para out less h = elim (Bool-cases (leb (length para) size)) [
  | inl short ↦
      rw short (append_chunk out para, refl, append_chunk-All size out para h (ground arith))
  | inr long ↦
      rw long (
        windows-Returns (length para) size (size - overlap) para 0 out (omega arith) (omega arith)
          h)
]

chunk_paras-Returns :
    (size overlap : ℕ) (paras : List Text) (out : List Text)
    → overlap < size
    → All (IsChunk size) out
    → Returns size (chunk_paras size overlap paras out)
unfolding chunk_paras
chunk_paras-Returns size overlap [] out less h = (out, refl, h)
chunk_paras-Returns size overlap (para ∷ paras) out less h =
    let (out', made, h') = chunk_para-Returns size overlap para out less h in
    rw made (chunk_paras-Returns size overlap paras out' less h')

chunk_trimmed-Returns :
    (size overlap : ℕ) (text : Text)
    → overlap < size
    → Returns size (chunk_trimmed size overlap text)
unfolding chunk_trimmed
chunk_trimmed-Returns size overlap [] less = ([], refl, tt)
chunk_trimmed-Returns size overlap (c ∷ s) less =
    chunk_paras-Returns size overlap (split_paragraphs (c ∷ s)) [] less tt

-- For every text, size and overlap, the loop over a long paragraph ends within a round for every
-- rune and one more, and every chunk returned has at least two runes and at most the size (800 where
-- the size given is not positive).
pub chunk_terminates :
    (text : Text) (size overlap : ℤ) → Returns (size_or_default size) (chunk text size overlap)
unfolding chunk
chunk_terminates text size overlap =
    chunk_trimmed-Returns (size_or_default size) (overlap_or_default (size_or_default size) overlap)
      (trim_space text) (overlap_smaller (size_or_default size) overlap (size_positive size))
