-- ===== src/Rag/Kept.antt =====
-- That the windows over a long paragraph leave no gap.
use mathlib.Core.List.{Memᴰ}
use mathlib.Core.List.Memᴰ.{head, tail}
use ykt_aisaas.Base.{
  ℕ, zero, suc, ◌+◌, ◌-◌, ◌≤◌, ◌<◌, ◌≡◌, ◌≢◌, refl, true, false, inl, inr, ◌⊎◌, Bool-cases, Option,
  none, some, List, [], ◌∷◌, Text, ℤ, ltb, leb, ◌==◌, length, arith, Option-cases, take, subst, sym,
  Mem-append_left, Mem-append_last,
}
use ykt_aisaas.Rag.Windows.{chunk_terminates}
use ykt_aisaas.Rag.{
  size_or_default, overlap_or_default, split_paragraphs, chunk_trimmed, chunk, trim_space,
  append_chunk, slice, window_end, windows, chunk_para, chunk_paras,
}

-- A piece that is among the chunks once trimmed, or that appendChunk leaves out.
abbrev pub IsKept : Text → List Text → Type 0
IsKept piece out = Memᴰ (trim_space piece) out ⊎ (length (trim_space piece) < 2)

-- Some window over a paragraph holds the index `k`, and its piece is kept.
abbrev pub IsCovered : ℕ → Text → ℕ → List Text → Type 0
IsCovered size para k out =
    (i : ℕ) × (i ≤ k)
    × (k < window_end size i para)
    × IsKept (slice i (window_end size i para) para) out

append_chunk-IsKept : (out : List Text) (c : Text) → IsKept c (append_chunk out c)
unfolding append_chunk
append_chunk-IsKept out c = elim (Bool-cases (leb 2 (length (trim_space c)))) [
  | inl kept ↦ rw kept (inl (Mem-append_last (trim_space c) out))
  | inr dropped ↦ inr (ground arith)
]

-- The chunks of before stay.
append_chunk-Mem : (out : List Text) (c d : Text) → Memᴰ d out → Memᴰ d (append_chunk out c)
unfolding append_chunk
append_chunk-Mem out c d m = elim (Bool-cases (leb 2 (length (trim_space c)))) [
  | inl kept ↦ rw kept (Mem-append_left d out (trim_space c ∷ []) m)
  | inr dropped ↦ rw dropped m
]

-- A property of the result, where there is one.
abbrev pub OfResult : (List Text → Type 0) → Option (List Text) → Type 0
OfResult P none = Unit
OfResult P (some out) = P out

windows-Mem :
    (fuel size step : ℕ) (r : Text) (i : ℕ) (out : List Text) (d : Text)
    → Memᴰ d out
    → OfResult (Memᴰ d) (windows fuel size step r i out)
unfolding windows
windows-Mem zero size step r i out d m = tt
windows-Mem (suc fuel) size step r i out d m =
    let out' = append_chunk out (slice i (window_end size i r) r) in
    let m' : Memᴰ d out' = append_chunk-Mem out (slice i (window_end size i r) r) d m in
    elim (Bool-cases (ltb i (length r))) [
      | inl inside ↦ elim (Bool-cases (window_end size i r == length r)) [
        | inl last ↦ rw (inside, last) m'
        | inr more ↦ rw (inside, more) (windows-Mem fuel size step r (i + step) out' d m')
      ]
      | inr past ↦ rw past m
    ]

-- A piece that is kept stays kept.
IsKept-later :
    (c : Text) (out out' : List Text)
    → ((d : Text) → Memᴰ d out → Memᴰ d out')
    → IsKept c out
    → IsKept c out'
IsKept-later c out out' stays (inl m) = inl (stays (trim_space c) m)
IsKept-later c out out' stays (inr short) = inr short

-- Chunks are only added.
abbrev pub Grows : List Text → Option (List Text) → Type 0
Grows out o = (d : Text) → Memᴰ d out → OfResult (Memᴰ d) o

IsCovered-Grows :
    (size : ℕ) (r : Text) (k : ℕ) (out : List Text) (o : Option (List Text))
    → Grows out o
    → IsCovered size r k out
    → OfResult (IsCovered size r k) o
IsCovered-Grows size r k out none grows c = tt
IsCovered-Grows size r k out (some out') grows (i, before, inside, kept) =
    (i, before, inside, IsKept-later (slice i (window_end size i r) r) out out' grows kept)

in_first :
    (size step : ℕ) (r : Text) (i k fuel : ℕ) (out : List Text)
    → i ≤ k
    → k < window_end size i r
    → OfResult
        (IsCovered size r k)
        (windows fuel size step r (i + step) (append_chunk out (slice i (window_end size i r) r)))
in_first size step r i k fuel out before inside =
    let piece = slice i (window_end size i r) r in
    let out' = append_chunk out piece in
    IsCovered-Grows size r k out' (windows fuel size step r (i + step) out')
      (windows-Mem fuel size step r (i + step) out')
      (i, before, inside, append_chunk-IsKept out piece)

-- From the index `i` on, every index is in some window: a step is no longer than a window.
windows-IsCovered :
    (fuel size step : ℕ) (r : Text) (i k : ℕ) (out : List Text)
    → step ≤ size
    → i ≤ k
    → k < length r
    → OfResult (IsCovered size r k) (windows fuel size step r i out)
unfolding windows
windows-IsCovered zero size step r i k out narrow before inside = tt
windows-IsCovered (suc fuel) size step r i k out narrow before inside =
    let piece = slice i (window_end size i r) r in
    let starts : ltb i (length r) ≡ true = ground arith in
    elim (Bool-cases (ltb k (window_end size i r))) [
      | inl here ↦ elim (Bool-cases (window_end size i r == length r)) [
        | inl last ↦ rw (starts, last) (i, before, ground arith, append_chunk-IsKept out piece)
        | inr more ↦ rw (starts, more) (in_first size step r i k fuel out before (ground arith))
      ]
      | inr later ↦
          let more : (window_end size i r == length r) ≡ false = ground arith in
          rw (starts, more)
            (windows-IsCovered fuel size step r (i + step) k (append_chunk out piece) narrow
              (ground arith) inside)
    ]

take-length : (s : Text) → take (length s) s ≡ s
take-length [] = refl
take-length (c ∷ s) = rw (take-length s) refl

slice-whole : (s : Text) → slice 0 (length s) s ≡ s
slice-whole s = let none_off : length s - 0 ≡ length s = omega arith in rw none_off (take-length s)

whole : (size : ℕ) (r : Text) → length r ≤ size → window_end size 0 r ≡ length r
whole size r h = ground arith

chunk_para-IsCovered :
    (size overlap : ℕ) (r : Text) (k : ℕ) (out : List Text)
    → k < length r
    → OfResult (IsCovered size r k) (chunk_para size overlap r out)
unfolding chunk_para
chunk_para-IsCovered size overlap r k out inside = elim (Bool-cases (leb (length r) size)) [
  | inl short ↦
      let all : window_end size 0 r ≡ length r = whole size r (ground arith) in
      rw short (
        0,
        omega arith,
        omega arith,
        rw all (
            subst (λ c. IsKept c (append_chunk out r)) (sym (slice-whole r))
              (append_chunk-IsKept out r)),
      )
  | inr long ↦ rw long (
      windows-IsCovered (suc (length r)) size (size - overlap) r 0 k out (omega arith) (omega arith)
        inside)
]

chunk_para-Grows :
    (size overlap : ℕ) (r : Text) (out : List Text) → Grows out (chunk_para size overlap r out)
unfolding chunk_para
chunk_para-Grows size overlap r out d m = elim (Bool-cases (leb (length r) size)) [
  | inl short ↦ rw short (append_chunk-Mem out r d m)
  | inr long ↦ rw long (windows-Mem (suc (length r)) size (size - overlap) r 0 out d m)
]

chunk_paras-Grows :
    (size overlap : ℕ) (paras out : List Text) → Grows out (chunk_paras size overlap paras out)
unfolding chunk_paras
chunk_paras-Grows size overlap [] out d m = m
chunk_paras-Grows size overlap (p ∷ paras) out d m =
    elim (Option-cases (chunk_para size overlap p out)) [
      | inl nothing ↦ rw nothing tt
      | inr (out', made) ↦
          let m' : OfResult (Memᴰ d) (some out') =
            subst (OfResult (Memᴰ d)) made (chunk_para-Grows size overlap p out d m) in
          rw made (chunk_paras-Grows size overlap paras out' d m')
    ]

chunk_paras-IsCovered :
    (size overlap : ℕ) (paras out : List Text) (r : Text) (k : ℕ)
    → Memᴰ r paras
    → k < length r
    → OfResult (IsCovered size r k) (chunk_paras size overlap paras out)
unfolding chunk_paras
chunk_paras-IsCovered size overlap [] out r k m inside = elim m [ ]
chunk_paras-IsCovered size overlap (p ∷ paras) out r k (head e) inside =
    elim (Option-cases (chunk_para size overlap p out)) [
      | inl nothing ↦ rw nothing tt
      | inr (out', made) ↦
          let c : OfResult (IsCovered size r k) (chunk_para size overlap p out) =
            rw (← e) (chunk_para-IsCovered size overlap r k out inside) in
          rw made (
            IsCovered-Grows size r k out' (chunk_paras size overlap paras out')
              (chunk_paras-Grows size overlap paras out')
              (subst (OfResult (IsCovered size r k)) made c))
    ]
chunk_paras-IsCovered size overlap (p ∷ paras) out r k (tail m) inside =
    elim (Option-cases (chunk_para size overlap p out)) [
      | inl nothing ↦ rw nothing tt
      | inr (out', made) ↦ rw made (chunk_paras-IsCovered size overlap paras out' r k m inside)
    ]

-- Chunk leaves no gap: it returns, and every rune of every paragraph of the trimmed text stands in a
-- window of at most the size whose trimmed piece is a chunk, unless that piece has less than two
-- runes once trimmed.
pub chunk_covers :
    (text : Text) (size overlap : ℤ) (r : Text) (k : ℕ)
    → trim_space text ≢ []
    → Memᴰ r (split_paragraphs (trim_space text))
    → k < length r
    → (out : List Text) × (chunk text size overlap ≡ some out)
      × IsCovered (size_or_default size) r k out
unfolding chunk chunk_trimmed
chunk_covers text size overlap r k solid m inside =
    let n = size_or_default size in
    let o = overlap_or_default n overlap in
    let (out, made, bounds) = chunk_terminates text size overlap in
    (out, made, subst (OfResult (IsCovered n r k)) made (trimmed n o (trim_space text) solid m))
  where
    trimmed :
        (n o : ℕ) (t : Text)
        → t ≢ []
        → Memᴰ r (split_paragraphs t)
        → OfResult (IsCovered n r k) (chunk_trimmed n o t)
    trimmed n o [] solid m = absurd (solid refl)
    trimmed n o (c ∷ t) solid m =
        chunk_paras-IsCovered n o (split_paragraphs (c ∷ t)) [] r k m inside
