-- ===== src/Examples/Documents.antt =====
-- The theorems on the cutting of documents, on a text of two lines.
use mathlib.Core.List.Memᴰ.{head}
use ykt_aisaas.Base.{
  ◌≡◌, refl, some, List, [], ◌∷◌, ◌++◌, Text, codes, pos, negsuc, arith, trim, trim_start, trim_end,
  keep_end,
}
use ykt_aisaas.Rag.{
  chunk, chunk_trimmed, chunk_paras, chunk_para, windows, append_chunk, trim_space,
  split_paragraphs, or_whole, keep_paras, add_para, split_lines, on_first, crlf_to_lf,
  size_or_default, overlap_or_default,
}
use ykt_aisaas.Rag.Windows.{Returns, chunk_terminates}
use ykt_aisaas.Rag.Kept.{IsCovered, chunk_covers}
use ykt_aisaas.Rag.Spaces.{solid, concat, solid-split_paragraphs}

-- " abcdefg", a Windows line end, and "hi "
abbrev two_lines : Text
two_lines = codes " abcdefg" ++ 13 ∷ 10 ∷ codes "hi "

windows_test :
    chunk two_lines (pos 3) (pos 1)
    ≡ some (codes "abc" ∷ codes "cde" ∷ codes "efg" ∷ codes "hi" ∷ [])
unfolding chunk chunk_trimmed chunk_paras chunk_para windows append_chunk trim_space
    split_paragraphs or_whole keep_paras add_para split_lines on_first crlf_to_lf size_or_default
    overlap_or_default trim trim_start trim_end keep_end
windows_test = refl

-- An overlap as large as the size counts as an eighth of it, and the last rune stands alone.
lost_tail_test :
    chunk two_lines (pos 3) (pos 3) ≡ some (codes "abc" ∷ codes "def" ∷ codes "hi" ∷ [])
unfolding chunk chunk_trimmed chunk_paras chunk_para windows append_chunk trim_space
    split_paragraphs or_whole keep_paras add_para split_lines on_first crlf_to_lf size_or_default
    overlap_or_default trim trim_start trim_end keep_end
lost_tail_test = refl

chunk_terminates_example : Returns 800 (chunk two_lines (negsuc 4) (pos 900))
unfolding size_or_default
chunk_terminates_example = chunk_terminates two_lines (negsuc 4) (pos 900)

chunk_covers_example :
    (out : List Text) × (chunk two_lines (pos 3) (pos 1) ≡ some out)
    × IsCovered 3 (codes "abcdefg") 4 out
unfolding size_or_default split_paragraphs or_whole keep_paras add_para split_lines on_first
    crlf_to_lf trim_space trim trim_start trim_end keep_end
chunk_covers_example =
    chunk_covers two_lines (pos 3) (pos 1) (codes "abcdefg") 4 (λ e. ground arith) (head refl)
      (omega arith)

solid-split_paragraphs_example : solid (concat (split_paragraphs two_lines)) ≡ codes "abcdefghi"
solid-split_paragraphs_example = solid-split_paragraphs two_lines
