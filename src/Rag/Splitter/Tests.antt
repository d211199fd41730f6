-- ===== src/Rag/Splitter/Tests.antt =====
-- Splitting concrete texts.
use ai_content_platform.Prelude.{◌≡◌, refl, [], ◌∷◌, codes, length, map, arith}
use ai_content_platform.Rag.Splitter.{
  split, trim, trim_start, trim_end, split_text, recursive_split, overlap_from, get_overlap_text,
  merge,
}
use ai_content_platform.Rag.Splitter.Bounds.{Short, split-Short}

splitting : Unit {0}
unfolding split trim trim_start trim_end split_text recursive_split overlap_from get_overlap_text
    merge
splitting = tt

-- With chunks of at most 4 and an overlap of 3, the second chunk repeats the last word of the first
-- and is 8 units long.
chunk_lengths : map length (split 4 3 (codes "aa bbbb")) ≡ 2 ∷ 7 ∷ []
unfolding splitting
chunk_lengths = refl

split-Short_example : Short 8 (split 4 3 (codes "aa bbbb"))
split-Short_example = split-Short 4 3 (codes "aa bbbb") (omega arith)
