-- ===== src/Tools/Readability/Laws.antt =====
-- What the readability tool counts.
use ai_content_platform.Prelude.{
  ℕ, ◌+◌, ◌*◌, ◌≤◌, ◌≡◌, refl, Bool, true, false, not, ◌&&◌, List, [], ◌∷◌, ◌++◌, length, keep, All,
  All-append, All-keep, keep-All, leb, if◌then◌else◌, if_rule, Bool-cases, inl, inr, arith,
  is_space, lower,
}
use ai_content_platform.Rag.Splitter.{Text}
use ai_content_platform.Agents.Ranking.Names.{All-both}
use ai_content_platform.Tools.Readability.{
  Floats, clean, pieces, is_filled, is_letter, words_of, count_syllables, count_all, analyze,
  at_least_one, sentences_of,
}

abbrev pub Free : (ℕ → Bool) → Text → Type 0
Free p = All (λ c. p c ≡ false)

pieces-Free :
    (p : ℕ → Bool) (inside : Bool) (cur s : Text)
    → Free p cur
    → All (Free p) (pieces p inside cur s)
unfolding pieces
pieces-Free p inside cur [] h = (h, tt)
pieces-Free p inside cur (c ∷ s) h = elim (Bool-cases (p c)) [
  | inl sep ↦ rw sep (separated inside (pieces-Free p true [] s tt))
  | inr plain ↦ rw plain (
      pieces-Free p false (cur ++ c ∷ []) s
        (All-append (λ d. p d ≡ false) cur (c ∷ []) h (plain, tt)))
]
  where
    separated :
        (b : Bool)
        → All (Free p) (pieces p true [] s)
        → All (Free p) (if true && not b then cur ∷ pieces p true [] s else pieces p true [] s)
    separated true k = k
    separated false k = (h, k)

-- A word is not empty and holds no white space.
abbrev pub IsWord : Text → Type 0
IsWord w = (is_filled w ≡ true) × Free is_space w

words_of-IsWord : (s : Text) → All IsWord (words_of s)
unfolding words_of
words_of-IsWord s =
    All-both (λ w. is_filled w ≡ true) (Free is_space) (keep is_filled (pieces is_space false [] s))
      (keep-All is_filled (pieces is_space false [] s))
      (All-keep (Free is_space) is_filled (pieces is_space false [] s)
        (pieces-Free is_space false [] s tt))

at_least_one-le : (n : ℕ) → 1 ≤ at_least_one n
at_least_one-le n = ground arith

count_syllables-le : (w : Text) → 1 ≤ count_syllables w
unfolding count_syllables
count_syllables-le w =
    if_rule (λ n. 1 ≤ n) (leb (length (keep is_letter (lower w))) 3) (λ _. omega arith)
      λ _. at_least_one-le _

length-count_all : (ws : List Text) → length ws ≤ count_all ws
unfolding count_all
length-count_all [] = omega arith
length-count_all (w ∷ ws) = omega (arith, length-count_all ws, count_syllables-le w)

module _ {N : Type 0} (f : Floats N) where
  -- The words that the tool counts are not empty and hold no white space, each has at least one
  -- syllable, and the reading time is their number over 250, rounded up; there is at least one
  -- sentence.
  pub analyze-counts :
      (text : Text)
      → All IsWord (words_of (clean text))
        × ((analyze f text).word_count ≡ length (words_of (clean text)))
        × ((analyze f text).word_count ≤ count_all (words_of (clean text)))
        × ((analyze f text).word_count ≤ (analyze f text).reading_time_minutes * 250)
        × ((analyze f text).reading_time_minutes * 250 ≤ (analyze f text).word_count + 249)
        × (1 ≤ (analyze f text).sentence_count)
  unfolding analyze
  analyze-counts text = (
    words_of-IsWord (clean text),
    refl,
    length-count_all (words_of (clean text)),
    omega arith,
    omega arith,
    at_least_one-le (length (sentences_of (clean text))),
  )
