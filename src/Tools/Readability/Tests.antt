-- ===== src/Tools/Readability/Tests.antt =====
-- Two short paragraphs.
use ai_content_platform.Prelude.{ℕ, ◌+◌, ◌-◌, ◌*◌, ◌≤◌, ◌≡◌, refl, length, All, utf16, leb, ltb}
use ai_content_platform.Rag.Splitter.{Text, trim, trim_start, trim_end}
use ai_content_platform.Tools.Readability.{
  Floats, analyze, clean, pieces, words_of, sentences_of, paragraphs_of, paragraphs_from, count_all,
  count_syllables, vowel_groups, drop_ending, drop_y,
}
use ai_content_platform.Tools.Readability.Laws.{IsWord, analyze-counts}

abbrev floats : Floats ℕ
floats = record {
  decimal = λ m k. m;
  add = ◌+◌;
  sub = ◌-◌;
  mul = ◌*◌;
  divide = λ a b. a;
  minimum = λ a b. a;
  maximum = λ a b. b;
  round = λ a. a;
  at_least = λ a b. leb b a;
  above = λ a b. ltb b a;
  shown = λ a. "n";
}

abbrev text : Text
text = utf16 "Green tea, made well. It tasted sweet!\n\nYes."

counts :
    (length (words_of (clean text)) ≡ 8)
    × (length (sentences_of (clean text)) ≡ 2)
    × (length (paragraphs_of text) ≡ 2)
    × (count_syllables (utf16 "reading") ≡ 2)
    × (count_syllables (utf16 "tasted") ≡ 1)
unfolding clean words_of sentences_of paragraphs_of paragraphs_from pieces count_syllables
    vowel_groups drop_ending drop_y trim trim_start trim_end
counts = (refl, refl, refl, refl, refl)

analyze-counts_example :
    All IsWord (words_of (clean text))
    × ((analyze floats text).word_count ≡ length (words_of (clean text)))
    × ((analyze floats text).word_count ≤ count_all (words_of (clean text)))
    × ((analyze floats text).word_count ≤ (analyze floats text).reading_time_minutes * 250)
    × ((analyze floats text).reading_time_minutes * 250 ≤ (analyze floats text).word_count + 249)
    × (1 ≤ (analyze floats text).sentence_count)
analyze-counts_example = analyze-counts floats text
