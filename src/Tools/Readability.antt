-- ===== src/Tools/Readability.antt =====
-- src/tools/tools/readability.tool.ts. A text is the list of its UTF-16 code units.
pub mod Laws
mod Tests
use ai_content_platform.Prelude.{
  ℕ, zero, suc, ◌+◌, ◌/◌, String, Bool, true, false, not, ◌&&◌, ◌||◌, Option, none, some, List, [],
  ◌∷◌, ◌++◌, length, keep, map, leb, ltb, nat_eq, if◌then◌else◌, lower, is_space, lookup,
}
use ai_content_platform.Exceptions.{Thrown, Settled, resolved, rejected, ◌+s◌}
use ai_content_platform.Rag.Splitter.{Text, trim}
use ai_content_platform.Tools.Registry.{ToolInput, ToolOutput, Itool}
use mathlib.Core.List.{reverse}

-- The numbers: `decimal m k` is m with k digits behind the point, `round` is `Math.round`.
pub record Floats (N : Type 0) : Type 0 where
  pub decimal : ℕ → ℕ → N
  pub add : N → N → N
  pub sub : N → N → N
  pub mul : N → N → N
  pub divide : N → N → N
  pub minimum : N → N → N
  pub maximum : N → N → N
  pub round : N → N
  pub at_least : N → N → Bool
  pub above : N → N → Bool
  pub shown : N → String

pub data ReadingLevel : Type 0 where
  very_easy easy fairly_easy standard fairly_difficult difficult very_difficult : ReadingLevel

pub record ReadabilityResult (N : Type 0) : Type 0 where
  pub flesch_kincaid_grade : N
  pub flesch_reading_ease : N
  pub average_sentence_length : N
  pub average_syllables_per_word : N
  pub word_count : ℕ
  pub sentence_count : ℕ
  pub paragraph_count : ℕ
  pub reading_time_minutes : ℕ
  pub level : ReadingLevel
  pub suggestions : List String

abbrev pub is_letter : ℕ → Bool
is_letter c = leb b'a' c && leb c b'z'

abbrev pub is_end : ℕ → Bool
is_end c = nat_eq c b'.' || nat_eq c b'!' || nat_eq c b'?'

-- The class `\w`.
abbrev pub is_word_unit : ℕ → Bool
is_word_unit c =
    is_letter c || (leb b'A' c && leb c b'Z') || (leb b'0' c && leb c b'9') || nat_eq c b'_'

abbrev kept : ℕ → ℕ
kept c = if is_word_unit c || is_space c || is_end c then c else 32

unfoldable pub clean : Text → Text
clean text = trim (map kept text)

-- `split` at the runs of units that pass a test: `cur` is the piece so far, and the flag says that
-- the last unit was in a run.
unfoldable pub pieces : (ℕ → Bool) → Bool → Text → Text → List Text
pieces p inside cur [] = cur ∷ []
pieces p inside cur (c ∷ s) =
    let rest = pieces p (p c) (if p c then [] else cur ++ c ∷ []) s in
    if p c && not inside then cur ∷ rest else rest

abbrev pub is_long : Text → Bool
is_long s = ltb 3 (length (trim s))

abbrev pub is_filled : Text → Bool
is_filled w = ltb 0 (length w)

unfoldable pub sentences_of : Text → List Text
unfolding pieces
sentences_of cleaned = keep is_long (pieces is_end false [] cleaned)

unfoldable pub words_of : Text → List Text
unfolding pieces
words_of cleaned = keep is_filled (pieces is_space false [] cleaned)

abbrev newlines : ℕ → Text
newlines zero = []
newlines (suc k) = 10 ∷ newlines k

-- `split(/\n\n+/)`: `k` line feeds have been read behind the piece so far.
unfoldable pub paragraphs_from : Text → ℕ → Text → List Text
paragraphs_from cur k [] = if leb 2 k then cur ∷ [] ∷ [] else (cur ++ newlines k) ∷ []
paragraphs_from cur k (c ∷ s) =
    let breaks = not (nat_eq c 10) && leb 2 k in
    let next =
      if nat_eq c 10 then cur else (if breaks then c ∷ [] else cur ++ newlines k ++ c ∷ []) in
    let rest = paragraphs_from next (if nat_eq c 10 then suc k else 0) s in
    if breaks then cur ∷ rest else rest

abbrev pub is_nonblank : Text → Bool
is_nonblank s = ltb 0 (length (trim s))

unfoldable pub paragraphs_of : Text → List Text
unfolding paragraphs_from
paragraphs_of text = keep is_nonblank (paragraphs_from [] 0 text)

abbrev pub is_vowel : ℕ → Bool
is_vowel c =
    nat_eq c b'a'
    || nat_eq c b'e'
    || nat_eq c b'i'
    || nat_eq c b'o'
    || nat_eq c b'u'
    || nat_eq c b'y'

abbrev is_silent_stem : ℕ → Bool
is_silent_stem c = not (nat_eq c b'l' || is_vowel c)

-- The silent ending, of a word that is read backwards.
unfoldable pub drop_ending : Text → Text
drop_ending [] = []
drop_ending (a ∷ []) = a ∷ []
drop_ending (a ∷ b ∷ []) =
    if nat_eq a b'd' && nat_eq b b'e'
    then []
    else (if nat_eq a b'e' && is_silent_stem b then [] else a ∷ b ∷ [])
drop_ending (a ∷ b ∷ c ∷ r) =
    if nat_eq a b's' && nat_eq b b'e' && is_silent_stem c
    then r
    else (if nat_eq a b'd' && nat_eq b b'e'
        then c ∷ r
        else (if nat_eq a b'e' && is_silent_stem b then c ∷ r else a ∷ b ∷ c ∷ r))

unfoldable pub drop_y : Text → Text
drop_y [] = []
drop_y (c ∷ s) = if nat_eq c b'y' then s else c ∷ s

-- The matches of one or two vowels; the flag says that the last unit opened a match.
unfoldable pub vowel_groups : Bool → Text → ℕ
vowel_groups opened [] = 0
vowel_groups opened (c ∷ s) =
    let opens = is_vowel c && not opened in
    let rest = vowel_groups opens s in if opens then suc rest else rest

abbrev at_least_one : ℕ → ℕ
at_least_one zero = 1
at_least_one (suc n) = suc n

unfoldable pub count_syllables : Text → ℕ
unfolding drop_ending drop_y vowel_groups
count_syllables word =
    let letters = keep is_letter (lower word) in
    if leb (length letters) 3
    then 1
    else at_least_one (vowel_groups false (drop_y (reverse (drop_ending (reverse letters)))))

unfoldable pub count_all : List Text → ℕ
unfolding count_syllables
count_all [] = 0
count_all (w ∷ ws) = count_syllables w + count_all ws

module _ {N : Type 0} (f : Floats N) where
  abbrev whole : ℕ → N
  whole n = f.decimal n 0

  unfoldable pub reading_level : N → ReadingLevel
  reading_level fre =
      if f.at_least fre (whole 90)
      then very_easy
      else (if f.at_least fre (whole 80)
          then easy
          else (if f.at_least fre (whole 70)
              then fairly_easy
              else (if f.at_least fre (whole 60)
                  then standard
                  else (if f.at_least fre (whole 50)
                      then fairly_difficult
                      else (if f.at_least fre (whole 30) then difficult else very_difficult)))))

  abbrev when : Bool → String → List String → List String
  when true s rest = s ∷ rest
  when false s rest = rest

  unfoldable pub generate_suggestions : N → N → N → List String
  generate_suggestions length_ grade fre =
      when (f.above length_ (whole 25))
        ("Average sentence length is " +s f.shown (f.round length_) +s " words. Aim for under 20.")
        (when (f.above grade (whole 12))
          "Content reads at college level. Simplify vocabulary for broader audiences."
          (when (f.above (whole 50) fre) "Use shorter words and sentences to improve readability." (
            when (f.above fre (whole 80))
              "Content is very readable — ensure it still conveys necessary depth." [])))

  -- `Math.round(x * 10) / 10`, for a power of ten.
  abbrev rounded : ℕ → N → N
  rounded scale x = f.divide (f.round (f.mul x (whole scale))) (whole scale)

  unfoldable pub analyze : Text → ReadabilityResult N
  unfolding clean sentences_of words_of paragraphs_of count_all reading_level generate_suggestions
  analyze text =
      let words = words_of (clean text) in
      let sentences = at_least_one (length (sentences_of (clean text))) in
      let sentence_length = f.divide (whole (length words)) (whole sentences) in
      let syllables = f.divide (whole (count_all words)) (whole (at_least_one (length words))) in
      let fre =
        f.sub (f.sub (f.decimal 206835 3) (f.mul (f.decimal 1015 3) sentence_length))
          (f.mul (f.decimal 846 1) syllables) in
      let grade =
        f.sub (f.add (f.mul (f.decimal 39 2) sentence_length) (f.mul (f.decimal 118 1) syllables))
          (f.decimal 1559 2) in
      record {
        flesch_kincaid_grade = rounded 10 grade;
        flesch_reading_ease = rounded 10 (f.maximum (whole 0) (f.minimum (whole 100) fre));
        average_sentence_length = rounded 10 sentence_length;
        average_syllables_per_word = rounded 100 syllables;
        word_count = length words;
        sentence_count = sentences;
        paragraph_count = length (paragraphs_of text);
        reading_time_minutes = (length words + 249) / 250;
        level = reading_level fre;
        suggestions = generate_suggestions sentence_length grade fre;
      }

-- `text_of` is the first use of the content as a string, `json_of` the result as a JSON value,
-- `schema` the JSON schema of the input and `shown` is `String(err)`.
pub record ReadabilityJson (N J : Type 0) : Type 0 where
  pub text_of : Option J → Settled Text
  pub json_of : ReadabilityResult N → J
  pub schema : J
  pub shown : Thrown → String

module _ {N J : Type 0} (f : Floats N) (j : ReadabilityJson N J) where
  abbrev reported : Settled Text → ToolOutput J
  reported (resolved text) = record {
    success = true;
    result = some (j.json_of (analyze f text));
    error_text = none;
  }
  reported (rejected err) = record {
    success = false;
    result = none;
    error_text = some (j.shown err);
  }

  unfoldable pub execute : ToolInput J → ToolOutput J
  unfolding analyze
  execute input = reported (j.text_of (lookup "content" input))

module _ {N J S : Type 0} (f : Floats N) (j : ReadabilityJson N J) where
  abbrev pub readability_tool : Itool J S
  readability_tool = record {
    name = "readability_checker";
    description = "Computes readability scores (Flesch-Kincaid) and flags complex sentences";
    input_schema = j.schema;
    execute = λ input s. (resolved (execute f j input), s);
  }
