-- ===== src/Prelude/Texts.antt =====
-- JavaScript strings. Identifiers and contents are native strings; the code that walks a text walks
-- its code points. `str_length` counts UTF-16 code units, as `length` of JavaScript does.
use Prim.Native.Nat.{ℕ, suc, ◌+◌, ◌-◌, ◌/◌, ◌%◌}
use Prim.Native.Char.{code}
use Prim.Native.String.{String}
use mathlib.Core.Path.{◌≡◌, refl}
use mathlib.Core.Bool.{Bool, true, false, ◌&&◌, ◌||◌}
use mathlib.Core.List.{List, [], ◌∷◌, ◌++◌}
use text.Mathlib.Text.{◌==◌}
use ai_content_platform.Prelude.Tests.{ltb, leb, nat_eq, if◌then◌else◌}

abbrev pub codes : String → List ℕ
codes String.[] = []
codes (String.◌∷◌ c s) = code c ∷ codes s

-- The UTF-16 code units of one code point, and of a text.
abbrev pub surrogates : ℕ → List ℕ
surrogates c =
    if ltb c 0x10000 then c ∷ [] else (0xd800 + (c - 0x10000) / 1024) ∷ (0xdc00 + c % 1024) ∷ []

abbrev pub utf16 : String → List ℕ
utf16 String.[] = []
utf16 (String.◌∷◌ c s) = surrogates (code c) ++ utf16 s

-- Code points above the basic plane take two units.
abbrev pub units : ℕ → ℕ
units c = if ltb c 0x10000 then 1 else 2

abbrev pub str_length : String → ℕ
str_length String.[] = 0
str_length (String.◌∷◌ c s) = units (code c) + str_length s

-- The truthiness of a string.
abbrev pub is_truthy : String → Bool
is_truthy s = if s == "" then false else true

-- `a || b` on strings.
abbrev pub str_or : String → String → String
str_or a b = if a == "" then b else a

abbrev pub to_lower : ℕ → ℕ
to_lower c = if leb b'A' c && leb c b'Z' then c + 32 else c

abbrev pub lower : List ℕ → List ℕ
lower [] = []
lower (c ∷ s) = to_lower c ∷ lower s

-- Whether the second text begins with the first.
abbrev pub has_prefix : List ℕ → List ℕ → Bool
has_prefix [] s = true
has_prefix (p ∷ ps) [] = false
has_prefix (p ∷ ps) (c ∷ s) = nat_eq p c && has_prefix ps s

-- `s.includes(needle)`.
abbrev pub includes : List ℕ → List ℕ → Bool
includes needle [] = has_prefix needle []
includes needle (c ∷ s) = has_prefix needle (c ∷ s) || includes needle s

-- The class `\s` of regular expressions, which is also what `trim` removes.
abbrev pub is_space : ℕ → Bool
is_space c =
    (leb 9 c && leb c 13)
    || nat_eq c 32
    || nat_eq c 0xa0
    || nat_eq c 0x1680
    || (leb 0x2000 c && leb c 0x200a)
    || nat_eq c 0x2028
    || nat_eq c 0x2029
    || nat_eq c 0x202f
    || nat_eq c 0x205f
    || nat_eq c 0x3000
    || nat_eq c 0xfeff

-- The number of maximal runs without white space; the flag says that the last code was in one.
words_from : Bool → List ℕ → ℕ
words_from inside [] = 0
words_from inside (c ∷ s) =
    let rest = words_from (if is_space c then false else true) s in
    if is_space c then rest else (if inside then rest else suc rest)

-- `text.split(/\s+/).filter(Boolean).length`.
unfoldable pub word_count : String → ℕ
unfolding words_from
word_count s = words_from false (codes s)

word_count_three : word_count "  one two\nthree " ≡ 3
unfolding word_count
word_count_three = refl

-- One text is in a list of texts.
abbrev pub str_mem : String → List String → Bool
str_mem s [] = false
str_mem s (t ∷ ts) = t == s || str_mem s ts
