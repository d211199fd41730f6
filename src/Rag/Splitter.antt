-- ===== src/Rag/Splitter.antt =====
-- src/rag/services/text-splitter.service.ts. A text is the list of its UTF-16 code units.
pub mod Bounds
mod Tests
use Prim.Native.Nat.{◌-◌}
use ai_content_platform.Prelude.{
  ℕ, zero, suc, ◌+◌, Bool, true, false, not, ◌&&◌, Option, none, some, List, [], ◌∷◌, ◌++◌, length,
  keep, leb, ltb, nat_eq, if◌then◌else◌, codes, has_prefix, is_space,
}
use mathlib.Core.List.{reverse}

abbrev pub Text : Type 0
Text = List ℕ

abbrev pub space : ℕ
space = 32

abbrev pub is_empty {ℓ} : {A : Type ℓ} → List A → Bool
is_empty [] = true
is_empty (c ∷ s) = false

unfoldable pub trim_start : Text → Text
trim_start [] = []
trim_start (c ∷ s) = let rest = trim_start s in if is_space c then rest else c ∷ s

unfoldable pub trim_end : Text → Text
trim_end [] = []
trim_end (c ∷ s) = let rest = trim_end s in if is_empty rest && is_space c then [] else c ∷ rest

unfoldable pub trim : Text → Text
unfolding trim_start trim_end
trim s = trim_start (trim_end s)

-- `text.split(sep)` for a non-empty separator: what stands before the text has been read into
-- `cur`, and the units of a separator that has been found are skipped.
unfoldable pub split_from : Text → ℕ → Text → Text → List Text
split_from sep skip cur [] = cur ∷ []
split_from sep (suc k) cur (c ∷ s) = split_from sep k cur s
split_from sep zero cur (c ∷ s) =
    let found = cur ∷ split_from sep (length sep - 1) [] s in
    let longer = split_from sep zero (cur ++ c ∷ []) s in
    if has_prefix sep (c ∷ s) then found else longer

-- `text.split('')`.
unfoldable pub singles : Text → List Text
singles [] = []
singles (c ∷ s) = (c ∷ []) ∷ singles s

unfoldable pub split_text : Text → Text → List Text
unfolding split_from singles
split_text [] text = singles text
split_text (a ∷ sep) text = split_from (a ∷ sep) 0 [] text

-- The separators by priority; the last one is empty.
unfoldable pub separators : List Text
separators = (10 ∷ 10 ∷ []) ∷ (10 ∷ []) ∷ codes ". " ∷ codes "! " ∷ codes "? " ∷ codes " " ∷ [] ∷ []

-- The loop over the pieces; `deeper` splits by the remaining separators.
unfoldable pub gather : ℕ → Bool → (Text → List Text) → List Text → List Text
gather size last deeper [] = []
gather size last deeper (p ∷ ps) =
    (if ltb size (length p) && not last then deeper p else p ∷ []) ++ gather size last deeper ps

abbrev pub is_nonblank : Text → Bool
is_nonblank c = ltb 0 (length (trim c))

unfoldable pub recursive_split : List Text → ℕ → Text → List Text
unfolding gather split_text trim
recursive_split [] size text = text ∷ []
recursive_split (sep ∷ rest) size text =
    let deeper = recursive_split rest size in
    if leb (length text) size
    then text ∷ []
    else keep is_nonblank (gather size (is_empty rest) deeper (split_text sep text))

-- The loop of `getOverlapText` over the words from the last: `best` is the candidate so far.
unfoldable pub overlap_from : ℕ → Option Text → List Text → Text
overlap_from overlap none [] = []
overlap_from overlap (some best) [] = best
overlap_from overlap none (w ∷ ws) =
    let longer = overlap_from overlap (some w) ws in if leb (length w) overlap then longer else []
overlap_from overlap (some best) (w ∷ ws) =
    let longer = overlap_from overlap (some (w ++ space ∷ best)) ws in
    if leb (length (w ++ space ∷ best)) overlap then longer else best

unfoldable pub get_overlap_text : Text → ℕ → Text
unfolding overlap_from split_text
get_overlap_text text overlap =
    if is_empty text
    then []
    else (if nat_eq overlap 0
        then []
        else overlap_from overlap none (reverse (split_text (space ∷ []) text)))

-- `a ? a + ' ' + b : b`.
abbrev pub spaced : Text → Text → Text
spaced [] b = b
spaced (x ∷ a) b = (x ∷ a) ++ space ∷ b

abbrev pub emit_trimmed : Text → List Text → List Text
emit_trimmed [] rest = rest
emit_trimmed (c ∷ cur) rest = trim (c ∷ cur) ∷ rest

unfoldable pub merge : ℕ → ℕ → Text → List Text → List Text
unfolding get_overlap_text trim
merge size overlap cur [] = if is_empty (trim cur) then [] else trim cur ∷ []
merge size overlap cur (c ∷ cs) =
    let joined = merge size overlap (spaced cur c) cs in
    let started =
      emit_trimmed cur (merge size overlap (spaced (get_overlap_text cur overlap) c) cs) in
    if leb (length cur + length c + 1) size then joined else started

-- The sizes are the caller's or the configured defaults.
unfoldable pub split : ℕ → ℕ → Text → List Text
unfolding recursive_split merge separators
split chunk_size chunk_overlap text =
    merge chunk_size chunk_overlap [] (recursive_split separators chunk_size text)
