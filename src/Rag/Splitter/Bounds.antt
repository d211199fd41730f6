-- ===== src/Rag/Splitter/Bounds.antt =====
-- How long the chunks of a split text can be.
use mathlib.Core.List.{reverse}
use ai_content_platform.Prelude.{
  ℕ, ◌+◌, ◌≤◌, ◌≡◌, refl, sym, subst, true, false, ◌&&◌, Option, none, some, List, [], ◌∷◌, ◌++◌,
  length, length-append, keep, All, All-append, All-keep, leb, ltb, nat_eq, is_space, if◌then◌else◌,
  if_rule, arith, Bool-cases, inl, inr,
}
use ai_content_platform.Rag.Splitter.{
  Text, space, is_empty, trim_start, trim_end, trim, singles, split_text, separators, gather,
  is_nonblank, recursive_split, overlap_from, emit_trimmed, get_overlap_text, spaced, emit_trimmed,
  merge, split,
}

length-trim_start-le : (s : Text) → length (trim_start s) ≤ length s
unfolding trim_start
length-trim_start-le [] = omega arith
length-trim_start-le (c ∷ s) = elim (Bool-cases (is_space c)) [
  | inl e ↦ rw e (omega (arith, length-trim_start-le s))
  | inr e ↦ rw e (omega arith)
]

length-trim_end-le : (s : Text) → length (trim_end s) ≤ length s
unfolding trim_end
length-trim_end-le [] = omega arith
length-trim_end-le (c ∷ s) = elim (Bool-cases (is_empty (trim_end s) && is_space c)) [
  | inl e ↦ rw e (omega arith)
  | inr e ↦ rw e (omega (arith, length-trim_end-le s))
]

pub length-trim-le : (s : Text) → length (trim s) ≤ length s
unfolding trim
length-trim-le s = omega (arith, length-trim_start-le (trim_end s), length-trim_end-le s)

singles-All : (s : Text) → All (λ p. length p ≤ 1) (singles s)
unfolding singles
singles-All [] = tt
singles-All (c ∷ s) = (omega arith, singles-All s)

abbrev pub Short : ℕ → List Text → Type 0
Short n = All (λ p. length p ≤ n)

-- The list of separators ends in the empty one.
abbrev pub EndsEmpty : List Text → Type 0
EndsEmpty [] = ⊥
EndsEmpty (sep ∷ []) = sep ≡ []
EndsEmpty (sep ∷ next ∷ more) = EndsEmpty (next ∷ more)

gather-deep :
    (size : ℕ) (deeper : Text → List Text) (ps : List Text)
    → ((p : Text) → Short size (deeper p))
    → Short size (gather size false deeper ps)
unfolding gather
gather-deep size deeper [] h = tt
gather-deep size deeper (p ∷ ps) h =
    All-append _ (if ltb size (length p) && true then deeper p else p ∷ [])
      (gather size false deeper ps)
      (if_rule (Short size) (ltb size (length p) && true) (λ e. h p) (λ e. (ground arith, tt)))
      (gather-deep size deeper ps h)

gather-last :
    (size : ℕ) (deeper : Text → List Text) (ps : List Text)
    → Short size ps
    → Short size (gather size true deeper ps)
unfolding gather
gather-last size deeper [] h = tt
gather-last size deeper (p ∷ ps) (k, h) =
    All-append _ (if ltb size (length p) && false then deeper p else p ∷ [])
      (gather size true deeper ps)
      (if_rule (Short size) (ltb size (length p) && false) (λ e. ground arith) (λ e. (k, tt)))
      (gather-last size deeper ps h)

weaken : (m n : ℕ) (ps : List Text) → m ≤ n → Short m ps → Short n ps
weaken m n [] k h = tt
weaken m n (p ∷ ps) k (x, h) = (omega arith, weaken m n ps k h)

Short-keep : (n : ℕ) (ps : List Text) → Short n ps → Short n (keep is_nonblank ps)
Short-keep n ps h = All-keep _ is_nonblank ps h

pub recursive_split-Short :
    (seps : List Text) (size : ℕ) (text : Text)
    → EndsEmpty seps
    → 1 ≤ size
    → Short size (recursive_split seps size text)
unfolding recursive_split split_text
recursive_split-Short [] size text e k = absurd e
recursive_split-Short (sep ∷ []) size text e k =
    if_rule (Short size) (leb (length text) size) (λ h. (ground arith, tt))
      λ h. Short-keep size (gather size true _ (split_text sep text)) (
        gather-last size _ (split_text sep text) (
          subst (λ x. Short size (split_text x text)) (sym e)
            (weaken 1 size (singles text) k (singles-All text))))
recursive_split-Short (sep ∷ next ∷ more) size text e k =
    if_rule (Short size) (leb (length text) size) (λ h. (ground arith, tt))
      λ h.
        Short-keep size
          (gather size false (recursive_split (next ∷ more) size) (split_text sep text))
          (gather-deep size (recursive_split (next ∷ more) size) (split_text sep text)
            (λ p. recursive_split-Short (next ∷ more) size p e k))

-- What `overlap_from` starts from fits the overlap.
abbrev Fits : ℕ → Option Text → Type 0
Fits n none = Unit {0}
Fits n (some best) = length best ≤ n

length-overlap_from-le :
    (n : ℕ) (o : Option Text) (ws : List Text) → Fits n o → length (overlap_from n o ws) ≤ n
unfolding overlap_from
length-overlap_from-le n none [] f = omega arith
length-overlap_from-le n (some best) [] f = f
length-overlap_from-le n none (w ∷ ws) f = elim (Bool-cases (leb (length w) n)) [
  | inl e ↦ rw e (length-overlap_from-le n (some w) ws (ground arith))
  | inr e ↦ rw e (omega arith)
]
length-overlap_from-le n (some best) (w ∷ ws) f =
    elim (Bool-cases (leb (length (w ++ space ∷ best)) n)) [
      | inl e ↦ rw e (length-overlap_from-le n (some (w ++ space ∷ best)) ws (ground arith))
      | inr e ↦ rw e f
    ]

pub length-get_overlap_text-le : (text : Text) (n : ℕ) → length (get_overlap_text text n) ≤ n
unfolding get_overlap_text
length-get_overlap_text-le [] n = omega arith
length-get_overlap_text-le (c ∷ text) n = elim (Bool-cases (nat_eq n 0)) [
  | inl e ↦ rw e (omega arith)
  | inr e ↦ rw e (length-overlap_from-le n none (reverse (split_text (space ∷ []) (c ∷ text))) tt)
]

length-spaced-le : (a b : Text) → length (spaced a b) ≤ length a + length b + 1
length-spaced-le [] b = omega arith
length-spaced-le (x ∷ a) b = omega (arith, length-append a (space ∷ b))

-- Every chunk of a merge fits one piece and one overlap, with the space between them.
abbrev bound : ℕ → ℕ → ℕ
bound size overlap = size + overlap + 1

started-Short :
    (n : ℕ) (cur : Text) (rest : List Text)
    → length cur ≤ n
    → Short n rest
    → Short n (emit_trimmed cur rest)
started-Short n [] rest k h = h
started-Short n (c ∷ cur) rest k h = (omega (arith, length-trim-le (c ∷ cur)), h)

merge-Short :
    (size overlap : ℕ) (cur : Text) (cs : List Text)
    → Short size cs
    → length cur ≤ bound size overlap
    → Short (bound size overlap) (merge size overlap cur cs)
unfolding merge
merge-Short size overlap cur [] h k =
    if_rule (Short (bound size overlap)) (is_empty (trim cur)) (λ e. tt)
      (λ e. (omega (arith, length-trim-le cur), tt))
merge-Short size overlap cur (c ∷ cs) (x, h) k =
    if_rule (Short (bound size overlap)) (leb (length cur + length c + 1) size)
      (λ e. merge-Short size overlap (spaced cur c) cs h (ground (arith, length-spaced-le cur c)))
      (λ e. started-Short (bound size overlap) cur _ k (
        merge-Short size overlap (spaced (get_overlap_text cur overlap) c) cs h (
          omega (
            arith,
            length-spaced-le (get_overlap_text cur overlap) c,
            length-get_overlap_text-le cur overlap,
          ))))

-- No chunk of a split text is longer than the chunk size, the overlap and one space together,
-- whatever the text, as long as the chunk size is not zero.
pub split-Short :
    (chunk_size chunk_overlap : ℕ) (text : Text)
    → 1 ≤ chunk_size
    → Short (chunk_size + chunk_overlap + 1) (split chunk_size chunk_overlap text)
unfolding split separators
split-Short chunk_size chunk_overlap text k =
    merge-Short chunk_size chunk_overlap [] (recursive_split separators chunk_size text)
      (recursive_split-Short separators chunk_size text refl k) (omega arith)
