-- ===== src/Agents/Ranking/Names.antt =====
-- Lists of names: predicates over lists, and the set that `unique` makes of a list.
use ai_content_platform.Prelude.{
  String, ◌≡◌, ◌≢◌, refl, sym, subst, true, false, List, [], ◌∷◌, map, str_mem, arith, All,
  All-append, Bool-cases, ◌⊎◌, inl, inr, ◌==◌, eq_iff, eq_refl,
}
use ai_content_platform.Agents.Ranking.{unique, flatten}

abbrev pub Absent : String → List String → Type 0
Absent id = All (λ x. x ≢ id)

abbrev pub Distinct : List String → Type 0
Distinct [] = Unit
Distinct (x ∷ xs) = Absent x xs × Distinct xs

pub All-map {ℓ} :
    {A B : Type 0} (P : B → Type ℓ) (f : A → B) (xs : List A)
    → All (λ x. P (f x)) xs
    → All P (map f xs)
All-map P f [] h = tt
All-map P f (x ∷ xs) (p, h) = (p, All-map P f xs h)

pub All-unmap {ℓ} :
    {A B : Type 0} (P : B → Type ℓ) (f : A → B) (xs : List A)
    → All P (map f xs)
    → All (λ x. P (f x)) xs
All-unmap P f [] h = tt
All-unmap P f (x ∷ xs) (p, h) = (p, All-unmap P f xs h)

pub All-weaken {ℓ κ} :
    {A : Type 0} (P : A → Type ℓ) (Q : A → Type κ) (xs : List A)
    → ((x : A) → P x → Q x)
    → All P xs
    → All Q xs
All-weaken P Q [] f h = tt
All-weaken P Q (x ∷ xs) f (p, h) = (f x p, All-weaken P Q xs f h)

pub All-both {ℓ κ} :
    {A : Type 0} (P : A → Type ℓ) (Q : A → Type κ) (xs : List A)
    → All P xs
    → All Q xs
    → All (λ x. P x × Q x) xs
All-both P Q [] h k = tt
All-both P Q (x ∷ xs) (p, h) (q, k) = ((p, q), All-both P Q xs h k)

pub All-flatten {ℓ} :
    {A : Type 0} (P : A → Type ℓ) (ls : List (List A)) → All (All P) ls → All P (flatten ls)
unfolding flatten
All-flatten P [] h = tt
All-flatten P (l ∷ ls) (p, h) = All-append P l (flatten ls) p (All-flatten P ls h)

pub not_seen :
    (x y : String) (seen : List String)
    → str_mem x (y ∷ seen) ≡ false
    → (x ≢ y) × (str_mem x seen ≡ false)
not_seen x y seen h = (λ e. elim (never e) [ ], ground arith)
  where
    never : x ≡ y → ⊥
    never e = ground (arith, e, eq_iff y x)

unique-fresh : (seen xs : List String) → All (λ x. str_mem x seen ≡ false) (unique seen xs)
unfolding unique
unique-fresh seen [] = tt
unique-fresh seen (x ∷ xs) = elim (Bool-cases (str_mem x seen)) [
  | inl old ↦ rw old (unique-fresh seen xs)
  | inr new ↦ rw new (
    new,
    All-weaken _ _ (unique (x ∷ seen) xs) (λ y h. (not_seen y x seen h).1)
        (unique-fresh (x ∷ seen) xs),
  )
]

behind :
    (x : String) (xs : List String) (y : String) → str_mem y xs ≡ true → str_mem y (x ∷ xs) ≡ true
behind x xs y h = ground arith

pub later :
    (x : String) (seen rest : List String) (y : String)
    → (str_mem y (x ∷ seen) ≡ true) ⊎ (str_mem y rest ≡ true)
    → (str_mem y seen ≡ true) ⊎ (str_mem y (x ∷ rest) ≡ true)
later x seen rest y (inl h) = elim (Bool-cases (x == y)) [
  | inl same ↦ inr (ground (arith, same))
  | inr other ↦ inl (ground (arith, other))
]
later x seen rest y (inr h) = inr (behind x rest y h)

unique-old :
    (seen xs : List String) (x : String)
    → str_mem x seen ≡ true
    → unique seen (x ∷ xs) ≡ unique seen xs
unfolding unique
unique-old seen xs x old = rw old refl

unique-new :
    (seen xs : List String) (x : String)
    → str_mem x seen ≡ false
    → unique seen (x ∷ xs) ≡ x ∷ unique (x ∷ seen) xs
unfolding unique
unique-new seen xs x new = rw new refl

abbrev pub Held : List String → List String → List String → Type 0
Held seen rest = All (λ y. (str_mem y seen ≡ true) ⊎ (str_mem y rest ≡ true))

-- The set holds what the list holds, less what has been seen.
pub unique-listed : (seen xs : List String) → Held seen (unique seen xs) xs
unique-listed seen [] = tt
unique-listed seen (x ∷ xs) = elim (Bool-cases (str_mem x seen)) [
  | inl old ↦ (
    inl old,
    subst (λ u. Held seen u xs) (sym (unique-old seen xs x old)) (unique-listed seen xs),
  )
  | inr new ↦
      subst (λ u. Held seen u (x ∷ xs)) (sym (unique-new seen xs x new))
        (
          inr (ground (arith, eq_refl x)),
          All-weaken _ _ xs (later x seen (unique (x ∷ seen) xs)) (unique-listed (x ∷ seen) xs),
        )
]

pub unique-sourced : (seen xs : List String) → All (λ x. str_mem x xs ≡ true) (unique seen xs)
unfolding unique
unique-sourced seen [] = tt
unique-sourced seen (x ∷ xs) = elim (Bool-cases (str_mem x seen)) [
  | inl old ↦ rw old (All-weaken _ _ (unique seen xs) (behind x xs) (unique-sourced seen xs))
  | inr new ↦ rw new (
    ground (arith, eq_refl x),
    All-weaken _ _ (unique (x ∷ seen) xs) (behind x xs) (unique-sourced (x ∷ seen) xs),
  )
]

-- Each name of a set is listed once.
pub unique-Distinct : (seen xs : List String) → Distinct (unique seen xs)
unfolding unique
unique-Distinct seen [] = tt
unique-Distinct seen (x ∷ xs) = elim (Bool-cases (str_mem x seen)) [
  | inl old ↦ rw old (unique-Distinct seen xs)
  | inr new ↦ rw new (
    All-weaken _ _ (unique (x ∷ seen) xs) (λ y h. (not_seen y x seen h).0)
        (unique-fresh (x ∷ seen) xs),
    unique-Distinct (x ∷ seen) xs,
  )
]
