-- ===== src/Agents/Ranking/Laws.antt =====
-- The ranking of the results.
use mathlib.Core.List.{Perm}
use mathlib.Core.List.Perm
use ai_content_platform.Prelude.{
  ℕ, zero, suc, String, ◌≡◌, ◌≢◌, sym, true, false, List, [], ◌∷◌, take, map, str_mem, arith, All,
  All-take, Bool-cases, inl, inr,
}
use ai_content_platform.Domain.{SearchResult}
use ai_content_platform.Agents.Ranking.{Scores, is_new, dedupe, place, sort}
use ai_content_platform.Agents.Ranking.Names.{
  Absent, Distinct, All-map, All-unmap, All-weaken, not_seen,
}

-- A comparison that is asymmetric, and whose negation is transitive.
pub record IsOrder {N : Type 0} (o : Scores N) : Type 0 where
  pub asymmetric : (a b : N) → o.less a b ≡ true → o.less b a ≡ false
  pub transitive : (a b c : N) → o.less a b ≡ false → o.less b c ≡ false → o.less a c ≡ false

module _ {N : Type 0} (o : Scores N) where
  abbrev pub ids : List (SearchResult N) → List String
  ids = map (λ r. r.chunk_id)

  pub All-dedupe {ℓ} :
      (P : SearchResult N → Type ℓ) (seen : List String) (xs : List (SearchResult N))
      → All P xs
      → All P (dedupe o seen xs)
  unfolding dedupe
  All-dedupe P seen [] h = tt
  All-dedupe P seen (x ∷ xs) (p, h) = elim (Bool-cases (is_new o seen x)) [
    | inl new ↦ rw new (p, All-dedupe P (x.chunk_id ∷ seen) xs h)
    | inr old ↦ rw old (All-dedupe P seen xs h)
  ]

  dedupe-fresh :
      (seen : List String) (xs : List (SearchResult N))
      → All (λ r. str_mem r.chunk_id seen ≡ false) (dedupe o seen xs)
  unfolding dedupe
  dedupe-fresh seen [] = tt
  dedupe-fresh seen (x ∷ xs) = elim (Bool-cases (is_new o seen x)) [
    | inl new ↦ rw new (
      ground (arith, new),
      All-weaken _ _ (dedupe o (x.chunk_id ∷ seen) xs)
          (λ r h. (not_seen r.chunk_id x.chunk_id seen h).1) (dedupe-fresh (x.chunk_id ∷ seen) xs),
    )
    | inr old ↦ rw old (dedupe-fresh seen xs)
  ]

  pub dedupe-above :
      (seen : List String) (xs : List (SearchResult N))
      → All (λ r. o.above r.score ≡ true) (dedupe o seen xs)
  unfolding dedupe
  dedupe-above seen [] = tt
  dedupe-above seen (x ∷ xs) = elim (Bool-cases (is_new o seen x)) [
    | inl new ↦ rw new (ground (arith, new), dedupe-above (x.chunk_id ∷ seen) xs)
    | inr old ↦ rw old (dedupe-above seen xs)
  ]

  pub dedupe-Distinct :
      (seen : List String) (xs : List (SearchResult N)) → Distinct (ids (dedupe o seen xs))
  unfolding dedupe
  dedupe-Distinct seen [] = tt
  dedupe-Distinct seen (x ∷ xs) = elim (Bool-cases (is_new o seen x)) [
    | inl new ↦ rw new (
      All-map (λ y. y ≢ x.chunk_id) (λ r. r.chunk_id) (dedupe o (x.chunk_id ∷ seen) xs)
          (All-weaken _ _ (dedupe o (x.chunk_id ∷ seen) xs)
            (λ r h. (not_seen r.chunk_id x.chunk_id seen h).0)
            (dedupe-fresh (x.chunk_id ∷ seen) xs)),
      dedupe-Distinct (x.chunk_id ∷ seen) xs,
    )
    | inr old ↦ rw old (dedupe-Distinct seen xs)
  ]

  pub All-place {ℓ} :
      (P : SearchResult N → Type ℓ) (r : SearchResult N) (xs : List (SearchResult N))
      → P r
      → All P xs
      → All P (place o r xs)
  unfolding place
  All-place P r [] p h = (p, tt)
  All-place P r (x ∷ xs) p (q, h) = elim (Bool-cases (o.less r.score x.score)) [
    | inl lower ↦ rw lower (q, All-place P r xs p h)
    | inr upper ↦ rw upper (p, (q, h))
  ]

  pub All-sort {ℓ} :
      (P : SearchResult N → Type ℓ) (xs : List (SearchResult N)) → All P xs → All P (sort o xs)
  unfolding sort
  All-sort P [] h = tt
  All-sort P (x ∷ xs) (p, h) = All-place P x (sort o xs) p (All-sort P xs h)

  place-perm : (r : SearchResult N) (xs : List (SearchResult N)) → Perm (place o r xs) (r ∷ xs)
  unfolding place
  place-perm r [] = Perm.rfl
  place-perm r (x ∷ xs) = elim (Bool-cases (o.less r.score x.score)) [
    | inl lower ↦ rw lower (Perm.trans (Perm.cons x (place-perm r xs)) (Perm.swap r x xs))
    | inr upper ↦ rw upper Perm.rfl
  ]

  pub sort-perm : (xs : List (SearchResult N)) → Perm (sort o xs) xs
  unfolding sort
  sort-perm [] = Perm.rfl
  sort-perm (x ∷ xs) = Perm.trans (place-perm x (sort o xs)) (Perm.cons x (sort-perm xs))

  Distinct-place :
      (r : SearchResult N) (xs : List (SearchResult N))
      → Absent r.chunk_id (ids xs)
      → Distinct (ids xs)
      → Distinct (ids (place o r xs))
  unfolding place
  Distinct-place r [] a d = (tt, tt)
  Distinct-place r (x ∷ xs) (n, a) (b, d) = elim (Bool-cases (o.less r.score x.score)) [
    | inl lower ↦ rw lower (
      All-map (λ y. y ≢ x.chunk_id) (λ z. z.chunk_id) (place o r xs)
          (All-place (λ z. z.chunk_id ≢ x.chunk_id) r xs (λ e. n (sym e))
            (All-unmap (λ y. y ≢ x.chunk_id) (λ z. z.chunk_id) xs b)),
      Distinct-place r xs a d,
    )
    | inr upper ↦ rw upper ((n, a), (b, d))
  ]

  pub Distinct-sort : (xs : List (SearchResult N)) → Distinct (ids xs) → Distinct (ids (sort o xs))
  unfolding sort
  Distinct-sort [] d = tt
  Distinct-sort (x ∷ xs) (a, d) =
      Distinct-place x (sort o xs)
        (All-map (λ y. y ≢ x.chunk_id) (λ z. z.chunk_id) (sort o xs)
          (All-sort (λ z. z.chunk_id ≢ x.chunk_id) xs
            (All-unmap (λ y. y ≢ x.chunk_id) (λ z. z.chunk_id) xs a)))
        (Distinct-sort xs d)

  pub Distinct-take :
      (n : ℕ) (xs : List (SearchResult N)) → Distinct (ids xs) → Distinct (ids (take n xs))
  Distinct-take zero xs d = tt
  Distinct-take (suc n) [] d = tt
  Distinct-take (suc n) (x ∷ xs) (a, d) = (
    All-map (λ y. y ≢ x.chunk_id) (λ z. z.chunk_id) (take n xs)
        (All-take (λ z. z.chunk_id ≢ x.chunk_id) n xs
          (All-unmap (λ y. y ≢ x.chunk_id) (λ z. z.chunk_id) xs a)),
    Distinct-take n xs d,
  )

  -- No result is followed by one that scores higher.
  abbrev pub IsDescending : List (SearchResult N) → Type 0
  IsDescending [] = Unit
  IsDescending (x ∷ xs) = All (λ y. o.less x.score y.score ≡ false) xs × IsDescending xs

  module _ (k : IsOrder o) where
    place-IsDescending :
        (r : SearchResult N) (xs : List (SearchResult N))
        → IsDescending xs
        → IsDescending (place o r xs)
    unfolding place
    place-IsDescending r [] d = (tt, tt)
    place-IsDescending r (x ∷ xs) (b, d) = elim (Bool-cases (o.less r.score x.score)) [
      | inl lower ↦ rw lower (
        All-place (λ y. o.less x.score y.score ≡ false) r xs (k.asymmetric r.score x.score lower) b,
        place-IsDescending r xs d,
      )
      | inr upper ↦ rw upper (
        (upper, All-weaken _ _ xs (λ y h. k.transitive r.score x.score y.score upper h) b),
        (b, d),
      )
    ]

    pub sort-IsDescending : (xs : List (SearchResult N)) → IsDescending (sort o xs)
    unfolding sort
    sort-IsDescending [] = tt
    sort-IsDescending (x ∷ xs) = place-IsDescending x (sort o xs) (sort-IsDescending xs)

  pub take-IsDescending :
      (n : ℕ) (xs : List (SearchResult N)) → IsDescending xs → IsDescending (take n xs)
  take-IsDescending zero xs d = tt
  take-IsDescending (suc n) [] d = tt
  take-IsDescending (suc n) (x ∷ xs) (b, d) =
      (All-take (λ y. o.less x.score y.score ≡ false) n xs b, take-IsDescending n xs d)
