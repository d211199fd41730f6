-- ===== src/Agents/Ranking/Complete.antt =====
-- No result is lost by the ranking.
use ai_content_platform.Prelude.{
  String, ◌≡◌, refl, sym, subst, ◌⊎◌, inl, inr, true, false, List, [], ◌∷◌, str_mem, arith, All,
  Bool-cases, eq_refl,
}
use ai_content_platform.Domain.{SearchResult}
use ai_content_platform.Agents.Ranking.{Scores, is_new, dedupe, place, sort}
use ai_content_platform.Agents.Ranking.Names.{All-weaken, later}
use ai_content_platform.Agents.Ranking.Laws.{ids}

module _ {N : Type 0} (o : Scores N) where
  dedupe-new :
      (seen : List String) (xs : List (SearchResult N)) (x : SearchResult N)
      → is_new o seen x ≡ true
      → dedupe o seen (x ∷ xs) ≡ x ∷ dedupe o (x.chunk_id ∷ seen) xs
  unfolding dedupe
  dedupe-new seen xs x new = rw new refl

  dedupe-old :
      (seen : List String) (xs : List (SearchResult N)) (x : SearchResult N)
      → is_new o seen x ≡ false
      → dedupe o seen (x ∷ xs) ≡ dedupe o seen xs
  unfolding dedupe
  dedupe-old seen xs x old = rw old refl

  old_lem :
      (seen : List String) (x : SearchResult N)
      → is_new o seen x ≡ false
      → (o.above x.score ≡ false) ⊎ (str_mem x.chunk_id seen ≡ true)
  old_lem seen x old = elim (Bool-cases (str_mem x.chunk_id seen)) [
    | inl known ↦ inr known
    | inr fresh ↦ inl (ground (arith, old, fresh))
  ]

  -- A result is not above the threshold, or its id has been seen, or is among some ids.
  abbrev Accounted : List String → List String → SearchResult N → Type 0
  Accounted seen listed x =
      (o.above x.score ≡ false)
      ⊎ ((str_mem x.chunk_id seen ≡ true) ⊎ (str_mem x.chunk_id listed ≡ true))

  by_old :
      (seen listed : List String) (x : SearchResult N)
      → (o.above x.score ≡ false) ⊎ (str_mem x.chunk_id seen ≡ true)
      → Accounted seen listed x
  by_old seen listed x (inl low) = inl low
  by_old seen listed x (inr known) = inr (inl known)

  by_new :
      (seen listed : List String) (id : String) (x : SearchResult N)
      → Accounted (id ∷ seen) listed x
      → Accounted seen (id ∷ listed) x
  by_new seen listed id x (inl low) = inl low
  by_new seen listed id x (inr h) = inr (later id seen listed x.chunk_id h)

  dedupe-Accounted :
      (seen : List String) (xs : List (SearchResult N))
      → All (Accounted seen (ids o (dedupe o seen xs))) xs
  dedupe-Accounted seen [] = tt
  dedupe-Accounted seen (x ∷ xs) = elim (Bool-cases (is_new o seen x)) [
    | inl new ↦
        subst (λ l. All (Accounted seen (ids o l)) (x ∷ xs)) (sym (dedupe-new seen xs x new))
          (
            inr (inr (ground (arith, eq_refl x.chunk_id))),
            All-weaken _ _ xs (by_new seen (ids o (dedupe o (x.chunk_id ∷ seen) xs)) x.chunk_id)
                (dedupe-Accounted (x.chunk_id ∷ seen) xs),
          )
    | inr old ↦
        subst (λ l. All (Accounted seen (ids o l)) (x ∷ xs)) (sym (dedupe-old seen xs x old))
          (by_old seen (ids o (dedupe o seen xs)) x (old_lem seen x old), dedupe-Accounted seen xs)
  ]

  place-mem :
      (id : String) (r : SearchResult N) (xs : List (SearchResult N))
      → str_mem id (ids o (r ∷ xs)) ≡ true
      → str_mem id (ids o (place o r xs)) ≡ true
  unfolding place
  place-mem id r [] h = h
  place-mem id r (x ∷ xs) h = ground (arith, place-mem id r xs)

  sort-mem :
      (id : String) (xs : List (SearchResult N))
      → str_mem id (ids o xs) ≡ true
      → str_mem id (ids o (sort o xs)) ≡ true
  unfolding sort
  sort-mem id [] h = h
  sort-mem id (x ∷ xs) h = ground (arith, place-mem id x (sort o xs), sort-mem id xs)

  -- Every result above the threshold has its id in the ranking.
  abbrev pub Ranked : List (SearchResult N) → SearchResult N → Type 0
  Ranked ranking x = (o.above x.score ≡ false) ⊎ (str_mem x.chunk_id (ids o ranking) ≡ true)

  accounted_lem :
      (xs : List (SearchResult N)) (x : SearchResult N)
      → Accounted [] (ids o xs) x
      → Ranked (sort o xs) x
  accounted_lem xs x (inl low) = inl low
  accounted_lem xs x (inr (inl h)) = cc
  accounted_lem xs x (inr (inr h)) = inr (sort-mem x.chunk_id xs h)

  pub sort-dedupe-Ranked : (xs : List (SearchResult N)) → All (Ranked (sort o (dedupe o [] xs))) xs
  sort-dedupe-Ranked xs =
      All-weaken _ _ xs (accounted_lem (dedupe o [] xs)) (dedupe-Accounted [] xs)
