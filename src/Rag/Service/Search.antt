-- ===== src/Rag/Service/Search.antt =====
-- A search keeps the brands apart.
use ai_content_platform.Prelude.{
  ℕ, ◌+◌, String, ◌≡◌, refl, subst, inl, inr, Bool, true, false, Option, none, some, List, [], ◌∷◌,
  arith, eq_iff, length, All, Bool-cases,
}
use ai_content_platform.Domain.{SearchResult}
use ai_content_platform.Exceptions.{resolved}
use ai_content_platform.Contracts.{passes, retrieval_result_checks}
use ai_content_platform.Rag.Splitter.{Text}
use ai_content_platform.Rag.Service.{
  RagService, accepts, select, filter_results, filtered, searched, located, search, collection_name,
  first, limit_or,
}
use ai_content_platform.Rag.Service.Calls.{after}

module _ {N W : Type 0} (p : RagService N W) where
  abbrev pub Isolated : String → List (SearchResult N) → Type 0
  Isolated brand_id =
      All
        (λ x. (passes (retrieval_result_checks p.zod x) ≡ true) × (x.metadata.brand_id ≡ brand_id))

  filter_results-Isolated :
      (brand_id : String) (dropped : W → W) (xs : List (SearchResult N)) (w : W)
      → Isolated brand_id (filter_results p brand_id dropped xs w).0
  unfolding filter_results
  filter_results-Isolated brand_id dropped [] w = tt
  filter_results-Isolated brand_id dropped (x ∷ xs) w = elim (Bool-cases (accepts p brand_id x)) [
    | inl e ↦
        rw (e, select)
          (
            ground (arith, e, eq_iff x.metadata.brand_id brand_id),
            filter_results-Isolated brand_id dropped xs w,
          )
    | inr e ↦ rw (e, select) (filter_results-Isolated brand_id dropped xs (dropped w))
  ]

  filtered-Isolated :
      (brand_id : String) (dropped : W → W) (raw xs : List (SearchResult N)) (w : W)
      → (filtered p brand_id dropped raw w).0 ≡ resolved xs
      → Isolated brand_id xs
  unfolding filtered
  filtered-Isolated brand_id dropped raw xs w h =
      let e : (filter_results p brand_id dropped raw w).0 ≡ xs = ground arith in
      subst (Isolated brand_id) e (filter_results-Isolated brand_id dropped raw w)

  searched-Isolated :
      (brand_id : String) (vector : Option (List N)) (limit : ℕ) (dropped : W → W) (exists : Bool)
      (w : W) (xs : List (SearchResult N))
      → (searched p brand_id vector limit dropped exists w).0 ≡ resolved xs
      → Isolated brand_id xs
  unfolding searched
  searched-Isolated brand_id vector limit dropped false w xs h =
      let e : ◌≡◌ {A = List (SearchResult N)} [] xs = ground arith in subst (Isolated brand_id) e tt
  searched-Isolated brand_id vector limit dropped true w xs h =
      after
        (p.store.search (collection_name brand_id) vector limit
          (record { brand_id = some brand_id; document_id = none }) w)
        (filtered p brand_id dropped) xs h
        λ raw u _ k. filtered-Isolated brand_id dropped raw xs u k

  located-Isolated :
      (brand_id : String) (limit : ℕ) (dropped : W → W) (embeddings : List (List N)) (w : W)
      (xs : List (SearchResult N))
      → (located p brand_id limit dropped embeddings w).0 ≡ resolved xs
      → Isolated brand_id xs
  unfolding located
  located-Isolated brand_id limit dropped embeddings w xs h =
      after (p.store.collection_exists (collection_name brand_id) w)
        (searched p brand_id (first embeddings) limit dropped) xs h
        λ exists u _ k. searched-Isolated brand_id (first embeddings) limit dropped exists u xs k

  -- Whatever the vector store answers, a search returns only chunks of its own brand that meet the
  -- result contract.
  pub search-Isolated :
      (brand_id : String) (query : Text) (limit : Option ℕ) (dropped : W → W) (w : W)
      (xs : List (SearchResult N))
      → (search p brand_id query limit dropped w).0 ≡ resolved xs
      → Isolated brand_id xs
  unfolding search
  search-Isolated brand_id query limit dropped w xs h =
      after (p.embed (query ∷ []) w) (located p brand_id (limit_or limit p.search_limit) dropped) xs
        h
        λ embeddings u _ k.
          located-Isolated brand_id (limit_or limit p.search_limit) dropped embeddings u xs k

  -- A returned chunk and a reported violation: together they are as many as the store's answers, if
  -- the callback counts one.
  pub filter_results-count :
      (brand_id : String) (dropped : W → W) (count : W → ℕ) (xs : List (SearchResult N)) (w : W)
      → ((u : W) → count (dropped u) ≡ count u + 1)
      → length (filter_results p brand_id dropped xs w).0
          + count (filter_results p brand_id dropped xs w).1
        ≡ length xs + count w
  unfolding filter_results
  filter_results-count brand_id dropped count [] w k = refl
  filter_results-count brand_id dropped count (x ∷ xs) w k =
      elim (Bool-cases (accepts p brand_id x)) [
        | inl e ↦ rw (e, select) (omega (arith, filter_results-count brand_id dropped count xs w k))
        | inr e ↦
            rw (e, select)
              (omega (arith, filter_results-count brand_id dropped count xs (dropped w) k, k w))
      ]
