-- ===== src/Rag/Service/Kept.antt =====
-- What a search keeps of its world.
use ai_content_platform.Prelude.{
  ℕ, String, Bool, true, false, Option, List, [], ◌∷◌, Bool-cases, inl, inr,
}
use ai_content_platform.Domain.{SearchResult}
use ai_content_platform.Exceptions.{Settled, resolved, rejected}
use ai_content_platform.Rag.Splitter.{Text}
use ai_content_platform.Rag.Store.{VectorFilter}
use ai_content_platform.Rag.Service.{
  RagService, bind, accepts, select, filter_results, filtered, searched, located, search,
  collection_name, first, limit_or,
}

module _ {ℓ} {N W : Type 0} (P : W → Type ℓ) (p : RagService N W) (dropped : W → W) where
  -- The calls of a search, and its report of a violation.
  pub record IsKept : Type ℓ where
    pub embeds : (texts : List Text) (w : W) → P w → P (p.embed texts w).1
    pub looks : (name : String) (w : W) → P w → P (p.store.collection_exists name w).1
    pub searches :
        (name : String) (vector : Option (List N)) (limit : ℕ) (filter : VectorFilter) (w : W)
        → P w
        → P (p.store.search name vector limit filter w).1
    pub reports : (w : W) → P w → P (dropped w)

  module _ (k : IsKept) where
    bind-Keeps :
        {A B : Type 0} (given : Settled A × W) (f : A → W → Settled B × W)
        → P given.1
        → ((a : A) (w : W) → P w → P (f a w).1)
        → P (bind given f).1
    bind-Keeps (resolved a, w) f h next = next a w h
    bind-Keeps (rejected e, w) f h next = h

    filter_results-Keeps :
        (brand_id : String) (xs : List (SearchResult N)) (w : W)
        → P w
        → P (filter_results p brand_id dropped xs w).1
    unfolding filter_results select
    filter_results-Keeps brand_id [] w h = h
    filter_results-Keeps brand_id (x ∷ xs) w h = elim (Bool-cases (accepts p brand_id x)) [
      | inl e ↦ rw e (filter_results-Keeps brand_id xs w h)
      | inr e ↦ rw e (filter_results-Keeps brand_id xs (dropped w) (k.reports w h))
    ]

    searched-Keeps :
        (brand_id : String) (vector : Option (List N)) (limit : ℕ) (exists : Bool) (w : W)
        → P w
        → P (searched p brand_id vector limit dropped exists w).1
    unfolding searched filtered
    searched-Keeps brand_id vector limit false w h = h
    searched-Keeps brand_id vector limit true w h =
        bind-Keeps (p.store.search (collection_name brand_id) vector limit _ w) _
          (k.searches _ vector limit _ w h) λ raw u. filter_results-Keeps brand_id raw u

    -- A search keeps what its calls keep.
    pub search-Keeps :
        (brand_id : String) (query : Text) (limit : Option ℕ) (w : W)
        → P w
        → P (search p brand_id query limit dropped w).1
    unfolding search located
    search-Keeps brand_id query limit w h =
        bind-Keeps (p.embed (query ∷ []) w) _ (k.embeds _ w h) λ embeddings u g.
          bind-Keeps (p.store.collection_exists (collection_name brand_id) u) _ (k.looks _ u g)
            λ exists t.
              searched-Keeps brand_id (first embeddings) (limit_or limit p.search_limit) exists t
