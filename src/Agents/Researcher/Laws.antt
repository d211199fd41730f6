-- ===== src/Agents/Researcher/Laws.antt =====
-- What the researcher hands on to the generator.
use ai_content_platform.Prelude.{
  String, Bool, not, ◌||◌, nat_eq, length, ◌≡◌, true, false, List, [], take, map, str_mem, All,
}
use ai_content_platform.Domain.{SearchResult}
use ai_content_platform.Exceptions.{Settled, resolved}
use ai_content_platform.Contracts.{passes, retrieval_result_checks}
use ai_content_platform.Agents.Context.{AgentContext}
use ai_content_platform.Agents.Ranking.{flatten}
use ai_content_platform.Agents.Ranking.Names.{Distinct}
use ai_content_platform.Agents.Ranking.Complete.{Ranked}
use ai_content_platform.Agents.Ranking.Laws.{IsOrder, IsDescending, ids}
use ai_content_platform.Agents.Services.{RunState, AgentServices}
use ai_content_platform.Agents.Researcher.{ResearcherServices, in_time, search_each, rag_timeout_of}

module _ {N J W : Type 0} (v : AgentServices N J W) (p : ResearcherServices N J W) where
  abbrev pub IsTrusted : String → SearchResult N → Type 0
  IsTrusted brand_id x =
      ((passes (retrieval_result_checks p.rag.zod x) ≡ true) × (x.metadata.brand_id ≡ brand_id))
      × (p.scores.above x.score ≡ true)

  -- What the searches of a run have found, best first: each chunk once, all of the brand, within
  -- the contract and above the threshold.
  pub record IsRanking (brand_id : String) (ranking : List (SearchResult N)) : Type 0 where
    pub distinct : Distinct (ids p.scores ranking)
    pub descending : IsDescending p.scores ranking
    pub trusted : All (IsTrusted brand_id) ranking

  -- The names are the sources of the chunks: every chunk's file is named, every name is the file of
  -- a chunk, and none is named twice.
  pub record Cites (ranking : List (SearchResult N)) (names : List String) : Type 0 where
    pub complete : All (λ r. str_mem r.metadata.filename names ≡ true) ranking
    pub sourced : All (λ name. str_mem name (map (λ r. r.metadata.filename) ranking) ≡ true) names
    pub once : Distinct names

  -- What the searches for the queries of a run have found: nothing, if they are skipped or not in
  -- time, and otherwise the results of each query, from the state of the run at that time on.
  pub data Searched (brand_id : String) (queries : List String) (enabled : Bool)
      : List (SearchResult N) → Type 0 where
    skipped :
        (not enabled || nat_eq (length queries) 0) ≡ true → Searched brand_id queries enabled []
    late :
        (t : RunState N W)
        → in_time (rag_timeout_of p.degradation_service) (p.search_took t) ≡ false
        → Searched brand_id queries enabled []
    arrived :
        (t : RunState N W)
        → Searched brand_id queries enabled (flatten (search_each v p brand_id queries t).0)

  -- What the generator may rely on: the context is the best fifteen of a ranking of the results, in
  -- which every result above the threshold is found by its id, and the citations are the sources of
  -- that ranking.
  pub IsGrounded : String → List (SearchResult N) → List (SearchResult N) → List String → Type 0
  IsGrounded brand_id results found names =
      (ranking : List (SearchResult N)) × IsRanking brand_id ranking
      × All (Ranked p.scores ranking) results
      × (found ≡ take 15 ranking)
      × Cites ranking names

  module _ (k : IsOrder p.scores) where
    -- The outcome of a stage, what the searches have found, and what the stage leaves of it.
    abbrev pub Succeeds : String → List String → Bool → Settled (Unit {0}) × RunState N W → Type 0
    Succeeds brand_id queries enabled given =
        (given.0 ≡ resolved tt)
        × ((results : List (SearchResult N)) × Searched brand_id queries enabled results
            × IsGrounded brand_id results given.1.ctx.rag_context given.1.ctx.citations)

    abbrev Done : AgentContext N → Settled (Unit {0}) × RunState N W → Type 0
    Done ctx = Succeeds ctx.brand_id ctx.search_queries ctx.brand_config.rag_enabled
