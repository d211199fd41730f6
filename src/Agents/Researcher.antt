-- ===== src/Agents/Researcher.antt =====
-- src/agents/agents/researcher.agent.ts. The searches, which run at the same time, are taken one
-- after the other. The past memories that the agent leaves on the context are read by nobody, and
-- left out.
pub mod Laws
use ai_content_platform.Prelude.{
  ℕ, zero, String, Bool, true, false, not, ◌||◌, Option, none, some, List, [], ◌∷◌, if◌then◌else◌,
  take, map, ltb, utf16, length, nat_eq,
}
use ai_content_platform.Domain.{SearchResult, researcher}
use ai_content_platform.Exceptions.{Settled, resolved, rejected}
use ai_content_platform.Resilience.{
  DegradationService, rag_timeout, memory_timeout, contract_violation,
}
use ai_content_platform.Rag.Service.{RagService, search}
use ai_content_platform.Memory.{MemoryService, MemoryQueryOptions, RelevantMemory, query_relevant}
use ai_content_platform.Agents.Context.{AgentContext, Effect, affected, degrade}
use ai_content_platform.Agents.Orchestrator.{M, ◌>>=◌, ◌>>◌}
use ai_content_platform.Agents.Ranking.{Scores, dedupe, sort, unique, flatten}
use ai_content_platform.Agents.Services.{
  Shared, RunState, AgentServices, no_tokens, checked, assign, note_step, note_duration,
}

-- `recall_took` and `search_took` are the times that the recall and the searches take, `none` if
-- they never settle; the two `cut` functions are what an overdue one has done when its timer fires,
-- to the context (its effects) and to the world. What it still does later is part of later calls.
pub record ResearcherServices (N J W : Type 0) : Type 0 where
  pub memory : MemoryService N J (Shared W)
  pub rag : RagService N (RunState N W)
  pub scores : Scores N
  pub degradation_service : Option DegradationService
  pub recall_took : Shared W → Option ℕ
  pub recall_cut : Shared W → Shared W
  pub search_took : RunState N W → Option ℕ
  pub search_cut : RunState N W → List (Effect N) × Shared W

abbrev pub recall_options : MemoryQueryOptions
recall_options = record { event_type = none; limit = some 3 }

-- The winner of a race with a timer of `limit` milliseconds.
abbrev pub in_time : ℕ → Option ℕ → Bool
in_time limit none = false
in_time limit (some took) = ltb took limit

abbrev pub rag_timeout_of : Option DegradationService → ℕ
rag_timeout_of none = 5000
rag_timeout_of (some d) = d.rag_timeout_ms

module _ {N : Type 0} where
  abbrev pub with_sources : List (SearchResult N) → List String → AgentContext N → AgentContext N
  with_sources found names ctx = record ctx { rag_context = found; citations = names }

  unfoldable pub is_skipped : AgentContext N → Bool
  is_skipped ctx = not ctx.brand_config.rag_enabled || nat_eq (length ctx.search_queries) 0

module _ {N W : Type 0} where
  -- `.catch(() => [])`.
  abbrev pub caught :
      Settled (List (SearchResult N)) × RunState N W → List (SearchResult N) × RunState N W
  caught (resolved xs, s) = (xs, s)
  caught (rejected e, s) = ([], s)

  abbrev pub report_violation : RunState N W → RunState N W
  report_violation s = record s { ctx = degrade contract_violation s.ctx }

module _ {N J W : Type 0} (v : AgentServices N J W) (p : ResearcherServices N J W) where
  unfoldable pub recalled :
      AgentContext N
      → Settled (List (RelevantMemory N J)) × Shared W
      → Settled (Unit {0}) × RunState N W
  recalled ctx (resolved ms, w) = (resolved tt, record { ctx = ctx; world = w })
  recalled ctx (rejected e, w) = (rejected e, record { ctx = ctx; world = w })

  -- The recall of past generations, raced with 200 milliseconds.
  unfoldable pub recall : M N (Shared W) (Unit {0})
  unfolding recalled
  recall s =
      if in_time 200 (p.recall_took s.world)
      then recalled s.ctx
          (query_relevant p.memory s.ctx.brand_id s.ctx.topic recall_options s.world)
      else (
        resolved tt,
        record { ctx = degrade memory_timeout s.ctx; world = p.recall_cut s.world },
      )

  unfoldable pub search_each :
      String → List String → RunState N W → List (List (SearchResult N)) × RunState N W
  search_each brand_id [] s = ([], s)
  search_each brand_id (q ∷ qs) s =
      let found = caught (search p.rag brand_id (utf16 q) (some 5) report_violation s) in
      let rest = search_each brand_id qs found.1 in (found.0 ∷ rest.0, rest.1)

  -- The results that survive the duplicates and the threshold, best first.
  unfoldable pub ranked : List (List (SearchResult N)) → List (SearchResult N)
  unfolding dedupe sort flatten
  ranked results = sort p.scores (dedupe p.scores [] (flatten results))

  unfoldable pub with_results : List (List (SearchResult N)) → AgentContext N → AgentContext N
  unfolding ranked unique
  with_results results ctx =
      with_sources (take 15 (ranked results))
        (unique [] (map (λ r. r.metadata.filename) (ranked results))) ctx

  unfoldable pub collect : ℕ → M N (Shared W) (Unit {0})
  unfolding search_each with_results
  collect started s =
      let found = search_each s.ctx.brand_id s.ctx.search_queries s in
      (assign (with_results found.0) >> note_step v researcher "rag" no_tokens started) found.1

  -- The run when the timer of the searches fires.
  unfoldable pub overdue : RunState N W → RunState N W
  unfolding affected
  overdue s =
      let (effects, world) = p.search_cut s in
      record { ctx = affected effects s.ctx; world = world }

  unfoldable pub give_up : M N (Shared W) (Unit {0})
  unfolding overdue
  give_up s =
      (assign (λ ctx. with_sources [] [] (degrade rag_timeout ctx))
          >> note_duration v researcher "rag" no_tokens (rag_timeout_of p.degradation_service))
        (overdue s)

  unfoldable pub research : ℕ → M N (Shared W) (Unit {0})
  unfolding collect give_up is_skipped
  research started s =
      if is_skipped s.ctx
      then assign (with_sources [] []) s
      else if in_time (rag_timeout_of p.degradation_service) (p.search_took s)
      then collect started s
      else give_up s

  -- `run`.
  unfoldable pub run : M N (Shared W) (Unit {0})
  unfolding recall research
  run s = (do checked researcher; recall; research (v.now s.world)) s
