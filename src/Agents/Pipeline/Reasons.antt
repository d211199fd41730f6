-- ===== src/Agents/Pipeline/Reasons.antt =====
-- The agents only record reasons.
use ai_content_platform.Prelude.{
  ℕ, String, Option, none, some, List, [], ◌∷◌, if_rule, is_truthy, utf16,
}
use ai_content_platform.Domain.{
  AgentRole, planner, researcher, generator, optimizer, qa, SearchResult,
}
use ai_content_platform.Exceptions.{Settled, resolved, rejected}
use ai_content_platform.Resilience.{
  DegradationReason, memory_timeout, rag_timeout, contract_violation,
}
use ai_content_platform.Llm.Provider.{LlmStreamChunk}
use ai_content_platform.Llm.Router.Stream.{Streamed, stream}
use ai_content_platform.Memory.{RelevantMemory, query_relevant}
use ai_content_platform.Rag.Store.{VectorFilter}
use ai_content_platform.Rag.Service.{search}
use ai_content_platform.Rag.Service.Kept.{IsKept, search-Keeps}
use ai_content_platform.Tools.Registry.{ToolOutput}
use ai_content_platform.Agents.Context.{degrade, record_step}
use ai_content_platform.Agents.Orchestrator.{bind, M, ◌>>=◌, agent_timeout}
use ai_content_platform.Agents.Orchestrator.Invariants.{OnlyRecords}
use ai_content_platform.Agents.Services.{
  Shared, RunState, AgentServices, options_for, routed, ask_model, use_tool, note_duration,
  note_step, assign, checked, no_tokens,
}
use ai_content_platform.Agents.Planner
use ai_content_platform.Agents.Planner.{plan_request, with_plan}
use ai_content_platform.Agents.Researcher
use ai_content_platform.Agents.Researcher.{
  ResearcherServices, caught, report_violation, in_time, recall, recalled, recall_options,
  search_each, collect, give_up, overdue, research, is_skipped, rag_timeout_of, with_results,
}
use ai_content_platform.Agents.Generator
use ai_content_platform.Agents.Generator.{
  Gathered, take_chunk, take_chunks, subscribed, write_draft, emit_token, draft_request, with_draft,
}
use ai_content_platform.Agents.Optimizer
use ai_content_platform.Agents.Optimizer.{
  OptimizerJson, OptimizedOutput, SeoKeywordOutput, seo_data, seo_input, tone_input,
  optimize_request, with_keywords, with_optimized, rewrite, polish, optimize,
}
use ai_content_platform.Agents.Qa
use ai_content_platform.Agents.Qa.{
  QaJson, QaOutput, readability_input, with_readability, review_request, with_review,
}
use ai_content_platform.Agents.Pipeline.{PipelineServices, task, cut_off, run_agent, orchestrator}
use ai_content_platform.Agents.Pipeline.Calls.{
  same, more, Grown-Distinct, Grown-Extends, Meanwhile, affected-Grown, Meanwhile-Grown, reasons_of,
  GrownTo, IsPlain, ask_model-Keeps, routed_stream-Keeps, use_tool-Keeps,
}

module _ {N W : Type 0} (old : List DegradationReason) where
  abbrev Grows : {A : Type 0} → M N (Shared W) A → Type 0
  Grows m = (s : RunState N W) → GrownTo old s → GrownTo old (m s).1

  bind-Grows :
      {A B : Type 0} (given : Settled A × RunState N W) (f : A → M N (Shared W) B)
      → GrownTo old given.1
      → ((a : A) → Grows (f a))
      → GrownTo old (bind given f).1
  bind-Grows (resolved a, s) f g next = next a s g
  bind-Grows (rejected e, s) f g next = g

-- While the embeddings and the vector store take their time, the context changes only by effects of
-- other code that holds it.
pub record IsPlainResearch {N J W : Type 0} (p : ResearcherServices N J W) : Type 0 where
  pub embeds :
      (texts : List (List ℕ)) (s : RunState N W) → Meanwhile s.ctx (p.rag.embed texts s).1.ctx
  pub looks :
      (name : String) (s : RunState N W)
      → Meanwhile s.ctx (p.rag.store.collection_exists name s).1.ctx
  pub searches :
      (name : String) (vector : Option (List N)) (limit : ℕ) (filter : VectorFilter)
      (s : RunState N W)
      → Meanwhile s.ctx (p.rag.store.search name vector limit filter s).1.ctx

module _ {N J W : Type 0} (v : AgentServices N J W) (old : List DegradationReason)
    (k : IsPlain v) where
  note_step-Grows :
      (role : AgentRole) (model : String) (started : ℕ)
      → Grows {W = W} old (note_step v role model no_tokens started)
  unfolding note_step note_duration record_step
  note_step-Grows role model started s g = g

  planner-Grows : (parse : String → Settled Planner.PlannerOutput) → Grows old (Planner.run v parse)
  unfolding Planner.run checked assign note_step note_duration record_step
  planner-Grows parse s g = bind-Grows old (checked planner s) _ g λ _ t h.
      bind-Grows old (ask_model v parse "claude" (plan_request v) t) _
        (ask_model-Keeps v old k parse "claude" (plan_request v) t h) λ result u i. i

  take_chunk-Grows :
      (c : LlmStreamChunk) (g : Gathered) (s : RunState N W)
      → GrownTo old s
      → GrownTo old (take_chunk v c (g, s)).1
  unfolding take_chunk emit_token
  take_chunk-Grows c g s h =
      if_rule {A = Gathered × RunState N W} (λ x. GrownTo old x.1) s.ctx.is_cancelled (λ _. h)
        λ _. if_rule {A = RunState N W} (GrownTo old) (is_truthy c.delta) (λ _. h) λ _. h

  take_chunks-Grows :
      (cs : List LlmStreamChunk) (g : Gathered × RunState N W)
      → GrownTo old g.1
      → GrownTo old (take_chunks v cs g).1
  unfolding take_chunks
  take_chunks-Grows [] g h = h
  take_chunks-Grows (c ∷ cs) (g, s) h =
      take_chunks-Grows cs (take_chunk v c (g, s)) (take_chunk-Grows c g s h)

  write_draft-Grows : Grows old (write_draft v)
  unfolding write_draft
  write_draft-Grows s g =
      taken (routed (stream v.router (options_for "claude") (draft_request v s.ctx)) s)
        (routed_stream-Keeps v old k "claude" (draft_request v s.ctx) s g)
    where
      taken :
          (given : Streamed × RunState N W)
          → GrownTo old given.1
          → GrownTo old (subscribed v given).1
      taken ((chunks, none), t) h = take_chunks-Grows chunks _ h
      taken ((chunks, some err), t) h = take_chunks-Grows chunks _ h

  generator-Grows : Grows old (Generator.run v)
  unfolding Generator.run checked assign note_step note_duration record_step
  generator-Grows s g =
      bind-Grows old (checked generator s) _ g
        λ _ t h. bind-Grows old (write_draft v t) _ (write_draft-Grows t h) λ result u i. i

  assign_keywords-Grows :
      (seo : Option SeoKeywordOutput) → Grows {W = W} old (assign {N = N} (with_keywords seo))
  unfolding assign with_keywords
  assign_keywords-Grows none s g = g
  assign_keywords-Grows (some d) s g = g

  module _ (j : OptimizerJson J) (parse : String → Settled OptimizedOutput) where
    rewrite-Grows :
        (seo : ToolOutput J) (started : ℕ) (tone : ToolOutput J)
        → Grows old (rewrite v j parse seo started tone)
    unfolding rewrite assign note_step note_duration record_step
    rewrite-Grows seo started tone s g =
        bind-Grows old (ask_model v parse "openai" (optimize_request j (seo_data j seo) tone) s) _
          (ask_model-Keeps v old k parse "openai" (optimize_request j (seo_data j seo) tone) s g)
          λ result t h. h

    polish-Grows : (seo : ToolOutput J) (started : ℕ) → Grows old (polish v j parse seo started)
    unfolding polish
    polish-Grows seo started s g =
        bind-Grows old (use_tool v "tone_analyzer" (tone_input j) s) (rewrite v j parse seo started)
          (use_tool-Keeps v old k _ (tone_input j) s g) λ tone. rewrite-Grows seo started tone

    optimize-Grows : (started : ℕ) (seo : ToolOutput J) → Grows old (optimize v j parse started seo)
    unfolding optimize
    optimize-Grows started seo s g =
        bind-Grows old (assign (with_keywords (seo_data j seo)) s)
          (λ _. polish v j parse seo started) (assign_keywords-Grows (seo_data j seo) s g)
          λ _. polish-Grows seo started

    optimizer-Grows : Grows old (Optimizer.run v j parse)
    unfolding Optimizer.run checked
    optimizer-Grows s g =
        bind-Grows old (checked optimizer s)
          (λ _.
            use_tool v "seo_keyword_extractor" (seo_input j) >>= optimize v j parse (v.now s.world))
          g
          λ _ t h.
            bind-Grows old (use_tool v "seo_keyword_extractor" (seo_input j) t)
              (optimize v j parse (v.now s.world)) (use_tool-Keeps v old k _ (seo_input j) t h)
              λ seo. optimize-Grows _ seo

  qa-Grows : (j : QaJson N J) (parse : String → Settled QaOutput) → Grows old (Qa.run v j parse)
  unfolding Qa.run checked assign note_step note_duration record_step with_readability
  qa-Grows j parse s g = bind-Grows old (checked qa s) _ g λ _ t h.
      bind-Grows old (use_tool v "readability_checker" (readability_input v j) t) _
        (use_tool-Keeps v old k _ (readability_input v j) t h)
        λ out u i.
          bind-Grows old (ask_model v parse "claude" (review_request v j out) _) _
            (ask_model-Keeps v old k parse "claude" (review_request v j out) _ i) λ result y n. n

  module _ (p : ResearcherServices N J W) (f : IsPlainResearch p) where
    rag-IsKept : IsKept (GrownTo old) p.rag report_violation
    unfolding degrade
    rag-IsKept = record {
      embeds = λ texts s g. Meanwhile-Grown old _ _ (f.embeds texts s) g;
      looks = λ name s g. Meanwhile-Grown old _ _ (f.looks name s) g;
      searches = λ name vector limit filter s g.
          Meanwhile-Grown old _ _ (f.searches name vector limit filter s) g;
      reports = λ s g. more contract_violation s.ctx.degradation g;
    }

    caught-Grows :
        (given : Settled (List (SearchResult N)) × RunState N W)
        → GrownTo old given.1
        → GrownTo old (caught given).1
    caught-Grows (resolved xs, s) g = g
    caught-Grows (rejected e, s) g = g

    search_each-Grows :
        (brand_id : String) (qs : List String) (s : RunState N W)
        → GrownTo old s
        → GrownTo old (search_each v p brand_id qs s).1
    unfolding search_each
    search_each-Grows brand_id [] s g = g
    search_each-Grows brand_id (q ∷ qs) s g = search_each-Grows brand_id qs _ (
        caught-Grows (search p.rag brand_id (utf16 q) (some 5) report_violation s) (
          search-Keeps (GrownTo old) p.rag report_violation rag-IsKept brand_id (utf16 q) (some 5) s
            g))

    recalled-Grows :
        (s : RunState N W) (given : Settled (List (RelevantMemory N J)) × Shared W)
        → GrownTo old s
        → GrownTo old (recalled v p s.ctx given).1
    unfolding recalled
    recalled-Grows s (resolved ms, w) g = g
    recalled-Grows s (rejected e, w) g = g

    recall-Grows : Grows old (recall v p)
    unfolding recall degrade
    recall-Grows s g =
        if_rule {A = Settled (Unit {0}) × RunState N W} (λ x. GrownTo old x.1)
          (in_time 200 (p.recall_took s.world))
          (λ _.
            recalled-Grows s
              (query_relevant p.memory s.ctx.brand_id s.ctx.topic recall_options s.world) g)
          λ _. more memory_timeout s.ctx.degradation g

    research-Grows : (started : ℕ) → Grows old (research v p started)
    unfolding research collect give_up overdue assign with_results note_step note_duration
        record_step degrade
    research-Grows started s g =
        if_rule {A = Settled (Unit {0}) × RunState N W} (λ x. GrownTo old x.1) (is_skipped s.ctx)
          (λ _. g)
          λ _.
            if_rule {A = Settled (Unit {0}) × RunState N W} (λ x. GrownTo old x.1)
              (in_time (rag_timeout_of p.degradation_service) (p.search_took s))
              (λ _. search_each-Grows s.ctx.brand_id s.ctx.search_queries s g)
              λ _.
                more rag_timeout (overdue v p s).ctx.degradation
                  (affected-Grown old (p.search_cut s).0 s.ctx g)

    researcher-Grows : Grows old (Researcher.run v p)
    unfolding Researcher.run checked
    researcher-Grows s g =
        bind-Grows old (checked researcher s) _ g
          λ _ t h. bind-Grows old (recall v p t) _ (recall-Grows t h) λ _ u i. research-Grows _ u i

module _ {N J W : Type 0} (p : PipelineServices N J W) where
  -- While the collaborators take their time, the context changes only by effects of other code.
  pub record IsSafe : Type 0 where
    pub plain : IsPlain p.agents
    pub research : IsPlainResearch p.research

  module _ (f : IsSafe) where
    task-Grows : (old : List DegradationReason) (role : AgentRole) → Grows old (task p role)
    unfolding task
    task-Grows old planner = planner-Grows p.agents old f.plain p.parse_plan
    task-Grows old researcher = researcher-Grows p.agents old f.plain p.research f.research
    task-Grows old generator = generator-Grows p.agents old f.plain
    task-Grows old optimizer =
        optimizer-Grows p.agents old f.plain p.optimizer_json p.parse_optimized
    task-Grows old qa = qa-Grows p.agents old f.plain p.qa_json p.parse_review

    run_agent-Grown :
        (role : AgentRole) (s : RunState N W) → GrownTo (reasons_of s) (run_agent p role s).after
    unfolding run_agent cut_off
    run_agent-Grown role s =
        if_rule {A = RunState N W} (GrownTo (reasons_of s))
          (in_time (agent_timeout role) (p.took role s))
          (λ _. task-Grows (reasons_of s) role s same)
          λ _. affected-Grown (reasons_of s) (p.cut role s).0 s.ctx same

    -- The five agents meet what the orchestrator asks of an agent, if the context changes only by
    -- effects of other code while a model, a tool, the embeddings or the vector store takes its
    -- time: whether an agent succeeds, fails or is cut off by its timer, with whatever effects
    -- until then, the reasons of the run afterwards begin with those before, and none is listed
    -- twice if none was before.
    pub pipeline-OnlyRecords : OnlyRecords (orchestrator p)
    pipeline-OnlyRecords = record {
      distinct = λ role s d. Grown-Distinct _ _ (run_agent-Grown role s) d;
      extends = λ role s. Grown-Extends _ _ (run_agent-Grown role s);
    }
