-- ===== src/Agents/Pipeline/Tests.antt =====
-- The generator and the whole pipeline over the streaming service: the theorems applied.
use ai_content_platform.Prelude.{
  ℕ, String, ◌≡◌, ◌≤◌, refl, true, false, none, some, List, [], ◌∷◌, ◌++◌, arith, ltb, lookup,
  insert, str_length,
}
use ai_content_platform.Domain.{
  BrandConfig, AgentRole, planner, researcher, generator, optimizer, qa, formal, blog, openai,
}
use ai_content_platform.Exceptions.{error, message, resolved, rejected}
use ai_content_platform.Contracts.{passes}
use ai_content_platform.Streaming.Events.{SseEvent, sse_event_checks}
use ai_content_platform.Streaming.Service.{register, emit}
use ai_content_platform.Streaming.Service.Tests.{zod}
use ai_content_platform.Llm.Provider.{LlmStreamChunk}
use ai_content_platform.Llm.Router.{
  test_circuit, update_breaker, notify, build_chain, without, merged, attempts, after_attempt,
  conclude, gate, visit, complete_from, complete,
}
use ai_content_platform.Llm.Router.Stream.{
  stream, stream_from, stream_visit, stream_gate, after_stream, streamed_request,
  complete_structured, parse_response, parsed_or_error,
}
use ai_content_platform.Tools.Registry.{get}
use ai_content_platform.Resilience.{DegradationReason}
use ai_content_platform.Memory.{MemoryService}
use ai_content_platform.Rag.Service.{RagService}
use ai_content_platform.Agents.Context.{
  AgentContext, new_context, degrade, check_cancelled, record_step,
}
use ai_content_platform.Agents.Services.{
  Shared, RunState, routed, options_for, checked, ask_model, assign, note_step, note_duration,
  use_tool, called_tool,
}
use ai_content_platform.Agents.Planner
use ai_content_platform.Agents.Researcher
use ai_content_platform.Agents.Generator
use ai_content_platform.Agents.Optimizer
use ai_content_platform.Agents.Qa
use ai_content_platform.Agents.Researcher.{recall, research, is_skipped, with_results}
use ai_content_platform.Agents.Generator.{
  Gathered, write_draft, draft_request, subscribed, take_chunks,
}
use ai_content_platform.Agents.Generator.Laws.{token_events, write_draft-Sent}
use ai_content_platform.Agents.Orchestrator.{with_timeout, is_optional, run}
use ai_content_platform.Agents.Orchestrator.Settles.{IsUp, ResultOrViolation, run-settles}
use ai_content_platform.Agents.Pipeline.{PipelineServices, run_agent, task, orchestrator}
use ai_content_platform.Agents.Pipeline.Scene.{
  rx, Svc, piece, router, emit_shared, services, Live, events, zod-IsZod, services-Delivers,
}

abbrev brand : BrandConfig
brand = record {
  default_tone = formal;
  allowed_models = [];
  preferred_provider = openai;
  rag_enabled = false;
  system_prompt = "write";
  max_content_length = 500;
}

abbrev nothing : Svc
nothing = record {
  streams = [];
  registrations = λ r. record {
    stream_id = "";
    res = 0;
    subject = false;
    heartbeat_timer = false;
    timeout_timer = false;
  };
  next = 0;
  wire = [];
}

abbrev start : RunState ℕ Svc
start = record {
  ctx = new_context 0 "j" "b" brand "tea" blog none;
  world = record { breakers = []; rest = register rx "j" 7 nothing };
}

abbrev pieces : List LlmStreamChunk
pieces = piece "one " ∷ piece "" ∷ piece "two" ∷ []

streaming : Unit {0}
unfolding routed stream stream_from stream_visit stream_gate after_stream streamed_request
    test_circuit update_breaker notify build_chain without lookup new_context register insert
streaming = tt

streams_all :
    routed
      (stream (router pieces) (options_for "claude") (draft_request (services pieces) start.ctx))
      start
    ≡ ((pieces, none), start)
unfolding streaming
streams_all = refl

start-live : start.ctx.is_cancelled ≡ false
unfolding streaming
start-live = refl

start-named : 1 ≤ str_length start.ctx.job_id
unfolding streaming
start-named = omega arith

start-Live : Live start.ctx.job_id start.world
unfolding streaming
start-Live = (record { registration = 0; res = 7; cancelled_at = none }, refl, refl)

write_draft-Sent_example :
    (g : Gathered) × ((write_draft (services pieces) start).0 ≡ resolved g)
    × (g.full_content ≡ "one two")
    × (events (write_draft (services pieces) start).1.world.rest.wire
        ≡ events start.world.rest.wire
          ++ token_events (services pieces) start.ctx.job_id ("one " ∷ "two" ∷ []))
write_draft-Sent_example =
    write_draft-Sent (services pieces) zod Live (λ w. events w.rest.wire) (services-Delivers pieces)
      pieces start start streams_all start-live start-named start-Live

abbrev rag : RagService ℕ (RunState ℕ Svc)
rag = record {
  parse = λ buffer mime name s. (resolved [], s);
  embed = λ texts s. (resolved ((1 ∷ []) ∷ []), s);
  store = record {
    ensure_collection = λ name size s. (resolved tt, s);
    upsert = λ name points s. (resolved tt, s);
    search = λ name vector limit filter s. (resolved [], s);
    delete = λ name ids s. (resolved tt, s);
    collection_exists = λ name s. (resolved true, s);
  };
  zod = zod;
  chunk_size = 4;
  chunk_overlap = 0;
  embedding_dimension = 1;
  search_limit = none;
  uuid = λ s i. "p";
  shown = message;
}

abbrev memory : MemoryService ℕ String (Shared Svc)
memory = record {
  get_collections = λ w. (resolved [], w);
  create_collection = λ name n w. (resolved tt, w);
  create_payload_index = λ name field w. (resolved tt, w);
  search_points = λ name vector limit filter w. (resolved [], w);
  upsert_point = λ name id vector payload w. (resolved tt, w);
  embed = λ texts w. (resolved [], w);
  reach = λ w. (resolved tt, w);
  new_id = λ w. "m";
  now = λ w. 0;
  json_string = λ s. s;
  iso = λ n. "date";
  to_date = λ o. o;
}

-- The recall is overdue, the searches are off, and the tools of the optional agents are missing.
abbrev pipeline : PipelineServices ℕ String Svc
pipeline = record {
  agents = services [];
  research = record {
    memory = memory;
    rag = rag;
    scores = record { above = λ n. ltb 0 n; less = ltb };
    degradation_service = none;
    recall_took = λ w. none;
    recall_cut = λ w. w;
    search_took = λ s. some 40;
    search_cut = λ s. ([], s.world);
  };
  optimizer_json = record {
    seo_of = λ o. record { primary_keyword = ""; secondary_keywords = []; long_tail_keywords = [] };
    detected_of = λ o. "";
    json_string = λ s. s;
  };
  qa_json = record { ease_of = λ o. 0; json_string = λ s. s };
  parse_plan = λ s. resolved (record {
    outline = [];
    search_queries = [];
    target_tone = formal;
    word_count_target = 300;
    key_messages = [];
  });
  parse_optimized = λ s. rejected (error s);
  parse_review = λ s. rejected (error s);
  took = λ role s. some 50;
  cut = λ role s. ([], s.world);
  degradation_service = none;
  zod = zod;
  confidence = 1;
}

abbrev well : AgentContext ℕ → Svc → RunState ℕ Svc
well c s = record {
  ctx = record c { is_cancelled = false; brand_config = brand };
  world = record { breakers = []; rest = s };
}

-- Not cancelled, of a brand without RAG, with a named job, and no breakers.
data Fine : RunState ℕ Svc → Type 0 where
  fine : (c : AgentContext ℕ) (s : Svc) → 1 ≤ str_length c.job_id → Fine (well c s)

running : Unit {0}
unfolding run_agent task Planner.run Researcher.run Generator.run Optimizer.run Qa.run checked
    check_cancelled ask_model routed complete_structured parse_response parsed_or_error complete
    complete_from visit gate conclude attempts after_attempt merged notify build_chain without
    update_breaker test_circuit lookup assign note_step note_duration record_step recall research
    is_skipped write_draft subscribed take_chunks stream stream_from stream_visit stream_gate
    after_stream streamed_request use_tool called_tool get degrade with_timeout with_results
running = tt

keeps : (role : AgentRole) (s : RunState ℕ Svc) → Fine s → Fine (run_agent pipeline role s).after
unfolding running
keeps planner _ (fine c s h) = fine (run_agent pipeline planner (well c s)).after.ctx s h
keeps researcher _ (fine c s h) = fine (run_agent pipeline researcher (well c s)).after.ctx s h
keeps generator _ (fine c s h) = fine (run_agent pipeline generator (well c s)).after.ctx s h
keeps optimizer _ (fine c s h) = fine (run_agent pipeline optimizer (well c s)).after.ctx s h
keeps qa _ (fine c s h) = fine (run_agent pipeline qa (well c s)).after.ctx s h

required :
    (role : AgentRole) (s : RunState ℕ Svc)
    → is_optional role ≡ false
    → Fine s
    → (with_timeout (orchestrator pipeline) role s).0 ≡ resolved tt
unfolding running
required planner _ e (fine c s h) = refl
required researcher _ e (fine c s h) = refl
required generator _ e (fine c s h) = refl
required optimizer _ e (fine c s h) = cc
required qa _ e (fine c s h) = cc

emit-takes :
    (id : String) (e : SseEvent ℕ) (s : Svc)
    → passes (sse_event_checks zod e) ≡ true
    → (emit rx zod id e s).0 ≡ resolved tt
unfolding emit
emit-takes id e s p = ground arith

pipeline-IsUp : IsUp (orchestrator pipeline) Fine
unfolding degrade
pipeline-IsUp = record {
  zod = zod-IsZod;
  named = named;
  emits = λ id e w p. emit-takes id e w.rest p;
  required = required;
  keeps = keeps;
  told = told;
  degraded = degraded;
}
  where
    named : (s : RunState ℕ Svc) → Fine s → 1 ≤ str_length s.ctx.job_id
    named _ (fine c s h) = h

    told :
        (id : String) (e : SseEvent ℕ) (s : RunState ℕ Svc)
        → Fine s
        → Fine (record s { world = (emit_shared id e s.world).1 })
    told id e _ (fine c s h) = fine c (emit rx zod id e s).1 h

    degraded :
        (reason : DegradationReason) (s : RunState ℕ Svc)
        → Fine s
        → Fine (record s { ctx = degrade reason s.ctx })
    degraded reason _ (fine c s h) = fine (degrade reason c) s h

start-Fine : Fine start
unfolding streaming
start-Fine = fine start.ctx start.world.rest (omega arith)

run-settles_example : ResultOrViolation (run (orchestrator pipeline) start).0
run-settles_example = run-settles Fine (orchestrator pipeline) pipeline-IsUp start start-Fine
