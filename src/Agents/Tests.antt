-- ===== src/Agents/Tests.antt =====
-- The agents with one provider, one tool and a store of three chunks: the theorems applied.
use ai_content_platform.Prelude.{
  ℕ, String, ◌≡◌, refl, true, false, Option, none, some, List, [], ◌∷◌, ◌++◌, arith, ltb, lookup,
}
use ai_content_platform.Domain.{AgentRole, optimizer, SearchResult, formal, blog, openai}
use ai_content_platform.Exceptions.{error, message, resolved, rejected}
use ai_content_platform.Resilience.{memory_timeout}
use ai_content_platform.Streaming.Events.{SseEvent}
use ai_content_platform.Streaming.Service.Tests.{zod}
use ai_content_platform.Llm.Provider.{LlmCompletionRequest, LlmStreamChunk, IllmProvider}
use ai_content_platform.Llm.Router.{Router, RouterState}
use ai_content_platform.Tools.Registry.{Itool, ToolInput, get}
use ai_content_platform.Memory.{MemoryService}
use ai_content_platform.Rag.Service.{RagService}
use ai_content_platform.Agents.Context.{AgentContext, new_context, appends, affected}
use ai_content_platform.Agents.Orchestrator.Invariants.{OnlyRecords}
use ai_content_platform.Agents.Services.{Shared, RunState, AgentServices}
use ai_content_platform.Agents.Researcher.{ResearcherServices}
use ai_content_platform.Agents.Researcher
use ai_content_platform.Agents.Pipeline.{PipelineServices, orchestrator}
use ai_content_platform.Agents.Pipeline.Calls.{IsPlain}
use ai_content_platform.Agents.Pipeline.Reasons.{IsSafe, pipeline-OnlyRecords}

-- The world is the log of the events.
abbrev World : Type 0
World = List (SseEvent ℕ)

abbrev State : Type 0
State = RouterState (RunState ℕ World)

abbrev piece : String → LlmStreamChunk
piece delta = record { delta = delta; done = false; usage = none }

abbrev provider : IllmProvider ℕ String State
provider = record {
  provider = "claude";
  supported_models = [];
  complete = λ q s. (rejected (error "no key"), s);
  stream = λ q s. ((piece "one " ∷ piece "" ∷ piece "two" ∷ [], none), s);
  embed = λ texts s. (resolved ((1 ∷ []) ∷ []), s);
  is_available = λ s. (true, s);
}

abbrev router : Router ℕ String (RunState ℕ World)
router = record {
  provider_map = ("claude", provider) ∷ [];
  fallback_chain = "claude" ∷ [];
  max_retries = 1;
  retry_delay_ms = 1;
  embedding_provider = "claude";
  now = λ s. 0;
  wait = λ ms s. s;
}

abbrev tool : Itool String State
tool = record {
  name = "tone_analyzer";
  description = "";
  input_schema = "";
  execute = λ input s. (rejected (error "no key"), s);
}

abbrev services : AgentServices ℕ String World
services = record {
  router = router;
  tools = ("tone_analyzer", tool) ∷ [];
  emit = λ id event w. (resolved tt, record w { rest = w.rest ++ event ∷ [] });
  unhandled = λ e w. w;
  now = λ w. 0;
  shown = message;
  decimal = λ n. "n";
  shown_score = λ n. "n";
}

abbrev chunk_of : String → ℕ → SearchResult ℕ
chunk_of id score = record {
  chunk_id = id;
  content = "text";
  score = score;
  metadata = record {
    document_id = "d";
    brand_id = "b";
    filename = "f";
    page = none;
    chunk_section = none;
    chunk_index = 0;
  };
}

abbrev rag : RagService ℕ (RunState ℕ World)
rag = record {
  parse = λ buffer mime name s. (resolved [], s);
  embed = λ texts s. (resolved ((1 ∷ []) ∷ []), s);
  store = record {
    ensure_collection = λ name size s. (resolved tt, s);
    upsert = λ name points s. (resolved tt, s);
    search = λ name vector limit filter s.
        (resolved (chunk_of "p" 1 ∷ chunk_of "q" 3 ∷ chunk_of "p" 1 ∷ []), s);
    delete = λ name ids s. (resolved tt, s);
    collection_exists = λ name s. (resolved true, s);
  };
  zod = zod;
  chunk_size = 4;
  chunk_overlap = 0;
  embedding_dimension = 1;
  search_limit = none;
  uuid = λ s i. "p";
  shown = message;
}

abbrev memory : MemoryService ℕ String (Shared World)
memory = record {
  get_collections = λ w. (resolved [], w);
  create_collection = λ name n w. (resolved tt, w);
  create_payload_index = λ name field w. (resolved tt, w);
  search_points = λ name vector limit filter w. (resolved [], w);
  upsert_point = λ name id vector payload w. (resolved tt, w);
  embed = λ texts w. (resolved [], w);
  reach = λ w. (resolved tt, w);
  new_id = λ w. "m";
  now = λ w. 0;
  json_string = λ s. s;
  iso = λ n. "date";
  to_date = λ o. o;
}

abbrev research : ResearcherServices ℕ String World
research = record {
  memory = memory;
  rag = rag;
  scores = record { above = λ n. ltb 0 n; less = ltb };
  degradation_service = none;
  recall_took = λ w. some 20;
  recall_cut = λ w. w;
  search_took = λ s. some 40;
  search_cut = λ s. ([], s.world);
}

abbrev context : AgentContext ℕ
context =
    record (new_context 0 "j" "b"
      (record {
        default_tone = formal;
        allowed_models = [];
        preferred_provider = openai;
        rag_enabled = true;
        system_prompt = "write";
        max_content_length = 500;
      })
      "tea" blog none) { search_queries = "green tea" ∷ "black tea" ∷ [] }

abbrev start : RunState ℕ World
start = record { ctx = context; world = record { breakers = []; rest = [] } }

-- The optimizer never settles.
abbrev time_of : AgentRole → Option ℕ
time_of optimizer = none
time_of _ = some 50

-- An agent that is cut off has recorded a reason.
abbrev pipeline : PipelineServices ℕ String World
pipeline = record {
  agents = services;
  research = research;
  optimizer_json = record {
    seo_of = λ o. record { primary_keyword = ""; secondary_keywords = []; long_tail_keywords = [] };
    detected_of = λ o. "";
    json_string = λ s. s;
  };
  qa_json = record { ease_of = λ o. 0; json_string = λ s. s };
  parse_plan = λ s. rejected (error s);
  parse_optimized = λ s. rejected (error s);
  parse_review = λ s. rejected (error s);
  took = λ role s. time_of role;
  cut = λ role s. (appends memory_timeout ∷ [], s.world);
  degradation_service = none;
  zod = zod;
  confidence = 1;
}

services-IsPlain : IsPlain services
unfolding lookup get affected
services-IsPlain = record {
  completes = λ key p request s known. ([], completes_plain key p request s known);
  streams = λ key p request s known. ([], streams_plain key p request s known);
  waits = λ ms s. ([], refl);
  executes = λ name t input s known. ([], executes_plain name t input s known);
}
  where
    completes_plain :
        (key : String) (p : IllmProvider ℕ String State) (request : LlmCompletionRequest ℕ String)
        (s : State)
        → lookup key services.router.provider_map ≡ some p
        → (p.complete request s).1.world.ctx ≡ s.world.ctx
    completes_plain key p request s known = ground arith

    streams_plain :
        (key : String) (p : IllmProvider ℕ String State) (request : LlmCompletionRequest ℕ String)
        (s : State)
        → lookup key services.router.provider_map ≡ some p
        → (p.stream request s).1.world.ctx ≡ s.world.ctx
    streams_plain key p request s known = ground arith

    executes_plain :
        (name : String) (t : Itool String State) (input : ToolInput String) (s : State)
        → get name services.tools ≡ resolved t
        → (t.execute input s).1.world.ctx ≡ s.world.ctx
    executes_plain name t input s known = ground arith

pipeline-IsSafe : IsSafe pipeline
unfolding affected
pipeline-IsSafe = record {
  plain = services-IsPlain;
  research = record {
    embeds = λ texts s. ([], refl);
    looks = λ name s. ([], refl);
    searches = λ name vector limit filter s. ([], refl);
  };
}

pipeline-OnlyRecords_example : OnlyRecords (orchestrator pipeline)
pipeline-OnlyRecords_example = pipeline-OnlyRecords pipeline pipeline-IsSafe
