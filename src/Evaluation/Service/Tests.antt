-- ===== src/Evaluation/Service/Tests.antt =====
-- An evaluation whose judges have no model to ask, so that every score is the neutral one.
use ai_content_platform.Prelude.{
  ℕ, ◌+◌, ◌*◌, String, ◌≡◌, refl, false, none, [], ◌∷◌, ltb, leb, if◌then◌else◌, lookup,
}
use ai_content_platform.Domain.{ContentResult, formal, blog, openai}
use ai_content_platform.Exceptions.{error, message, resolved, rejected}
use ai_content_platform.Streaming.Service.Tests.{zod}
use ai_content_platform.Llm.Router.{RouterState, complete, complete_from, build_chain}
use ai_content_platform.Llm.Router.Stream.{complete_structured, parse_response, embed}
use ai_content_platform.Memory.{MemoryService}
use ai_content_platform.Memory.Laws.{indexed}
use ai_content_platform.Agents.Context.{AgentContext, new_context}
use ai_content_platform.Evaluation.Evaluators.{
  Numbers, relevance_score, tone_score, factuality_score, composite_score,
}
use ai_content_platform.Evaluation.Service.{
  EvaluationService, EvaluationState, judge, payload_of, evaluate,
}
use ai_content_platform.Evaluation.Service.Laws.{Recorded, evaluate-Recorded, evaluate-indexed}

-- Whole numbers stand for scores.
abbrev numbers : Numbers ℕ
numbers = record {
  zero_ = 0;
  one = 1;
  half = 0;
  hundred = 100;
  nan = 0;
  add = ◌+◌;
  mul = ◌*◌;
  divide = λ a b. a;
  sqrt = λ a. a;
  minimum = λ a b. if ltb a b then a else b;
  maximum = λ a b. if ltb a b then b else a;
  fixed4 = λ a. a;
  of_nat = λ n. n;
  less = ltb;
  at_least = λ a b. leb b a;
}

abbrev memory : MemoryService ℕ String (RouterState ℕ)
memory = record {
  get_collections = λ w. (resolved [], w);
  create_collection = λ name n w. (resolved tt, w);
  create_payload_index = λ name field w. (resolved tt, w);
  search_points = λ name vector limit filter w. (resolved [], w);
  upsert_point = λ name id vector payload w. (resolved tt, w);
  embed = λ texts w. (resolved [], w);
  reach = λ w. (resolved tt, w);
  new_id = λ w. "m";
  now = λ w. 0;
  json_string = λ s. s;
  iso = λ n. "date";
  to_date = λ o. o;
}

abbrev service : EvaluationService ℕ String ℕ
service = record {
  judges = record {
    numbers = numbers;
    router = record {
      provider_map = [];
      fallback_chain = [];
      max_retries = 1;
      retry_delay_ms = 1;
      embedding_provider = "openai";
      now = λ w. w;
      wait = λ ms s. s;
    };
    parse_tone = λ s. rejected (error s);
    parse_factuality = λ s. rejected (error s);
    shown = message;
    slice = λ n s. s;
    decimal = λ n. "n";
  };
  weights = record { relevance = 1; tone = 1; factuality = 1; readability = 1 };
  memory = memory;
  zod = zod;
  memory_indexing_threshold = 2;
  record_score = λ brand_id content_type model_id score w. (resolved tt, w);
  fields = λ topic content_type score words model_id version. ("topic", topic) ∷ [];
}

abbrev context : AgentContext ℕ
context =
    new_context 0 "j" "b"
      (record {
        default_tone = formal;
        allowed_models = [];
        preferred_provider = openai;
        rag_enabled = false;
        system_prompt = "";
        max_content_length = 500;
      })
      "tea" blog none

abbrev result : ContentResult ℕ
result = record {
  raw = "tea";
  optimized = "";
  seo_keywords = [];
  readability_score = 1;
  tone_analysis = record { detected = formal; confidence = 1; scores = [] };
  word_count = 1;
  citations = [];
  degraded = false;
  degradation_reasons = [];
}

abbrev start : EvaluationState ℕ String ℕ
start = record {
  records = [];
  memory = record { events = []; world = record { breakers = []; world = 0 } };
}

evaluate-Recorded_example :
    ((evaluate service context result start).0 ≡ resolved tt)
    × Recorded service context [] (evaluate service context result start).1
evaluate-Recorded_example = evaluate-Recorded service context result start

-- The composite score is 1.
below_threshold :
    leb service.memory_indexing_threshold
      (judge service context result start.memory.world).0.composite_score
    ≡ false
unfolding judge payload_of relevance_score tone_score factuality_score composite_score
    complete_structured parse_response complete complete_from build_chain embed lookup new_context
below_threshold = refl

evaluate-indexed_example : indexed (evaluate service context result start).1.memory.events ≡ []
evaluate-indexed_example = evaluate-indexed service context result start below_threshold
