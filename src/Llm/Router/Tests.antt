-- ===== src/Llm/Router/Tests.antt =====
-- The router at a small concrete configuration: the theorems applied, and runs by evaluation.
use ai_content_platform.Prelude.{
  ℕ, ◌+◌, ◌*◌, ◌≤◌, String, ◌≡◌, refl, true, false, none, some, List, [], ◌∷◌, ◌++◌, arith, lookup,
  insert, length, ◌⊎◌, inl, inr, subst, sym,
}
use ai_content_platform.Domain.{TokenUsage, openai}
use ai_content_platform.Exceptions.{
  error, message, llm_provider_exhausted, Settled, resolved, rejected,
}
use ai_content_platform.Llm.Breaker.{
  ProviderCircuitBreaker, new_breaker, open_circuit, is_open, record_success, record_failure,
}
use ai_content_platform.Llm.Breaker.Laws.{
  IsConsistent, Blocks, run, failure, test, run-IsConsistent, cooled_admits_all,
}
use ai_content_platform.Llm.Provider.{
  LlmCompletionRequest, LlmCompletionResponse, LlmStreamChunk, IllmProvider,
}
use ai_content_platform.Llm.Router.{
  Router, RouterState, RouterOptions, register, new_breakers, build_chain, without,
  is_retryable_error, update_breaker, test_circuit, fail, after_attempt, attempts, merged, notify,
  conclude, gate, visit, complete_from, complete,
}
use ai_content_platform.Llm.Router.Chain.{IsDistinct}
use ai_content_platform.Llm.Router.Outcome.{
  registered, complete-exhausted, Answered, complete-Answered,
}
use ai_content_platform.Llm.Router.Budget.{Counts, complete-count}
use ai_content_platform.Llm.Router.Breakers.{
  AllBlocked, complete-blocked, Valid, IsFriendly, complete-Valid,
}
use ai_content_platform.Llm.Router.Stream.{
  stream, stream_from, stream_gate, stream_visit, after_stream, streamed_request,
  complete_structured, parse_response, parsed_or_error,
}
use ai_content_platform.Llm.Router.Stream.Laws.{stream-exhausted, stream_keeps_partial}

-- The world counts the provider calls and is its own clock.
abbrev State : Type 0
State = RouterState ℕ

abbrev tick : State → State
tick s = record s { world = s.world + 1 }

abbrev usage : TokenUsage
usage = record { prompt_tokens = 1; completion_tokens = 2; total_tokens = 3 }

abbrev hello : LlmCompletionResponse ℕ
hello = record {
  content = "hello";
  tool_calls = none;
  usage = usage;
  model = "gpt-4o";
  provider = openai;
}

abbrev piece : String → LlmStreamChunk
piece delta = record { delta = delta; done = false; usage = none }

-- Fails every completion with an error that is worth a retry, and every stream after one chunk.
abbrev flaky : IllmProvider ℕ ℕ State
flaky = record {
  provider = "claude";
  supported_models = [];
  complete = λ q s. (rejected (error "503 Service Unavailable"), tick s);
  stream = λ q s. ((piece "par" ∷ [], some (error "reset")), tick s);
  embed = λ l s. (rejected (error "no embeddings"), s);
  is_available = λ s. (true, s);
}

abbrev steady : IllmProvider ℕ ℕ State
steady = record {
  provider = "openai";
  supported_models = [];
  complete = λ q s. (resolved hello, tick s);
  stream = λ q s. ((piece "whole" ∷ [], none), tick s);
  embed = λ l s. (resolved ([]), s);
  is_available = λ s. (true, s);
}

abbrev router_of : List (String × IllmProvider ℕ ℕ State) → Router ℕ ℕ ℕ
router_of m = record {
  provider_map = m;
  fallback_chain = "claude" ∷ "openai" ∷ "gemini" ∷ [];
  max_retries = 3;
  retry_delay_ms = 1000;
  embedding_provider = "openai";
  now = λ w. w;
  wait = λ ms s. s;
}

abbrev both : Router ℕ ℕ ℕ
both = router_of (("claude", flaky) ∷ ("openai", steady) ∷ [])

abbrev alone : Router ℕ ℕ ℕ
alone = router_of (("claude", flaky) ∷ [])

abbrev no_options : RouterOptions ℕ ℕ
no_options = record {
  preferred_provider = some "claude";
  model = none;
  temperature = none;
  max_tokens = none;
  on_fallback = λ key s. s;
}

abbrev ask : LlmCompletionRequest ℕ ℕ
ask = record {
  messages = [];
  model = none;
  temperature = none;
  max_tokens = none;
  tools = none;
  response_format = none;
  system_prompt = none;
}

abbrev start : State
start = record {
  breakers = ("claude", new_breaker 5 30) ∷ ("openai", new_breaker 5 30) ∷ [];
  world = 0;
}

-- What a run of the router has to unfold.
routing : Unit {0}
unfolding complete complete_from visit gate conclude attempts after_attempt fail update_breaker
    test_circuit notify merged build_chain without is_retryable_error message lookup insert is_open
    record_success record_failure new_breaker registered register new_breakers
routing = tt

-- Three attempts at the first provider, then one at the second.
complete_falls_back :
    ((complete both no_options ask start).0 ≡ resolved hello)
    × ((complete both no_options ask start).1.world ≡ 4)
unfolding routing
complete_falls_back = (refl, refl)

complete_alone_fails :
    (complete alone no_options ask start).0 ≡ rejected (llm_provider_exhausted ("claude" ∷ []))
unfolding routing
complete_alone_fails = refl

register_builds : register (flaky ∷ steady ∷ []) [] ≡ ("claude", flaky) ∷ ("openai", steady) ∷ []
unfolding routing
register_builds = refl

new_breakers_fresh : new_breakers 5 30 both.provider_map ≡ start.breakers
unfolding routing
new_breakers_fresh = refl

both-IsDistinct : IsDistinct both.fallback_chain
both-IsDistinct = ground arith

complete-exhausted_example :
    llm_provider_exhausted ("claude" ∷ [])
    ≡ llm_provider_exhausted (registered alone (build_chain alone (some "claude")))
complete-exhausted_example = complete-exhausted alone no_options ask start _ complete_alone_fails

complete-Answered_example :
    Answered both no_options ask
      (build_chain both (some "claude"))
      (complete both no_options ask start).0
complete-Answered_example = complete-Answered both no_options ask start

both-Counts : Counts both no_options (λ w. w)
unfolding lookup
both-Counts = record {
  calls = λ key p request s known. counted key p request s known;
  waits = λ ms s. refl;
  notices = λ key s. refl;
}
  where
    counted :
        (key : String) (p : IllmProvider ℕ ℕ State) (request : LlmCompletionRequest ℕ ℕ) (s : State)
        → lookup key both.provider_map ≡ some p
        → (p.complete request s).1.world ≡ s.world + 1
    counted key p request s known = ground arith

complete-count_example :
    (complete both no_options ask start).1.world
    ≤ 0 + 3 * length (registered both (build_chain both (some "claude")))
complete-count_example = complete-count both no_options (λ w. w) both-Counts ask start

-- Both circuits have just opened.
abbrev opened : ProviderCircuitBreaker
opened = record {
  state = open_circuit;
  failure_count = 5;
  last_failure_time = 100;
  failure_threshold = 5;
  cooldown_ms = 30;
}

abbrev tripped : State
tripped = record { breakers = ("claude", opened) ∷ ("openai", opened) ∷ []; world = 110 }

opened-Blocks : Blocks opened 110
opened-Blocks = (refl, omega arith)

tripped-AllBlocked : AllBlocked both no_options ask tripped (build_chain both (some "claude"))
unfolding routing
tripped-AllBlocked =
    (λ p e. (opened, refl, opened-Blocks), (λ p e. (opened, refl, opened-Blocks), (λ p e. cc, tt)))

complete-blocked_example : complete both no_options ask tripped ≡ (
  rejected (llm_provider_exhausted (registered both (build_chain both (some "claude")))),
  tripped,
)
complete-blocked_example = complete-blocked both no_options ask tripped tripped-AllBlocked

both_providers :
    (key : String) (p : IllmProvider ℕ ℕ State)
    → lookup key both.provider_map ≡ some p
    → (p ≡ flaky) ⊎ (p ≡ steady)
unfolding lookup
both_providers key p known = ground arith

both-IsFriendly : IsFriendly both no_options
both-IsFriendly = record {
  calls = λ key p request s known v. kept p request s (both_providers key p known) v;
  waits = λ ms s v. v;
  notices = λ key s v. v;
}
  where
    kept :
        (p : IllmProvider ℕ ℕ State) (request : LlmCompletionRequest ℕ ℕ) (s : State)
        → (p ≡ flaky) ⊎ (p ≡ steady)
        → Valid s
        → Valid (p.complete request s).1
    kept p request s (inl e) v = subst (λ q. Valid (q.complete request s).1) (sym e) v
    kept p request s (inr e) v = subst (λ q. Valid (q.complete request s).1) (sym e) v

start-Valid : Valid start
unfolding new_breaker
start-Valid = ground arith

complete-Valid_example : Valid (complete both no_options ask start).1
complete-Valid_example = complete-Valid both no_options both-IsFriendly ask start start-Valid

streaming : Unit {0}
unfolding routing stream stream_from stream_visit stream_gate after_stream streamed_request
streaming = tt

-- The failed provider's chunk stays in front of the fallback's.
stream_runs : (stream both no_options ask start).0 ≡ (piece "par" ∷ piece "whole" ∷ [], none)
unfolding streaming
stream_runs = refl

stream_alone :
    (stream alone no_options ask start).0.1 ≡ some (llm_provider_exhausted ("claude" ∷ []))
unfolding streaming
stream_alone = refl

stream-exhausted_example :
    llm_provider_exhausted ("claude" ∷ [])
    ≡ llm_provider_exhausted (registered alone (build_chain alone (some "claude")))
stream-exhausted_example = stream-exhausted alone no_options ask start _ stream_alone

stream_keeps_partial_example :
    (more : List LlmStreamChunk) × ((stream both no_options ask start).0.0
      ≡ (piece "par" ∷ []) ++ more)
unfolding streaming
stream_keeps_partial_example =
    (stream_keeps_partial both no_options ask "claude" ("openai" ∷ "gemini" ∷ []) flaky start start
      (tick start) (piece "par" ∷ []) (error "reset") refl refl refl refl).1

-- A schema that takes any text.
abbrev as_text : String → Settled String
as_text t = resolved t

structured_runs :
    (complete_structured both as_text message no_options ask start).0 ≡ resolved "hello"
unfolding routing complete_structured parse_response parsed_or_error
structured_runs = refl

run-IsConsistent_example :
    IsConsistent (run (new_breaker 2 30) ((1, failure) ∷ (2, failure) ∷ (40, test) ∷ []))
run-IsConsistent_example =
    run-IsConsistent 2 30 ((1, failure) ∷ (2, failure) ∷ (40, test) ∷ []) (omega arith)

cooled_admits_all_example :
    ((is_open 31 (run (new_breaker 2 30) ((1, failure) ∷ (2, failure) ∷ []))).0 ≡ true)
    × ((is_open 32 (run (new_breaker 2 30) ((1, failure) ∷ (2, failure) ∷ []))).0 ≡ false)
    × ((is_open 34
          (run (new_breaker 2 30) ((1, failure) ∷ (2, failure) ∷ (32, test) ∷ (33, test) ∷ []))).0
        ≡ false)
cooled_admits_all_example =
    cooled_admits_all 2 30 1 (2 ∷ []) 31 32 (33 ∷ []) 34 refl (omega arith) (omega arith)
