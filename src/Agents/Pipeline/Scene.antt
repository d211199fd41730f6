-- ===== src/Agents/Pipeline/Scene.antt =====
-- Collaborators of the agents for the tests: one provider that answers, over the streaming service.
use ai_content_platform.Prelude.{
  ℕ, String, ◌≡◌, refl, ap, Bool, true, false, none, some, List, [], ◌∷◌, ◌++◌, arith, lookup,
}
use ai_content_platform.Domain.{claude}
use ai_content_platform.Exceptions.{message, Settled, resolved}
use ai_content_platform.Contracts.{IsZod, passes}
use ai_content_platform.Streaming.Events.{SseEvent, sse_event_checks}
use ai_content_platform.Streaming.Service.{
  Rx, Frame, headers, event, done, StreamEntry, Service, write, emit,
}
use ai_content_platform.Streaming.Service.Tests.{zod}
use ai_content_platform.Llm.Provider.{LlmStreamChunk, IllmProvider}
use ai_content_platform.Llm.Router.{Router, RouterState}
use ai_content_platform.Agents.Services.{Shared, RunState, AgentServices}
use ai_content_platform.Agents.Generator.Laws.{Delivers}

-- A subject that is not stopped delivers.
abbrev pub rx : Rx Bool
rx = record { new_subject = true; stop = λ s. false; unsubscribe = λ s. false; delivers = λ s. s }

abbrev pub Svc : Type 0
Svc = Service ℕ Bool

abbrev pub State : Type 0
State = RouterState (RunState ℕ Svc)

abbrev pub piece : String → LlmStreamChunk
piece delta = record { delta = delta; done = false; usage = none }

abbrev pub provider : List LlmStreamChunk → IllmProvider ℕ String State
provider chunks = record {
  provider = "claude";
  supported_models = [];
  complete = λ q s. (
    resolved (record {
      content = "plan";
      tool_calls = none;
      usage = record { prompt_tokens = 1; completion_tokens = 1; total_tokens = 2 };
      model = "m";
      provider = claude;
    }),
    s,
  );
  stream = λ q s. ((chunks, none), s);
  embed = λ texts s. (resolved ((1 ∷ []) ∷ []), s);
  is_available = λ s. (true, s);
}

abbrev pub router : List LlmStreamChunk → Router ℕ String (RunState ℕ Svc)
router chunks = record {
  provider_map = ("claude", provider chunks) ∷ [];
  fallback_chain = "claude" ∷ [];
  max_retries = 1;
  retry_delay_ms = 1;
  embedding_provider = "claude";
  now = λ s. 0;
  wait = λ ms s. s;
}

-- `emit` of the streaming service.
abbrev pub emit_shared : String → SseEvent ℕ → Shared Svc → Settled (Unit {0}) × Shared Svc
emit_shared id e w = ((emit rx zod id e w.rest).0, record w { rest = (emit rx zod id e w.rest).1 })

abbrev pub services : List LlmStreamChunk → AgentServices ℕ String Svc
services chunks = record {
  router = router chunks;
  tools = [];
  emit = emit_shared;
  unhandled = λ e w. w;
  now = λ w. 0;
  shown = message;
  decimal = λ n. "n";
  shown_score = λ n. "n";
}

-- The stream is registered, and its subject delivers.
abbrev pub Live : String → Shared Svc → Type 0
Live id w =
    (entry : StreamEntry) × (lookup id w.rest.streams ≡ some entry)
    × ((w.rest.registrations entry.registration).subject ≡ true)

abbrev pub events : List (ℕ × Frame ℕ) → List (SseEvent ℕ)
events [] = []
events ((r, headers) ∷ l) = events l
events ((r, event e) ∷ l) = e ∷ events l
events ((r, done) ∷ l) = events l

events-snoc :
    (l : List (ℕ × Frame ℕ)) (r : ℕ) (e : SseEvent ℕ)
    → events (l ++ (r, event e) ∷ []) ≡ events l ++ e ∷ []
events-snoc [] r e = refl
events-snoc ((q, headers) ∷ l) r e = events-snoc l r e
events-snoc ((q, event f) ∷ l) r e = ap (◌∷◌ f) (events-snoc l r e)
events-snoc ((q, done) ∷ l) r e = events-snoc l r e

pub zod-IsZod : IsZod zod
zod-IsZod = record {
  string_min_lem = λ n s. ground arith;
  string_max_lem = λ n s. ground arith;
  array_min_lem = λ n k. ground arith;
  array_max_lem = λ n k. ground arith;
  int_min_lem = λ n k. ground arith;
  int_max_lem = λ n k. ground arith;
}

emit-live :
    (id : String) (e : SseEvent ℕ) (s : Svc) (entry : StreamEntry)
    → lookup id s.streams ≡ some entry
    → (s.registrations entry.registration).subject ≡ true
    → passes (sse_event_checks zod e) ≡ true
    → emit rx zod id e s ≡ (resolved tt, write entry.res (event e) s)
unfolding emit
emit-live id e s entry h k p = rw (h, p, k) refl

pub services-Delivers :
    (chunks : List LlmStreamChunk) → Delivers (services chunks) zod Live (λ w. events w.rest.wire)
services-Delivers chunks = record { zod = zod-IsZod; emits = emits }
  where
    emits :
        (id : String) (e : SseEvent ℕ) (w : Shared Svc)
        → Live id w
        → passes (sse_event_checks zod e) ≡ true
        → ((emit_shared id e w).0 ≡ resolved tt)
          × (events (emit_shared id e w).1.rest.wire ≡ events w.rest.wire ++ e ∷ [])
          × Live id (emit_shared id e w).1
    emits id e w (entry, h, k) p =
        rw (emit-live id e w.rest entry h k p)
          (unfold write in (refl, events-snoc w.rest.wire entry.res e, (entry, h, k)))
