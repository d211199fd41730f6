-- ===== src/Agents/Services.antt =====
-- What the agents of src/agents/agents call. The circuit breakers of the router live in the shared
-- part of the world, and the router's own world is the state of the run, so that its notice of a
-- fallback reaches the context.
use ai_content_platform.Prelude.{ℕ, ◌-◌, String, none, some, List}
use ai_content_platform.Domain.{
  Tone, formal, casual, technical, friendly, persuasive, ContentType, blog, social, email,
  landing_page, product_description, AgentRole, TokenUsage,
}
use ai_content_platform.Exceptions.{Thrown, Settled, resolved, rejected}
use ai_content_platform.Resilience.{llm_fallback}
use ai_content_platform.Streaming.Events.{SseEvent}
use ai_content_platform.Llm.Breaker.{ProviderCircuitBreaker}
use ai_content_platform.Llm.Router.{Router, RouterState, RouterOptions}
use ai_content_platform.Llm.Router.Stream.{complete_structured}
use ai_content_platform.Llm.Provider.{LlmCompletionRequest}
use ai_content_platform.Tools.Registry.{ToolInput, ToolOutput, Itool, get}
use ai_content_platform.Agents.Context.{AgentContext, degrade, record_step, check_cancelled}
use ai_content_platform.Agents.Orchestrator.{PipelineState, M}

pub record Shared (W : Type 0) : Type 0 where
  pub breakers : List (String × ProviderCircuitBreaker)
  pub rest : W

abbrev pub RunState : Type 0 → Type 0 → Type 0
RunState N W = PipelineState N (Shared W)

-- `shown` is `String(err)`, `decimal` that of a natural number and `shown_score` that of a score.
-- `unhandled` is what rxjs makes of an error that a subscriber throws.
pub record AgentServices (N J W : Type 0) : Type 0 where
  pub router : Router N J (RunState N W)
  pub tools : List (String × Itool J (RouterState (RunState N W)))
  pub emit : String → SseEvent N → Shared W → Settled (Unit {0}) × Shared W
  pub unhandled : Thrown → Shared W → Shared W
  pub now : Shared W → ℕ
  pub shown : Thrown → String
  pub decimal : ℕ → String
  pub shown_score : N → String

abbrev pub tone_name : Tone → String
tone_name formal = "FORMAL"
tone_name casual = "CASUAL"
tone_name technical = "TECHNICAL"
tone_name friendly = "FRIENDLY"
tone_name persuasive = "PERSUASIVE"

abbrev pub content_type_name : ContentType → String
content_type_name blog = "BLOG"
content_type_name social = "SOCIAL"
content_type_name email = "EMAIL"
content_type_name landing_page = "LANDING_PAGE"
content_type_name product_description = "PRODUCT_DESCRIPTION"

abbrev pub no_tokens : TokenUsage
no_tokens = record { prompt_tokens = 0; completion_tokens = 0; total_tokens = 0 }

module _ {N W : Type 0} where
  abbrev pub left_router : {A : Type 0} → A × RouterState (RunState N W) → A × RunState N W
  left_router (a, t) =
      (a, record t.world { world = record t.world.world { breakers = t.breakers } })

  -- A call of the router in the middle of a run.
  unfoldable pub routed :
      {A : Type 0}
      → (RouterState (RunState N W) → A × RouterState (RunState N W))
      → RunState N W
      → A × RunState N W
  routed f s = left_router (f (record { breakers = s.world.breakers; world = s }))

  -- `{ preferredProvider, onFallback: () => ctx.degradation.append('llm_fallback') }`.
  abbrev pub options_for : String → RouterOptions N (RunState N W)
  options_for provider = record {
    preferred_provider = some provider;
    model = none;
    temperature = none;
    max_tokens = none;
    on_fallback =
        λ key t. record t { world = record t.world { ctx = degrade llm_fallback t.world.ctx } };
  }

  -- `ctx.checkCancelled(role)`.
  unfoldable pub checked : AgentRole → M N (Shared W) (Unit {0})
  checked role s = (check_cancelled role s.ctx, s)

  -- An assignment to fields of the context.
  unfoldable pub assign : (AgentContext N → AgentContext N) → M N (Shared W) (Unit {0})
  assign f s = (resolved tt, record s { ctx = f s.ctx })

module _ {N J W : Type 0} (v : AgentServices N J W) where
  unfoldable pub ask_model :
      {T : Type 0}
      → (String → Settled T)
      → String
      → (AgentContext N → LlmCompletionRequest N J)
      → M N (Shared W) T
  unfolding routed
  ask_model parse provider request s =
      routed (complete_structured v.router parse v.shown (options_for provider) (request s.ctx)) s

  unfoldable pub called_tool :
      Settled (Itool J (RouterState (RunState N W))) → ToolInput J → M N (Shared W) (ToolOutput J)
  unfolding routed
  called_tool (rejected e) input s = (rejected e, s)
  called_tool (resolved t) input s = routed (t.execute input) s

  -- `this.tools.get(name).execute(input)`.
  unfoldable pub use_tool : String → (AgentContext N → ToolInput J) → M N (Shared W) (ToolOutput J)
  unfolding called_tool get
  use_tool name input s = called_tool (get name v.tools) (input s.ctx) s

  -- `ctx.recordStep(…)`.
  unfoldable pub note_duration : AgentRole → String → TokenUsage → ℕ → M N (Shared W) (Unit {0})
  note_duration role model tokens duration s = (
    resolved tt,
    record s {
      ctx =
          record_step (v.now s.world)
            (record {
              agent = role;
              model_used = model;
              duration_ms = duration;
              tokens = tokens;
              started_at = 0;
            })
            s.ctx;
    },
  )

  -- The same with `durationMs: Date.now() - startedAt`.
  unfoldable pub note_step : AgentRole → String → TokenUsage → ℕ → M N (Shared W) (Unit {0})
  unfolding note_duration
  note_step role model tokens started s =
      note_duration role model tokens (v.now s.world - started) s
