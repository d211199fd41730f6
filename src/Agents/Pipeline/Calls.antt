-- ===== src/Agents/Pipeline/Calls.antt =====
-- What the calls of an agent do to the reasons of its run: they may append, and do nothing else.
use ai_content_platform.Prelude.{
  ℕ, String, arith, ◌≡◌, refl, sym, subst, some, List, [], ◌∷◌, lookup,
}
use ai_content_platform.Exceptions.{Settled, resolved, rejected}
use ai_content_platform.Resilience.{
  DegradationReason, DegradedExecutionContext, append, llm_fallback,
}
use ai_content_platform.Resilience.Laws.{
  Distinct, Extends, Extends-refl, Extends-trans, append-Distinct, append-Extends,
}
use ai_content_platform.Llm.Breaker.{ProviderCircuitBreaker}
use ai_content_platform.Llm.Provider.{LlmCompletionRequest, IllmProvider}
use ai_content_platform.Llm.Router.{RouterState, update_breaker, test_circuit, fail}
use ai_content_platform.Llm.Router.Stream.{complete_structured, stream}
use ai_content_platform.Llm.Router.Invariants.{IsKept, complete_structured-Keeps, stream-Keeps}
use ai_content_platform.Tools.Registry.{ToolInput, Itool, get}
use ai_content_platform.Agents.Context.{
  AgentContext, Effect, appends, writes, apply_effect, affected, degrade,
}
use ai_content_platform.Agents.Services.{
  RunState, AgentServices, options_for, routed, ask_model, use_tool, called_tool,
}

-- The second list is the first after some reasons have been appended.
pub data Grown (old : List DegradationReason) : List DegradationReason → Type 0 where
  same : Grown old old
  more :
      (reason : DegradationReason) (d : DegradedExecutionContext)
      → Grown old d.reasons
      → Grown old (append reason d).reasons

pub Grown-Distinct :
    (old new : List DegradationReason) → Grown old new → Distinct old → Distinct new
Grown-Distinct old _ same h = h
Grown-Distinct old _ (more reason d g) h =
    append-Distinct reason d (Grown-Distinct old d.reasons g h)

pub Grown-Extends : (old new : List DegradationReason) → Grown old new → Extends old new
Grown-Extends old _ same = Extends-refl old
Grown-Extends old _ (more reason d g) =
    Extends-trans old (Grown-Extends old d.reasons g) (append-Extends reason d)

module _ {N : Type 0} where
  -- The second context is the first after some effects.
  abbrev pub Meanwhile : AgentContext N → AgentContext N → Type 0
  Meanwhile c d = (effects : List (Effect N)) × (d ≡ affected effects c)

  pub affected-Grown :
      (old : List DegradationReason) (effects : List (Effect N)) (c : AgentContext N)
      → Grown old c.degradation.reasons
      → Grown old (affected effects c).degradation.reasons
  unfolding affected apply_effect degrade
  affected-Grown old [] c g = g
  affected-Grown old (appends reason ∷ es) c g =
      affected-Grown old es (apply_effect (appends reason) c) (more reason c.degradation g)
  affected-Grown old (writes f ∷ es) c g = affected-Grown old es (apply_effect (writes f) c) g

  pub Meanwhile-Grown :
      (old : List DegradationReason) (c d : AgentContext N)
      → Meanwhile c d
      → Grown old c.degradation.reasons
      → Grown old d.degradation.reasons
  Meanwhile-Grown old c d (effects, e) g =
      subst (λ (x : AgentContext N). Grown old x.degradation.reasons) (sym e)
        (affected-Grown old effects c g)

module _ {N W : Type 0} where
  abbrev pub reasons_of : RunState N W → List DegradationReason
  reasons_of s = s.ctx.degradation.reasons

  abbrev pub GrownTo : List DegradationReason → RunState N W → Type 0
  GrownTo old s = Grown old (reasons_of s)

  update_breaker-ctx :
      (key : String) (f : ProviderCircuitBreaker → ProviderCircuitBreaker)
      (s : RouterState (RunState N W))
      → (update_breaker key f s).world ≡ s.world
  unfolding update_breaker
  update_breaker-ctx key f s = ground arith

  test_circuit-ctx :
      (now : RunState N W → ℕ) (key : String) (s : RouterState (RunState N W))
      → (test_circuit now key s).1.world ≡ s.world
  unfolding test_circuit
  test_circuit-ctx now key s = ground arith

module _ {N J W : Type 0} (v : AgentServices N J W) where
  -- While a provider, the waiting or a tool takes its time, the context of the run changes only by
  -- effects of other code that holds it, such as an agent that was cut off.
  pub record IsPlain : Type 0 where
    pub completes :
        (key : String) (p : IllmProvider N J (RouterState (RunState N W)))
        (request : LlmCompletionRequest N J) (s : RouterState (RunState N W))
        → lookup key v.router.provider_map ≡ some p
        → Meanwhile s.world.ctx (p.complete request s).1.world.ctx
    pub streams :
        (key : String) (p : IllmProvider N J (RouterState (RunState N W)))
        (request : LlmCompletionRequest N J) (s : RouterState (RunState N W))
        → lookup key v.router.provider_map ≡ some p
        → Meanwhile s.world.ctx (p.stream request s).1.world.ctx
    pub waits :
        (ms : ℕ) (s : RouterState (RunState N W))
        → Meanwhile s.world.ctx (v.router.wait ms s).world.ctx
    pub executes :
        (name : String) (t : Itool J (RouterState (RunState N W))) (input : ToolInput J)
        (s : RouterState (RunState N W))
        → get name v.tools ≡ resolved t
        → Meanwhile s.world.ctx (t.execute input s).1.world.ctx

  module _ (old : List DegradationReason) (k : IsPlain) where
    abbrev Q : RouterState (RunState N W) → Type 0
    Q t = GrownTo old t.world

    options-IsKept : (provider : String) → IsKept Q v.router (options_for provider)
    unfolding fail degrade
    options-IsKept provider = record {
      calls = λ key p request s e g. Meanwhile-Grown old _ _ (k.completes key p request s e) g;
      waits = λ ms s g. Meanwhile-Grown old _ _ (k.waits ms s) g;
      notices = λ key s g. more llm_fallback s.world.ctx.degradation g;
      succeeds = λ key s g. subst (GrownTo old) (sym (update_breaker-ctx key _ s)) g;
      fails = λ key s g. subst (GrownTo old) (sym (update_breaker-ctx key _ s)) g;
      tests = λ key s g. subst (GrownTo old) (sym (test_circuit-ctx _ key s)) g;
    }

    routed-Keeps :
        {A : Type 0} (f : RouterState (RunState N W) → A × RouterState (RunState N W))
        (s : RunState N W)
        → ((t : RouterState (RunState N W)) → Q t → Q (f t).1)
        → GrownTo old s
        → GrownTo old (routed f s).1
    unfolding routed
    routed-Keeps f s h g = h (record { breakers = s.world.breakers; world = s }) g

    pub ask_model-Keeps :
        {T : Type 0} (parse : String → Settled T) (provider : String)
        (request : AgentContext N → LlmCompletionRequest N J) (s : RunState N W)
        → GrownTo old s
        → GrownTo old (ask_model v parse provider request s).1
    unfolding ask_model
    ask_model-Keeps parse provider request s =
        routed-Keeps
          (complete_structured v.router parse v.shown (options_for provider) (request s.ctx)) s
          λ t.
            complete_structured-Keeps Q v.router (options_for provider) (options-IsKept provider)
              parse v.shown (request s.ctx) t

    pub routed_stream-Keeps :
        (provider : String) (request : LlmCompletionRequest N J) (s : RunState N W)
        → GrownTo old s
        → GrownTo old (routed (stream v.router (options_for provider) request) s).1
    routed_stream-Keeps provider request s =
        routed-Keeps (stream v.router (options_for provider) request) s λ t.
          stream-Keeps Q v.router (options_for provider) (options-IsKept provider)
            (λ key p r u e g. Meanwhile-Grown old _ _ (k.streams key p r u e) g) request t

    pub use_tool-Keeps :
        (name : String) (input : AgentContext N → ToolInput J) (s : RunState N W)
        → GrownTo old s
        → GrownTo old (use_tool v name input s).1
    unfolding use_tool
    use_tool-Keeps name input s g = called (get name v.tools) refl
      where
        called :
            (o : Settled (Itool J (RouterState (RunState N W))))
            → get name v.tools ≡ o
            → GrownTo old (called_tool v o (input s.ctx) s).1
        called (rejected e) h = g
        called (resolved t) h =
            routed-Keeps (t.execute (input s.ctx)) s
              (λ u q. Meanwhile-Grown old _ _ (k.executes name t _ u h) q) g
