-- ===== src/Agents/Orchestrator.antt =====
-- src/agents/orchestrator/agent-orchestrator.service.ts. The agents are a parameter: a run of one
-- gives its outcome, the time it takes, and the context and the world when the race with its timer
-- is decided, so that what an overdue agent still does afterwards is part of later steps.
pub mod Invariants
pub mod Result
pub mod Settles
pub mod Skips
pub mod Tests
use ai_content_platform.Prelude.{
  ℕ, ◌-◌, String, Bool, true, false, ◌&&◌, Option, none, some, List, [], ◌∷◌, map, ltb,
  if◌then◌else◌, is_truthy, str_or, word_count, last?,
}
use ai_content_platform.Domain.{
  AgentRole, planner, researcher, generator, optimizer, qa, AgentStep, ContentResult,
}
use ai_content_platform.Exceptions.{Thrown, error, Settled, resolved, rejected, ◌+s◌}
use ai_content_platform.Resilience.{
  DegradationReason, optional_agent_skipped, contract_retry, reason_name, is_degraded,
  DegradationService, is_latency_budget_exceeded,
}
use ai_content_platform.Contracts.{Zod, enforce, content_result_checks}
use ai_content_platform.Streaming.Events.{EventData, SseEvent, agent_start, agent_done}
use ai_content_platform.Agents.Context.{AgentContext, role_name, degrade}

-- `AGENT_TIMEOUTS`, in milliseconds.
abbrev pub agent_timeout : AgentRole → ℕ
agent_timeout planner = 30000
agent_timeout researcher = 20000
agent_timeout generator = 120000
agent_timeout optimizer = 60000
agent_timeout qa = 60000

abbrev timeout_seconds : AgentRole → String
timeout_seconds planner = "30"
timeout_seconds researcher = "20"
timeout_seconds generator = "120"
timeout_seconds optimizer = "60"
timeout_seconds qa = "60"

-- `OPTIONAL_AGENTS`.
abbrev pub is_optional : AgentRole → Bool
is_optional optimizer = true
is_optional qa = true
is_optional _ = false

abbrev pub pipeline : List AgentRole
pipeline = planner ∷ researcher ∷ generator ∷ optimizer ∷ qa ∷ []

pub record PipelineState (N W : Type 0) : Type 0 where
  pub ctx : AgentContext N
  pub world : W

-- `took` is `none` for an agent that never settles.
pub record AgentRun (N W : Type 0) : Type 0 where
  pub outcome : Settled (Unit {0})
  pub took : Option ℕ
  pub after : PipelineState N W

-- `confidence` is the number 0.9.
pub record Orchestrator (N W : Type 0) : Type 0 where
  pub run_agent : AgentRole → PipelineState N W → AgentRun N W
  pub emit : String → SseEvent N → W → Settled (Unit {0}) × W
  pub now : W → ℕ
  pub degradation_service : Option DegradationService
  pub zod : Zod N
  pub confidence : N

-- `Promise.race` of an agent with its timer.
abbrev pub race : AgentRole → Settled (Unit {0}) → Option ℕ → Settled (Unit {0})
race role outcome none =
    rejected (error (role_name role +s " agent timed out after " +s timeout_seconds role +s "s"))
race role outcome (some t) =
    if ltb t (agent_timeout role)
    then outcome
    else rejected
        (error (role_name role +s " agent timed out after " +s timeout_seconds role +s "s"))

-- `lastStep?.durationMs`.
abbrev pub last_duration : Option AgentStep → Option ℕ
last_duration none = none
last_duration (some step) = some step.duration_ms

-- A computation that may throw, over the state of the run.
abbrev pub M : Type 0 → Type 0 → Type 0 → Type 0
M N W A = PipelineState N W → Settled A × PipelineState N W

module _ {N W : Type 0} where
  abbrev pub bind :
      {A B : Type 0} → Settled A × PipelineState N W → (A → M N W B) → Settled B × PipelineState N W
  bind (resolved a, s) f = f a s
  bind (rejected e, s) f = (rejected e, s)

  infixl 5 ◌>>=◌ ◌>>◌
  abbrev pub ◌>>=◌ : {A B : Type 0} → M N W A → (A → M N W B) → M N W B
  ◌>>=◌ m f s = bind (m s) f

  abbrev pub ◌>>◌ : {B : Type 0} → M N W (Unit {0}) → M N W B → M N W B
  m >> k = m >>= λ _. k

  abbrev pub handle :
      Settled (Unit {0}) × PipelineState N W
      → (Thrown → M N W (Unit {0}))
      → Settled (Unit {0}) × PipelineState N W
  handle (resolved a, s) f = (resolved a, s)
  handle (rejected e, s) f = f e s

  -- `try { m } catch (e) { f }`.
  abbrev pub try_catch : M N W (Unit {0}) → (Thrown → M N W (Unit {0})) → M N W (Unit {0})
  try_catch m f s = handle (m s) f

  unfoldable pub append_reason : DegradationReason → M N W (Unit {0})
  append_reason reason s = (resolved tt, record s { ctx = degrade reason s.ctx })

  module _ (o : Orchestrator N W) where
    -- `withTimeout(role, task())`.
    unfoldable pub with_timeout : AgentRole → M N W (Unit {0})
    with_timeout role s =
        let ran = o.run_agent role s in (race role ran.outcome ran.took, ran.after)

    unfoldable pub emit_event : EventData N → M N W (Unit {0})
    emit_event payload s =
        let sent =
          o.emit s.ctx.job_id (record { payload = payload; job_id = s.ctx.job_id }) s.world in
        (sent.0, record s { world = sent.1 })

    unfoldable pub run_with_retry : AgentRole → M N W (Unit {0})
    unfolding append_reason
    run_with_retry role = try_catch (with_timeout role) λ first_err. do
      append_reason contract_retry
      try_catch (with_timeout role) λ retry_err. append_reason optional_agent_skipped

    abbrev budget_exceeded : Option DegradationService → ℕ → Bool
    budget_exceeded none elapsed = false
    budget_exceeded (some d) elapsed = is_latency_budget_exceeded d elapsed

    unfoldable pub should_skip_optional : AgentContext N → ℕ → Bool
    should_skip_optional ctx elapsed =
        if is_degraded ctx.degradation then true else budget_exceeded o.degradation_service elapsed

    unfoldable pub run_role : AgentRole → M N W (Unit {0})
    run_role role = if is_optional role then run_with_retry role else with_timeout role

    unfoldable pub announce_done : AgentRole → M N W (Unit {0})
    announce_done role s = emit_event (agent_done role (last_duration (last? s.ctx.steps))) s

    -- An agent that is not skipped, between its two events.
    unfoldable pub perform : AgentRole → M N W (Unit {0})
    perform role = do emit_event (agent_start role); run_role role; announce_done role

    -- One round of the loop; `start` is the time at which the pipeline started, and the clock does
    -- not run backwards.
    unfoldable pub visit : ℕ → AgentRole → M N W (Unit {0})
    visit start role s =
        if is_optional role && should_skip_optional s.ctx (o.now s.world - start)
        then append_reason optional_agent_skipped s
        else perform role s

    unfoldable pub loop : ℕ → List AgentRole → M N W (Unit {0})
    loop start [] s = (resolved tt, s)
    loop start (role ∷ roles) s =
        let next = (visit start role >>= λ _. loop start roles) s in
        if s.ctx.is_cancelled then (resolved tt, s) else next

    unfoldable pub assemble : AgentContext N → ContentResult N
    assemble ctx = record {
      raw = ctx.draft_content;
      optimized = str_or ctx.optimized_content ctx.draft_content;
      seo_keywords = ctx.seo_keywords;
      readability_score = ctx.readability_score;
      tone_analysis = record { detected = ctx.target_tone; confidence = o.confidence; scores = [] };
      word_count =
          word_count (str_or (str_or ctx.final_content ctx.optimized_content) ctx.draft_content);
      citations = ctx.citations;
      degraded = is_degraded ctx.degradation;
      degradation_reasons = map reason_name ctx.degradation.reasons;
    }

    -- The contract gate on the assembled result.
    unfoldable pub finish : M N W (ContentResult N)
    finish s = (enforce o.zod "ContentResultV1" (content_result_checks o.zod) (assemble s.ctx), s)

    unfoldable pub run : M N W (ContentResult N)
    run s = (loop (o.now s.world) pipeline >>= λ _. finish) s
