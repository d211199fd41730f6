-- ===== src/Agents/Orchestrator/Tests.antt =====
-- The orchestrator with concrete agents: the theorems applied, and runs by evaluation.
use ai_content_platform.Prelude.{ℕ, ◌≡◌, refl, true, none, some, List, [], ◌∷◌, ◌++◌, word_count}
use ai_content_platform.Domain.{
  AgentRole, planner, researcher, generator, optimizer, formal, blog, openai,
}
use ai_content_platform.Exceptions.{error, Settled, resolved, rejected}
use ai_content_platform.Resilience.{
  queue_overload, contract_retry, optional_agent_skipped, is_degraded, fresh, append, has_reason,
}
use ai_content_platform.Resilience.Laws.{Extends, Extends-refl}
use ai_content_platform.Contracts.{enforce, content_result_checks, tone_analysis_checks}
use ai_content_platform.Streaming.Events.{SseEvent}
use ai_content_platform.Streaming.Service.Tests.{zod}
use ai_content_platform.Agents.Context.{AgentContext, new_context, degrade}
use ai_content_platform.Agents.Orchestrator.{
  PipelineState, Orchestrator, append_reason, with_timeout, emit_event, run_with_retry, run_role,
  announce_done, perform, should_skip_optional, visit, loop, assemble, finish, run,
}
use ai_content_platform.Agents.Orchestrator.Invariants.{OnlyRecords, run-reasons}
use ai_content_platform.Agents.Orchestrator.Result.{Describes, run-Describes}
use ai_content_platform.Agents.Orchestrator.Skips.{Logs, OnlyRequired, run-OnlyRequired}

pub record World : Type 0 where
  pub ran : List AgentRole
  pub sent : List (SseEvent ℕ)

-- The optimizer fails, every other agent writes the draft "a b".
abbrev pub outcome_of : AgentRole → Settled (Unit {0})
outcome_of optimizer = rejected (error "no key")
outcome_of _ = resolved tt

abbrev pub demo : Orchestrator ℕ World
demo = record {
  run_agent = λ role s. record {
    outcome = outcome_of role;
    took = some 10;
    after = record {
      ctx = record s.ctx { draft_content = "a b" };
      world = record s.world { ran = s.world.ran ++ role ∷ [] };
    };
  };
  emit = λ id event w. (resolved tt, record w { sent = w.sent ++ event ∷ [] });
  now = λ w. 0;
  degradation_service = none;
  zod = zod;
  confidence = 1;
}

abbrev pub quiet : World
quiet = record { ran = []; sent = [] }

abbrev pub context : AgentContext ℕ
context =
    new_context 0 "j" "b"
      (record {
        default_tone = formal;
        allowed_models = [];
        preferred_provider = openai;
        rag_enabled = true;
        system_prompt = "";
        max_content_length = 2000;
      })
      "tea" blog (some "c")

abbrev start : PipelineState ℕ World
start = record { ctx = context; world = quiet }

-- The queue was overloaded when the job was taken up.
abbrev overloaded : PipelineState ℕ World
overloaded = record { ctx = degrade queue_overload context; world = quiet }

pub running : Unit {0}
unfolding new_context degrade fresh append has_reason is_degraded append_reason with_timeout
    emit_event run_with_retry run_role announce_done perform should_skip_optional visit loop
    assemble finish run enforce content_result_checks tone_analysis_checks word_count
running = tt

run_ran :
    (run demo start).1.world.ran ≡ planner ∷ researcher ∷ generator ∷ optimizer ∷ optimizer ∷ []
unfolding running
run_ran = refl

run_reasons :
    (run demo start).1.ctx.degradation.reasons ≡ contract_retry ∷ optional_agent_skipped ∷ []
unfolding running
run_reasons = refl

overloaded_ran : (run demo overloaded).1.world.ran ≡ planner ∷ researcher ∷ generator ∷ []
unfolding running
overloaded_ran = refl

demo-OnlyRecords : OnlyRecords demo
demo-OnlyRecords = record {
  distinct = λ role s d. d;
  extends = λ role s. Extends-refl s.ctx.degradation.reasons;
}

demo-Logs : Logs demo (λ w. w.ran)
demo-Logs = record { agents = λ role s. refl; emits = λ id event w. refl }

run-Describes_example : Describes demo (run demo start).1 (assemble demo (run demo start).1.ctx)
unfolding running
run-Describes_example = run-Describes demo start (assemble demo (run demo start).1.ctx) refl

run-OnlyRequired_example : OnlyRequired demo (λ w. w.ran) [] (run demo overloaded).1
unfolding running
run-OnlyRequired_example =
    run-OnlyRequired demo (λ w. w.ran) overloaded demo-Logs demo-OnlyRecords refl

run-reasons_example : Extends (queue_overload ∷ []) (run demo overloaded).1.ctx.degradation.reasons
unfolding running
run-reasons_example = (run-reasons demo overloaded demo-OnlyRecords (refl, tt)).1
