-- ===== src/Agents/Pipeline.antt =====
-- The orchestrator of src/agents/orchestrator/agent-orchestrator.service.ts over the agents of
-- src/agents/agents.
pub mod Calls
pub mod Reasons
mod Scene
mod Tests
use ai_content_platform.Prelude.{ℕ, String, Bool, Option, none, some, List, if◌then◌else◌}
use ai_content_platform.Domain.{AgentRole, planner, researcher, generator, optimizer, qa}
use ai_content_platform.Exceptions.{Settled}
use ai_content_platform.Resilience.{DegradationService}
use ai_content_platform.Contracts.{Zod}
use ai_content_platform.Agents.Context.{Effect, affected}
use ai_content_platform.Agents.Orchestrator.{M, Orchestrator, AgentRun, agent_timeout}
use ai_content_platform.Agents.Services.{Shared, RunState, AgentServices}
use ai_content_platform.Agents.Planner.{PlannerOutput}
use ai_content_platform.Agents.Planner
use ai_content_platform.Agents.Researcher.{ResearcherServices, in_time}
use ai_content_platform.Agents.Researcher
use ai_content_platform.Agents.Generator
use ai_content_platform.Agents.Optimizer.{OptimizerJson, OptimizedOutput}
use ai_content_platform.Agents.Optimizer
use ai_content_platform.Agents.Qa.{QaJson, QaOutput}
use ai_content_platform.Agents.Qa

-- The collaborators of the five agents. `took` is the time that an agent takes, and `cut` what an
-- overdue one has done when its timer fires: its effects on the context, and the world. What it
-- still does afterwards happens while a later agent waits for a model, a tool or a search; these
-- calls act on the whole state of the run, so that it is part of them.
pub record PipelineServices (N J W : Type 0) : Type 0 where
  pub agents : AgentServices N J W
  pub research : ResearcherServices N J W
  pub optimizer_json : OptimizerJson J
  pub qa_json : QaJson N J
  pub parse_plan : String → Settled PlannerOutput
  pub parse_optimized : String → Settled OptimizedOutput
  pub parse_review : String → Settled QaOutput
  pub took : AgentRole → RunState N W → Option ℕ
  pub cut : AgentRole → RunState N W → List (Effect N) × Shared W
  pub degradation_service : Option DegradationService
  pub zod : Zod N
  pub confidence : N

module _ {N J W : Type 0} (p : PipelineServices N J W) where
  -- `agents[role]`.
  unfoldable pub task : AgentRole → M N (Shared W) (Unit {0})
  task planner = Planner.run p.agents p.parse_plan
  task researcher = Researcher.run p.agents p.research
  task generator = Generator.run p.agents
  task optimizer = Optimizer.run p.agents p.optimizer_json p.parse_optimized
  task qa = Qa.run p.agents p.qa_json p.parse_review

  -- The run when the timer of an overdue agent fires.
  unfoldable pub cut_off : AgentRole → RunState N W → RunState N W
  unfolding affected
  cut_off role s =
      let (effects, world) = p.cut role s in record { ctx = affected effects s.ctx; world = world }

  unfoldable pub run_agent : AgentRole → RunState N W → AgentRun N (Shared W)
  unfolding task cut_off
  run_agent role s =
      let ran = task role s in
      record {
        outcome = ran.0;
        took = p.took role s;
        after = if in_time (agent_timeout role) (p.took role s) then ran.1 else cut_off role s;
      }

  abbrev pub orchestrator : Orchestrator N (Shared W)
  orchestrator = record {
    run_agent = run_agent;
    emit = p.agents.emit;
    now = p.agents.now;
    degradation_service = p.degradation_service;
    zod = p.zod;
    confidence = p.confidence;
  }
