-- ===== src/Worker.antt =====
-- src/queue/processors/content-pipeline.processor.ts. The row of a job is written by its own
-- processing alone while that runs; calls of the database succeed. Brands do not change meanwhile.
pub mod Laws
mod Tests
use ai_content_platform.Prelude.{
  ℕ, suc, ◌+◌, ◌-◌, String, Bool, true, false, Option, none, some, List, [], ◌∷◌, leb,
  if◌then◌else◌,
}
use ai_content_platform.Domain.{
  ContentType, ContentResult, JobStatus, running, retrying, done, failed, cancelled,
}
use ai_content_platform.Exceptions.{Thrown, message, Settled, resolved, rejected}
use ai_content_platform.Resilience.{
  DegradationReason, queue_overload, reason_name, DegradationService, is_queue_overloaded,
}
use ai_content_platform.Streaming.Events.{SseEvent, job_done, job_error}
use ai_content_platform.Agents.Context.{AgentContext, new_context, degrade}
use ai_content_platform.Agents.Orchestrator.{PipelineState, Orchestrator, run}
use ai_content_platform.Brands.{BrandEntity, find_by_id}
use ai_content_platform.Content.{ContentJobEntity, update_job}
use ai_content_platform.Queue.{ContentPipelineJobData}

-- The collaborators. `queue_depth` is `getDepth` of the queue service; `start_evaluation` begins
-- the evaluation that nobody waits for; `zero` is the number 0.
pub record Worker (N W : Type 0) : Type 0 where
  pub orchestrator : Orchestrator N W
  pub queue_depth : Option (W → Settled ℕ × W)
  pub degradation_service : Option DegradationService
  pub close_stream : String → W → W
  pub record_degradation : String → W → W
  pub record_pipeline_latency : ContentType → ℕ → W → W
  pub start_evaluation : AgentContext N → ContentResult N → W → W
  pub brands : List BrandEntity
  pub zero : N

pub record WorkerState (N W : Type 0) : Type 0 where
  pub jobs : List (ContentJobEntity N)
  pub world : W

-- `ctx.isCancelled ? CANCELLED : DONE`.
abbrev pub final_status : Bool → JobStatus
final_status true = cancelled
final_status false = done

module _ {N W : Type 0} (p : Worker N W) where
  abbrev pub mark_running : ℕ → ContentJobEntity N → ContentJobEntity N
  mark_running attempts_made x = record x { status = running; attempts = suc attempts_made }

  abbrev pub mark_done : AgentContext N → ContentResult N → ContentJobEntity N → ContentJobEntity N
  mark_done ctx result x = record x {
    status = final_status ctx.is_cancelled;
    result = some result;
    agent_trace = ctx.steps;
  }

  abbrev pub mark_failed : Thrown → ContentJobEntity N → ContentJobEntity N
  mark_failed err x = record x { status = failed; error_message = some (message err) }

  abbrev pub mark_retrying : ContentJobEntity N → ContentJobEntity N
  mark_retrying x = record x { status = retrying }

  degrade_if : Bool → AgentContext N → AgentContext N
  degrade_if true ctx = degrade queue_overload ctx
  degrade_if false ctx = ctx

  judge_depth : DegradationService → AgentContext N → Settled ℕ × W → Settled (AgentContext N) × W
  unfolding degrade_if
  judge_depth d ctx (resolved depth, w) =
      (resolved (degrade_if (is_queue_overloaded d depth) ctx), w)
  judge_depth d ctx (rejected e, w) = (rejected e, w)

  overload_by :
      Option (W → Settled ℕ × W)
      → Option DegradationService
      → AgentContext N
      → W
      → Settled (AgentContext N) × W
  unfolding judge_depth
  overload_by (some depth) (some d) ctx w = judge_depth d ctx (depth w)
  overload_by _ _ ctx w = (resolved ctx, w)

  -- The overload check, before the pipeline starts.
  unfoldable pub overload_check : AgentContext N → W → Settled (AgentContext N) × W
  unfolding overload_by
  overload_check ctx w = overload_by p.queue_depth p.degradation_service ctx w

  unfoldable pub count_reasons : List DegradationReason → W → W
  count_reasons [] w = w
  count_reasons (r ∷ rs) w = count_reasons rs (p.record_degradation (reason_name r) w)

  module _ (job : ContentPipelineJobData) where
    -- The context of the run, for the brand that was found.
    unfoldable pub job_context : BrandEntity → AgentContext N
    job_context brand =
        new_context p.zero job.job_id brand.id brand.config job.topic job.content_type
          (some job.correlation_id)

    announced :
        AgentContext N → ContentResult N → ℕ → Settled (Unit {0}) × W → Settled (Unit {0}) × W
    announced ctx result duration_ms (rejected e, w) = (rejected e, w)
    announced ctx result duration_ms (resolved a, w) = (
      resolved tt,
      p.start_evaluation ctx result
          (p.record_pipeline_latency job.content_type duration_ms (p.close_stream job.job_id w)),
    )

    abbrev pub done_event : ContentResult N → SseEvent N
    done_event result = record { payload = job_done job.job_id done result; job_id = job.job_id }

    -- After the pipeline, which started at `start`.
    unfoldable pub conclude :
        ℕ
        → Settled (ContentResult N) × PipelineState N W
        → List (ContentJobEntity N)
        → Settled (Unit {0}) × WorkerState N W
    unfolding announced
    conclude start (rejected e, s) jobs = (rejected e, record { jobs = jobs; world = s.world })
    conclude start (resolved result, s) jobs =
        let duration_ms = p.orchestrator.now s.world - start in
        let counted = count_reasons s.ctx.degradation.reasons s.world in
        let sent =
          announced s.ctx result duration_ms
            (p.orchestrator.emit job.job_id (done_event result) counted) in
        (
          sent.0,
          record { jobs = update_job job.job_id (mark_done s.ctx result) jobs; world = sent.1 },
        )

    launch :
        Settled (AgentContext N) × W
        → List (ContentJobEntity N)
        → Settled (Unit {0}) × WorkerState N W
    launch (rejected e, w) jobs = (rejected e, record { jobs = jobs; world = w })
    launch (resolved ctx, w) jobs =
        conclude (p.orchestrator.now w) (run p.orchestrator (record { ctx = ctx; world = w })) jobs

    start_for : Settled BrandEntity → WorkerState N W → Settled (Unit {0}) × WorkerState N W
    unfolding launch
    start_for (rejected e) s = (rejected e, s)
    start_for (resolved brand) s = launch (overload_check (job_context brand) s.world) s.jobs

    unfoldable pub process : ℕ → WorkerState N W → Settled (Unit {0}) × WorkerState N W
    unfolding start_for
    process attempts_made s =
        start_for (find_by_id job.brand_id p.brands)
          (record s { jobs = update_job job.job_id (mark_running attempts_made) s.jobs })

    close_sent : Settled (Unit {0}) × W → Settled (Unit {0}) × W
    close_sent (resolved a, w) = (resolved tt, p.close_stream job.job_id w)
    close_sent (rejected e, w) = (rejected e, w)

    -- The handler of a failed attempt; `attempts_made` counts that attempt.
    unfoldable pub on_failed :
        ℕ → ℕ → Thrown → WorkerState N W → Settled (Unit {0}) × WorkerState N W
    unfolding close_sent
    on_failed attempts_made max_attempts err s =
        let sent = close_sent (
          p.orchestrator.emit job.job_id
            (record { payload = job_error job.job_id (message err); job_id = job.job_id })
            s.world) in
        if leb max_attempts attempts_made
        then (
          sent.0,
          record { jobs = update_job job.job_id (mark_failed err) s.jobs; world = sent.1 },
        )
        else (resolved tt, record s { jobs = update_job job.job_id mark_retrying s.jobs })
