-- ===== src/Worker/Tests.antt =====
-- The worker with the concrete agents of the orchestrator's tests.
use ai_content_platform.Prelude.{ℕ, ◌≡◌, refl, none, some, [], ◌∷◌}
use ai_content_platform.Domain.{blog, running}
use ai_content_platform.Exceptions.{error}
use ai_content_platform.Brands.Tests.{brand_of}
use ai_content_platform.Queue.{attempts, ContentPipelineJobData}
use ai_content_platform.Agents.Orchestrator.Tests.{World, demo, quiet}
use ai_content_platform.Content.{ContentJobEntity, find_job, update_job}
use ai_content_platform.Worker.{Worker, WorkerState, process, on_failed}
use ai_content_platform.Worker.Laws.{
  Attempted, Over, Handled, deliver, process-Attempted, on_failed-Handled, deliver-ends,
}

abbrev worker : Worker ℕ World
worker = record {
  orchestrator = demo;
  queue_depth = none;
  degradation_service = none;
  close_stream = λ id w. w;
  record_degradation = λ reason w. w;
  record_pipeline_latency = λ t ms w. w;
  start_evaluation = λ ctx r w. w;
  brands = brand_of "a" ∷ [];
  zero = 0;
}

abbrev request : ContentPipelineJobData
request = record {
  job_id = "j";
  brand_id = "a";
  topic = "tea";
  content_type = blog;
  correlation_id = "c";
}

abbrev row : ContentJobEntity ℕ
row = record {
  id = "j";
  brand_id = "a";
  topic = "tea";
  content_type = blog;
  status = running;
  agent_trace = [];
  result = none;
  error_message = none;
  queue_job_id = none;
  attempts = 1;
  correlation_id = some "c";
}

abbrev taken_up : WorkerState ℕ World
taken_up = record { jobs = row ∷ []; world = quiet }

working : Unit {0}
unfolding find_job update_job on_failed
working = tt

process-Attempted_example : Attempted worker request 0 (process worker request 0 taken_up)
unfolding working
process-Attempted_example = process-Attempted worker request 0 taken_up row refl

on_failed-Handled_example :
    ((y : ContentJobEntity ℕ) × (find_job "j"
          (on_failed worker request 3 attempts (error "no key") taken_up).1.jobs
        ≡ some y)
      × Handled worker request 3 attempts
          (error "no key")
          quiet
          row
          y
          (on_failed worker request 3 attempts (error "no key") taken_up).1.world)
    × (find_job "k" (on_failed worker request 3 attempts (error "no key") taken_up).1.jobs ≡ none)
unfolding working
on_failed-Handled_example =
    on_failed-Handled worker request 3 attempts (error "no key") taken_up row "k" refl refl

deliver-ends_example :
    Over worker request attempts (deliver worker request attempts 0 attempts taken_up)
unfolding working
deliver-ends_example = deliver-ends worker request taken_up row refl
