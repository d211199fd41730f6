-- ===== src/Queue.antt =====
-- src/queue/queue.service.ts and src/queue/queue.constants.ts. BullMQ is a parameter.

use ai_content_platform.Prelude.{ℕ, ◌+◌, String, Option, none, some}
use ai_content_platform.Domain.{ContentType}
use ai_content_platform.Exceptions.{Settled, resolved, rejected}
use ai_content_platform.Contracts.{
  Zod, enforce, ContentGenerationJob, content_generation_job_checks,
}

-- `PIPELINE_JOB_OPTIONS.attempts`.
abbrev pub attempts : ℕ
attempts = 3

-- `ContentPipelineJobData`, with the two fields of its `dto`.
pub record ContentPipelineJobData : Type 0 where
  pub job_id : String
  pub brand_id : String
  pub topic : String
  pub content_type : ContentType
  pub correlation_id : String

-- The job counts by state; a state that is not reported is `none`.
pub record JobCounts : Type 0 where
  pub waiting : Option ℕ
  pub active : Option ℕ
  pub delayed : Option ℕ

-- `queue.add('generate', data, { jobId })` answers with the job's id.
pub record BullQueue (Q : Type 0) : Type 0 where
  pub add : ContentPipelineJobData → Q → Settled String × Q
  pub get_job_counts : Q → JobCounts

abbrev or_zero : Option ℕ → ℕ
or_zero none = 0
or_zero (some n) = n

module _ {N Q : Type 0} (z : Zod N) (q : BullQueue Q) where
  unfoldable pub enriched : String → ContentPipelineJobData → ContentGenerationJob
  enriched now data' = record {
    job_id = data'.job_id;
    brand_id = data'.brand_id;
    topic = data'.topic;
    content_type = data'.content_type;
    correlation_id = data'.correlation_id;
    idempotency_key = data'.job_id;
    enqueued_at = now;
  }

  add_checked : ContentPipelineJobData → Settled ContentGenerationJob → Q → Settled String × Q
  add_checked data' (resolved parsed) s = q.add data' s
  add_checked data' (rejected e) s = (rejected e, s)

  -- `now` is the time in ISO format. The gauge of the queue depth, which is set after the answer,
  -- is left out.
  unfoldable pub enqueue : String → ContentPipelineJobData → Q → Settled String × Q
  unfolding add_checked enriched
  enqueue now data' s =
      add_checked data'
        (enforce z "ContentGenerationJobV1" (content_generation_job_checks z) (enriched now data'))
        s

unfoldable pub get_depth : {Q : Type 0} → BullQueue Q → Q → ℕ
get_depth q s =
    let counts = q.get_job_counts s in
    or_zero counts.waiting + or_zero counts.active + or_zero counts.delayed
