-- ===== src/Content.antt =====
-- src/content: the jobs and their table. The time stamps of a row are left out. Calls of the
-- database succeed.
pub mod Laws
mod Tests
use ai_content_platform.Prelude.{
  ℕ, suc, ◌+◌, String, Bool, true, false, Option, none, some, List, [], ◌∷◌, ◌++◌, ◌==◌, ◌&&◌,
  if◌then◌else◌, keep, take,
}
use ai_content_platform.Domain.{
  AgentStep, ContentType, ContentResult, JobStatus, queued, running, failed,
}
use ai_content_platform.Exceptions.{Thrown, content_job_not_found, Settled, resolved, rejected}
use ai_content_platform.Contracts.{Zod}
use ai_content_platform.Brands.{BrandEntity, find_by_id}
use ai_content_platform.Queue.{BullQueue, ContentPipelineJobData, enqueue}

pub record ContentJobEntity (N : Type 0) : Type 0 where
  pub id : String
  pub brand_id : String
  pub topic : String
  pub content_type : ContentType
  pub status : JobStatus
  pub agent_trace : List AgentStep
  pub result : Option (ContentResult N)
  pub error_message : Option String
  pub queue_job_id : Option String
  pub attempts : ℕ
  pub correlation_id : Option String

abbrev is_running : JobStatus → Bool
is_running running = true
is_running _ = false

module _ {N : Type 0} where
  unfoldable pub find_job : String → List (ContentJobEntity N) → Option (ContentJobEntity N)
  find_job id [] = none
  find_job id (x ∷ xs) = if x.id == id then some x else find_job id xs

  -- `jobRepo.update(id, …)`; no row is no error.
  unfoldable pub update_job :
      String
      → (ContentJobEntity N → ContentJobEntity N)
      → List (ContentJobEntity N)
      → List (ContentJobEntity N)
  update_job id f [] = []
  update_job id f (x ∷ xs) =
      let rest = update_job id f xs in if x.id == id then f x ∷ rest else x ∷ rest

  abbrev zombie : ContentJobEntity N → ContentJobEntity N
  zombie x = record x {
    status = failed;
    error_message = some "Server restarted while job was running";
  }

  -- A job that a stopped server left running is marked.
  unfoldable pub restarted : ContentJobEntity N → ContentJobEntity N
  restarted x = if is_running x.status then zombie x else x

  unfoldable pub on_module_init : List (ContentJobEntity N) → List (ContentJobEntity N)
  unfolding restarted
  on_module_init [] = []
  on_module_init (x ∷ xs) = restarted x ∷ on_module_init xs

  unfoldable pub new_job : String → ContentPipelineJobData → ContentJobEntity N
  new_job id data' = record {
    id = id;
    brand_id = data'.brand_id;
    topic = data'.topic;
    content_type = data'.content_type;
    status = queued;
    agent_trace = [];
    result = none;
    error_message = none;
    queue_job_id = none;
    attempts = 0;
    correlation_id = some data'.correlation_id;
  }

  module _ {Q : Type 0} (z : Zod N) (q : BullQueue Q) where
    answered :
        ContentJobEntity N
        → List (ContentJobEntity N)
        → Settled String × Q
        → Settled (ContentJobEntity N) × List (ContentJobEntity N) × Q
    answered job table (resolved queue_id, s) = (resolved job, table, s)
    answered job table (rejected e, s) = (rejected e, table, s)

    create_for :
        Settled BrandEntity
        → String
        → ContentPipelineJobData
        → List (ContentJobEntity N)
        → Q
        → Settled (ContentJobEntity N) × List (ContentJobEntity N) × Q
    unfolding answered
    create_for (rejected e) now data' table s = (rejected e, table, s)
    create_for (resolved brand) now data' table s =
        let job = new_job data'.job_id data' in answered job (job ∷ table) (enqueue z q now data' s)

    -- The `job_id` of the data is the key that the database generates for the new row.
    unfoldable pub create_job :
        String
        → ContentPipelineJobData
        → List BrandEntity
        → List (ContentJobEntity N)
        → Q
        → Settled (ContentJobEntity N) × List (ContentJobEntity N) × Q
    unfolding create_for
    create_job now data' brands table s =
        create_for (find_by_id data'.brand_id brands) now data' table s

  of_brand : String → String → Option (ContentJobEntity N) → Settled (ContentJobEntity N)
  of_brand id brand_id none = rejected (content_job_not_found id)
  of_brand id brand_id (some x) =
      if x.brand_id == brand_id then resolved x else rejected (content_job_not_found id)

  -- `findOne({ where: { id, brandId } })`; `id` is the primary key.
  unfoldable pub get_job :
      String → String → List (ContentJobEntity N) → Settled (ContentJobEntity N)
  unfolding of_brand
  get_job id brand_id table = of_brand id brand_id (find_job id table)

  -- The table lists the newest row first.
  unfoldable pub list_jobs : String → List (ContentJobEntity N) → List (ContentJobEntity N)
  list_jobs brand_id table = take 50 (keep (λ x. x.brand_id == brand_id) table)
