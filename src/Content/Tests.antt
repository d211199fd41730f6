-- ===== src/Content/Tests.antt =====
-- Jobs of a concrete brand.
use ai_content_platform.Prelude.{ℕ, String, ◌≡◌, refl, none, some, [], ◌∷◌, arith}
use ai_content_platform.Domain.{blog, running}
use ai_content_platform.Exceptions.{contract_violation, content_job_not_found, resolved, rejected}
use ai_content_platform.Contracts.{IsZod, enforce, content_generation_job_checks}
use ai_content_platform.Streaming.Service.Tests.{zod}
use ai_content_platform.Brands.{find_by_id, find_active}
use ai_content_platform.Brands.Tests.{brand_of}
use ai_content_platform.Queue.{BullQueue, ContentPipelineJobData, enqueue, enriched}
use ai_content_platform.Content.{
  ContentJobEntity, find_job, on_module_init, new_job, create_job, get_job, list_jobs, restarted,
}
use ai_content_platform.Content.Laws.{Restarted, on_module_init-Restarted, create_job-orphan}

zod-IsZod : IsZod zod
zod-IsZod = record {
  string_min_lem = λ n s. ground arith;
  string_max_lem = λ n s. ground arith;
  array_min_lem = λ n k. ground arith;
  array_max_lem = λ n k. ground arith;
  int_min_lem = λ n k. ground arith;
  int_max_lem = λ n k. ground arith;
}

-- The queue counts what it was given.
abbrev bull : BullQueue ℕ
bull = record {
  add = λ d n. (resolved d.job_id, n);
  get_job_counts = λ n. record { waiting = some n; active = none; delayed = none };
}

abbrev request : ContentPipelineJobData
request = record {
  job_id = "j";
  brand_id = "a";
  topic = "tea";
  content_type = blog;
  correlation_id = "";
}

abbrev left_running : ContentJobEntity ℕ
left_running = record (new_job "j" request) { status = running }

keeping : Unit {0}
unfolding find_job on_module_init restarted new_job create_job get_job list_jobs enqueue enriched
    find_by_id find_active enforce content_generation_job_checks
keeping = tt

on_module_init-Restarted_example :
    (y : ContentJobEntity ℕ) × (find_job "j" (on_module_init (left_running ∷ [])) ≡ some y)
    × Restarted left_running y
unfolding keeping
on_module_init-Restarted_example =
    (on_module_init-Restarted "j" (left_running ∷ []) left_running refl).1

other_brand : get_job "j" "b" (left_running ∷ []) ≡ rejected (content_job_not_found "j")
unfolding keeping
other_brand = refl

create_job-orphan_example :
    (issues : String) × (create_job zod bull "now" request (brand_of "a" ∷ []) [] 0 ≡ (
      rejected (contract_violation "ContentGenerationJobV1" issues),
      new_job "j" request ∷ [],
      0,
    ))
unfolding keeping
create_job-orphan_example =
    create_job-orphan zod zod-IsZod bull "now" request (brand_of "a" ∷ []) (brand_of "a") [] 0 refl
      refl
