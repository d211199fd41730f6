-- ===== src/Contracts/Laws.antt =====
-- What passing a contract gives.
use ai_content_platform.Prelude.{String, ◌≡◌, ◌↔◌, ◌≤◌, Bool, true, false, List, arith, str_length}
use ai_content_platform.Exceptions.{contract_violation, resolved, rejected}
use ai_content_platform.Contracts.{
  Zod, IsZod, passes, enforce, ContentGenerationJob, content_generation_job_checks,
}

module _ {N : Type 0} (z : Zod N) where
  -- `enforce` hands on the very value if it passes, and otherwise throws the violation of the named
  -- contract.
  pub enforce-resolved :
      {A : Type 0} (name : String) (checks : A → List Bool) (a b : A)
      → enforce z name checks a ≡ resolved b
      → (b ≡ a) × (passes (checks a) ≡ true)
  unfolding enforce
  enforce-resolved name checks a b h = ground arith

  pub enforce-rejected :
      {A : Type 0} (name : String) (checks : A → List Bool) (a : A)
      → passes (checks a) ≡ false
      → enforce z name checks a ≡ rejected (contract_violation name (z.report (checks a)))
  unfolding enforce
  enforce-rejected name checks a h = rw h

-- A payload passes the job contract exactly if its names are non-empty, its topic has 1 to 300
-- UTF-16 units and its time is a date that zod accepts.
pub content_generation_job_iff :
    {N : Type 0} (z : Zod N)
    → IsZod z
    → (j : ContentGenerationJob)
    → (passes (content_generation_job_checks z j) ≡ true) ↔ (
        (1 ≤ str_length j.job_id)
        × (1 ≤ str_length j.brand_id)
        × (1 ≤ str_length j.topic)
        × (str_length j.topic ≤ 300)
        × (1 ≤ str_length j.correlation_id)
        × (1 ≤ str_length j.idempotency_key)
        × (z.string_datetime j.enqueued_at ≡ true))
unfolding content_generation_job_checks
content_generation_job_iff z l j = ground (
  arith,
  l.string_min_lem 1 j.job_id,
  l.string_min_lem 1 j.brand_id,
  l.string_min_lem 1 j.topic,
  l.string_max_lem 300 j.topic,
  l.string_min_lem 1 j.correlation_id,
  l.string_min_lem 1 j.idempotency_key,
)
