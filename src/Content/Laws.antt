-- ===== src/Content/Laws.antt =====
-- Jobs in their table: creation, restarts, and whose job a caller sees.
use mathlib.Core.Option
use ai_content_platform.Prelude.{
  ◌≤◌, String, ◌≡◌, ◌≢◌, ap, ◌∙◌, refl, subst, true, false, some, List, [], ◌∷◌, ◌==◌,
  if◌then◌else◌, arith, eq_iff, All, All-take, keep, keep-All, length, length-take-le, Option-cases,
  Bool-cases, inl, inr, str_length,
}
use ai_content_platform.Domain.{JobStatus, queued, running, retrying, done, failed, cancelled}
use ai_content_platform.Exceptions.{contract_violation, resolved, rejected}
use ai_content_platform.Contracts.{Zod, IsZod, passes, content_generation_job_checks}
use ai_content_platform.Contracts.Laws.{content_generation_job_iff, enforce-rejected}
use ai_content_platform.Brands.{BrandEntity, find_by_id}
use ai_content_platform.Queue.{BullQueue, ContentPipelineJobData, enqueue, enriched}
use ai_content_platform.Content.{
  ContentJobEntity, is_running, zombie, restarted, find_job, update_job, on_module_init, new_job,
  create_for, create_job, get_job, list_jobs,
}

module _ {N : Type 0} where
  pub find_job-id :
      (id : String) (table : List (ContentJobEntity N)) (x : ContentJobEntity N)
      → find_job id table ≡ some x
      → x.id ≡ id
  unfolding find_job
  find_job-id id [] x h = cc
  find_job-id id (y ∷ table) x h = ground (arith, eq_iff y.id id, find_job-id id table x)

  -- An update that keeps the key changes the row of its key, and no other.
  pub find_job-update :
      (id j : String) (f : ContentJobEntity N → ContentJobEntity N)
      (table : List (ContentJobEntity N))
      → ((x : ContentJobEntity N) → (f x).id ≡ x.id)
      → find_job j (update_job id f table)
        ≡ (if id == j then Option.map f (find_job j table) else find_job j table)
  unfolding find_job update_job
  find_job-update id j f [] k = ground arith
  find_job-update id j f (x ∷ table) k =
      ground
        (arith, eq_iff id j, eq_iff x.id id, eq_iff x.id j, k x, find_job-update id j f table k)

  -- A job's row before and after a restart: one that was running has failed, with the message that
  -- says so and nothing else changed, and one in any other state is as it was.
  pub data Restarted (x : ContentJobEntity N) : ContentJobEntity N → Type 0 where
    interrupted :
        x.status ≡ running
        → Restarted x (record x {
          status = failed;
          error_message = some "Server restarted while job was running";
        })
    untouched : x.status ≢ running → Restarted x x

  restarted_row : (x : ContentJobEntity N) → Restarted x (restarted x)
  unfolding restarted
  restarted_row x = by_status x.status refl
    where
      by_status :
          (s : JobStatus) → x.status ≡ s → Restarted x (if is_running s then zombie x else x)
      by_status queued e = untouched (λ h. cc)
      by_status running e = interrupted e
      by_status retrying e = untouched (λ h. cc)
      by_status done e = untouched (λ h. cc)
      by_status failed e = untouched (λ h. cc)
      by_status cancelled e = untouched (λ h. cc)

  restarted-status : (x : ContentJobEntity N) → (restarted x).status ≢ running
  restarted-status x = by_row (restarted x) (restarted_row x)
    where
      by_row : (y : ContentJobEntity N) → Restarted x y → y.status ≢ running
      by_row y (interrupted e) h = cc
      by_row y (untouched e) h = e h

  on_module_init-idle :
      (table : List (ContentJobEntity N)) → All (λ x. x.status ≢ running) (on_module_init table)
  unfolding on_module_init
  on_module_init-idle [] = tt
  on_module_init-idle (x ∷ table) = (restarted-status x, on_module_init-idle table)

  on_module_init-map :
      (id : String) (table : List (ContentJobEntity N))
      → find_job id (on_module_init table) ≡ Option.map restarted (find_job id table)
  unfolding find_job on_module_init restarted
  on_module_init-map id [] = refl
  on_module_init-map id (x ∷ table) = ground (arith, on_module_init-map id table)

  -- After a restart no job is running. A job that has a row still has one: if it was running, it
  -- has failed with the message that says so, and nothing else of it has changed; if it was in any
  -- other state, it is as it was.
  pub on_module_init-Restarted :
      (id : String) (table : List (ContentJobEntity N)) (x : ContentJobEntity N)
      → find_job id table ≡ some x
      → All (λ y. y.status ≢ running) (on_module_init table)
        × ((y : ContentJobEntity N) × (find_job id (on_module_init table) ≡ some y) × Restarted x y)
  on_module_init-Restarted id table x h = (
    on_module_init-idle table,
    (restarted x, on_module_init-map id table ∙ ap (Option.map restarted) h, restarted_row x),
  )

  -- A job is answered only to the brand that owns it.
  pub get_job-owner :
      (id brand_id : String) (table : List (ContentJobEntity N)) (x : ContentJobEntity N)
      → get_job id brand_id table ≡ resolved x
      → (x.id ≡ id) × (x.brand_id ≡ brand_id) × (find_job id table ≡ some x)
  unfolding get_job
  get_job-owner id brand_id table x h = elim (Option-cases (find_job id table)) [
    | inl e ↦ absurd (ground arith)
    | inr (y, e) ↦ ground (arith, find_job-id id table y e, eq_iff y.brand_id brand_id)
  ]

  -- A listing has at most fifty jobs, all of the brand.
  pub list_jobs-All :
      (brand_id : String) (table : List (ContentJobEntity N))
      → All (λ x. (x.brand_id == brand_id) ≡ true) (list_jobs brand_id table)
        × (length (list_jobs brand_id table) ≤ 50)
  unfolding list_jobs
  list_jobs-All brand_id table = (
    All-take _ 50 (keep (λ x. x.brand_id == brand_id) table)
        (keep-All (λ x. x.brand_id == brand_id) table),
    length-take-le 50 _,
  )

  module _ {Q : Type 0} (z : Zod N) (l : IsZod z) (q : BullQueue Q) where
    empty_correlation :
        (now : String) (d : ContentPipelineJobData)
        → d.correlation_id ≡ ""
        → passes (content_generation_job_checks z (enriched z q now d)) ≡ false
    unfolding enriched
    empty_correlation now d h =
        elim (Bool-cases (passes (content_generation_job_checks z (enriched z q now d)))) [
          | inr e ↦ e
          | inl e ↦
              let (_, _, _, _, long, _, _) =
                (content_generation_job_iff z l (enriched z q now d)).0 e in
              let none_long : 1 ≤ str_length "" = subst (λ c. 1 ≤ str_length c) h long in
              absurd (omega arith)
        ]

    -- A job whose payload breaks the contract, as one with an empty correlation id does, is
    -- refused, and the queue is untouched; but its row has been saved, and stays queued.
    pub create_job-orphan :
        (now : String) (d : ContentPipelineJobData) (brands : List BrandEntity)
        (brand : BrandEntity) (table : List (ContentJobEntity N)) (s : Q)
        → find_by_id d.brand_id brands ≡ resolved brand
        → d.correlation_id ≡ ""
        → (issues : String) × (create_job z q now d brands table s ≡ (
          rejected (contract_violation "ContentGenerationJobV1" issues),
          new_job d.job_id d ∷ table,
          s,
        ))
    unfolding create_job enqueue
    create_job-orphan now d brands brand table s b h =
        let broken =
          enforce-rejected z "ContentGenerationJobV1" (content_generation_job_checks z)
            (enriched z q now d) (empty_correlation now d h) in
        (
          z.report (content_generation_job_checks z (enriched z q now d)),
          rw (b, create_for) (rw broken refl),
        )
