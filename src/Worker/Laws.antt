-- ===== src/Worker/Laws.antt =====
-- The life of a job in the worker.

use ai_content_platform.Prelude.{
  ℕ, zero, suc, ◌+◌, ◌≤◌, ◌<◌, String, ◌≡◌, refl, ◌∙◌, ◌⊎◌, inl, inr, Bool, true, false, some, List,
  ◌==◌, if◌then◌else◌, arith, eq_refl, leb, Bool-cases,
}
use ai_content_platform.Domain.{ContentResult, done, failed, retrying, cancelled}
use ai_content_platform.Exceptions.{Thrown, message, Settled, resolved, rejected}
use ai_content_platform.Agents.Context.{AgentContext}
use ai_content_platform.Agents.Orchestrator.{PipelineState}
use ai_content_platform.Brands.{BrandEntity, find_by_id}
use ai_content_platform.Content.{ContentJobEntity, find_job, update_job}
use ai_content_platform.Content.Laws.{find_job-update}
use ai_content_platform.Queue.{attempts, ContentPipelineJobData}
use ai_content_platform.Worker.{
  Worker, WorkerState, final_status, mark_running, mark_done, mark_failed, mark_retrying, conclude,
  launch, start_for, process, on_failed,
}

final_status_lem : (b : Bool) → (final_status b ≡ done) ⊎ (final_status b ≡ cancelled)
final_status_lem true = inr refl
final_status_lem false = inl refl

module _ {N : Type 0} where
  -- What the job's row says after an attempt that succeeded.
  pub record IsFinished (x : ContentJobEntity N) : Type 0 where
    pub status : (x.status ≡ done) ⊎ (x.status ≡ cancelled)
    pub result : (r : ContentResult N) × (x.result ≡ some r)

  -- And after an attempt that failed, before its handler.
  update_self :
      (id : String) (f : ContentJobEntity N → ContentJobEntity N)
      (table : List (ContentJobEntity N)) (x : ContentJobEntity N)
      → ((y : ContentJobEntity N) → (f y).id ≡ y.id)
      → find_job id table ≡ some x
      → find_job id (update_job id f table) ≡ some (f x)
  update_self id f table x k h = find_job-update id id f table k ∙ rw (eq_refl id, h)

module _ {N W : Type 0} (p : Worker N W) (job : ContentPipelineJobData) where
  -- The row after an attempt, by its outcome: finished, or left running for the handler.
  abbrev pub Attempted : ℕ → Settled (Unit {0}) × WorkerState N W → Type 0
  Attempted n (resolved a, s) =
      (x : ContentJobEntity N) × (find_job job.job_id s.jobs ≡ some x)
      × IsFinished x
      × (x.attempts ≡ suc n)
  Attempted n (rejected e, s) =
      (x : ContentJobEntity N) × (find_job job.job_id s.jobs ≡ some x) × (x.attempts ≡ suc n)

  conclude-Attempted :
      (n start : ℕ) (given : Settled (ContentResult N) × PipelineState N W)
      (jobs : List (ContentJobEntity N)) (x : ContentJobEntity N)
      → find_job job.job_id jobs ≡ some x
      → x.attempts ≡ suc n
      → Attempted n (conclude p job start given jobs)
  unfolding conclude
  conclude-Attempted n start (rejected e, s) jobs x h k = (x, h, k)
  conclude-Attempted n start (resolved result, s) jobs x h k = sent _
    where
      row :
          find_job job.job_id (update_job job.job_id (mark_done p s.ctx result) jobs)
          ≡ some (mark_done p s.ctx result x)
      row = update_self job.job_id (mark_done p s.ctx result) jobs x (λ y. refl) h

      sent :
          (given : Settled (Unit {0}) × W)
          → Attempted n (
            given.0,
            record {
              jobs = update_job job.job_id (mark_done p s.ctx result) jobs;
              world = given.1;
            },
          )
      sent (resolved a, w) = (
        mark_done p s.ctx result x,
        row,
        record { status = final_status_lem s.ctx.is_cancelled; result = (result, refl) },
        k,
      )
      sent (rejected e, w) = (mark_done p s.ctx result x, row, k)

  launch-Attempted :
      (n : ℕ) (given : Settled (AgentContext N) × W) (jobs : List (ContentJobEntity N))
      (x : ContentJobEntity N)
      → find_job job.job_id jobs ≡ some x
      → x.attempts ≡ suc n
      → Attempted n (launch p job given jobs)
  unfolding launch
  launch-Attempted n (rejected e, w) jobs x h k = (x, h, k)
  launch-Attempted n (resolved ctx, w) jobs x h k = conclude-Attempted n _ _ jobs x h k

  -- For a job that has a row, an attempt that succeeds leaves the row done or cancelled, with the
  -- result; one that fails leaves the row in place. In both cases the row counts the attempt.
  pub process-Attempted :
      (n : ℕ) (s : WorkerState N W) (x : ContentJobEntity N)
      → find_job job.job_id s.jobs ≡ some x
      → Attempted n (process p job n s)
  unfolding process start_for
  process-Attempted n s x h = started (find_by_id job.brand_id p.brands)
    where
      row :
          find_job job.job_id (update_job job.job_id (mark_running p n) s.jobs)
          ≡ some (mark_running p n x)
      row = update_self job.job_id (mark_running p n) s.jobs x (λ y. refl) h

      started :
          (o : Settled BrandEntity)
          → Attempted n (
              start_for p job o
                (record s { jobs = update_job job.job_id (mark_running p n) s.jobs }))
      started (rejected e) = (mark_running p n x, row, refl)
      started (resolved b) = launch-Attempted n _ _ (mark_running p n x) row refl

  on_failed-row :
      (made max : ℕ) (err : Thrown) (s : WorkerState N W) (x : ContentJobEntity N)
      → find_job job.job_id s.jobs ≡ some x
      → find_job job.job_id (on_failed p job made max err s).1.jobs
        ≡ some (if leb max made then mark_failed p err x else mark_retrying p x)
  unfolding on_failed
  on_failed-row made max err s x h = elim (Bool-cases (leb max made)) [
    | inl e ↦ rw e (update_self job.job_id (mark_failed p err) s.jobs x (λ y. refl) h)
    | inr e ↦ rw e (update_self job.job_id (mark_retrying p) s.jobs x (λ y. refl) h)
  ]

  on_failed-others :
      (made max : ℕ) (err : Thrown) (s : WorkerState N W) (j : String)
      → (job.job_id == j) ≡ false
      → find_job j (on_failed p job made max err s).1.jobs ≡ find_job j s.jobs
  unfolding on_failed
  on_failed-others made max err s j other = elim (Bool-cases (leb max made)) [
    | inl e ↦ rw e (find_job-update job.job_id j (mark_failed p err) s.jobs (λ y. refl) ∙ rw other)
    | inr e ↦ rw e (find_job-update job.job_id j (mark_retrying p) s.jobs (λ y. refl) ∙ rw other)
  ]

  -- Before the last attempt nothing is sent, and the stream stays open.
  on_failed-quiet :
      (made max : ℕ) (err : Thrown) (s : WorkerState N W)
      → made < max
      → (on_failed p job made max err s).1.world ≡ s.world
  unfolding on_failed
  on_failed-quiet made max err s left = rw (below made max left)
    where
      below : (a b : ℕ) → a < b → leb b a ≡ false
      below a b l = ground arith

  -- What the handler of a failed attempt leaves: for the last attempt a failed row with the message
  -- of the error, before it a row that is being retried and the world as it was. Nothing else of
  -- the row changes.
  pub data Handled (made max : ℕ) (err : Thrown) (w : W) (x : ContentJobEntity N)
      : ContentJobEntity N → W → Type 0 where
    given_up :
        (v : W)
        → max ≤ made
        → Handled made max err w x
            (record x { status = failed; error_message = some (message err) })
            v
    left_to_retry : made < max → Handled made max err w x (record x { status = retrying }) w

  handled :
      (made max : ℕ) (err : Thrown) (s : WorkerState N W) (x : ContentJobEntity N) (v : W)
      → (made < max → v ≡ s.world)
      → Handled made max err s.world x
          (if leb max made then mark_failed p err x else mark_retrying p x)
          v
  handled made max err s x v quiet = elim (Bool-cases (leb max made)) [
    | inl e ↦ rw e (given_up v (ground arith))
    | inr e ↦ rw (e, quiet (ground arith)) (left_to_retry (ground arith))
  ]

  -- For a job that has a row, the handler of its last failed attempt leaves the row failed, with
  -- the message of the error; the handler of an earlier one leaves it to be retried, sends nothing
  -- and does not close the stream. The rest of the row and the rows of all other jobs stay as they
  -- are.
  pub on_failed-Handled :
      (made max : ℕ) (err : Thrown) (s : WorkerState N W) (x : ContentJobEntity N) (j : String)
      → find_job job.job_id s.jobs ≡ some x
      → (job.job_id == j) ≡ false
      → ((y : ContentJobEntity N) × (find_job job.job_id (on_failed p job made max err s).1.jobs
            ≡ some y)
          × Handled made max err s.world x y (on_failed p job made max err s).1.world)
        × (find_job j (on_failed p job made max err s).1.jobs ≡ find_job j s.jobs)
  on_failed-Handled made max err s x j h other = (
    (
      if leb max made then mark_failed p err x else mark_retrying p x,
      on_failed-row made max err s x h,
      handled made max err s x _ (on_failed-quiet made max err s),
    ),
    on_failed-others made max err s j other,
  )

  -- BullMQ's delivery of a job: a failed attempt is followed by its handler, and by another attempt
  -- as long as there are any left.
  abbrev after_attempt :
      (WorkerState N W → WorkerState N W)
      → ℕ
      → ℕ
      → Settled (Unit {0}) × WorkerState N W
      → WorkerState N W
  after_attempt again made max (resolved a, s) = s
  after_attempt again made max (rejected e, s) =
      let t = (on_failed p job made max e s).1 in if leb max made then t else again t

  unfoldable pub deliver : (left made max : ℕ) → WorkerState N W → WorkerState N W
  deliver zero made max s = s
  deliver (suc left) made max s =
      after_attempt (deliver left (suc made) max) (suc made) max (process p job made s)

  -- A job that has come to its end: finished with a result, or failed with a message.
  abbrev pub IsOver : ContentJobEntity N → Type 0
  IsOver x = IsFinished x ⊎ ((x.status ≡ failed) × ((m : String) × (x.error_message ≡ some m)))

  abbrev pub Over : ℕ → WorkerState N W → Type 0
  Over max s =
      (x : ContentJobEntity N) × (find_job job.job_id s.jobs ≡ some x)
      × IsOver x
      × (x.attempts ≤ max)

  settle-Over :
      (left made max : ℕ) (given : Settled (Unit {0}) × WorkerState N W)
      → left + suc made ≡ max
      → ((t : WorkerState N W) (x : ContentJobEntity N)
          → 0 < left
          → find_job job.job_id t.jobs ≡ some x
          → Over max (deliver left (suc made) max t))
      → Attempted made given
      → Over max (after_attempt (deliver left (suc made) max) (suc made) max given)
  settle-Over left made max (resolved a, s) e again (x, h, f, k) = (x, h, inl f, omega arith)
  settle-Over left made max (rejected err, s) e again (x, h, k) =
      elim (Bool-cases (leb max (suc made))) [
        | inl last ↦ rw last (
          mark_failed p err x,
          on_failed-row (suc made) max err s x h ∙ rw last refl,
          inr (refl, (message err, refl)),
          omega arith,
        )
        | inr more ↦ rw more (
            again _ (mark_retrying p x) (ground arith)
              (on_failed-row (suc made) max err s x h ∙ rw more refl))
      ]

  deliver-Over :
      (left made max : ℕ) (s : WorkerState N W) (x : ContentJobEntity N)
      → left + made ≡ max
      → 0 < left
      → find_job job.job_id s.jobs ≡ some x
      → Over max (deliver left made max s)
  unfolding deliver
  deliver-Over zero made max s x e pos h = absurd (omega arith)
  deliver-Over (suc left) made max s x e pos h =
      settle-Over left made max (process p job made s) (omega arith)
        (λ t y more k. deliver-Over left (suc made) max t y (omega arith) more k)
        (process-Attempted made s x h)

  -- Whatever the agents, the queue and the event channel do, a delivered job that has a row comes
  -- to an end within its three attempts: its row is done or cancelled with a result, or failed with
  -- a message.
  pub deliver-ends :
      (s : WorkerState N W) (x : ContentJobEntity N)
      → find_job job.job_id s.jobs ≡ some x
      → Over attempts (deliver attempts 0 attempts s)
  deliver-ends s x h = deliver-Over attempts 0 attempts s x (omega arith) (omega arith) h
