-- ===== src/Agents/Orchestrator/Result.antt =====
-- The result of a run.
use ai_content_platform.Prelude.{◌≡◌, ◌≢◌, ◌↔◌, refl, sym, subst, true, List, [], ◌∷◌, map, str_or}
use ai_content_platform.Domain.{ContentResult}
use ai_content_platform.Exceptions.{Settled, resolved, rejected}
use ai_content_platform.Resilience.{DegradationReason, reason_name, is_degraded}
use ai_content_platform.Contracts.{passes, content_result_checks}
use ai_content_platform.Contracts.Laws.{enforce-resolved}
use ai_content_platform.Agents.Orchestrator.{
  PipelineState, Orchestrator, bind, loop, assemble, finish, run, pipeline,
}

flag_lem :
    (reasons : List DegradationReason)
    → (is_degraded (record { reasons = reasons }) ≡ true) ↔ (map reason_name reasons ≢ [])
unfolding is_degraded
flag_lem [] = (λ h. cc, λ h. absurd (h refl))
flag_lem (x ∷ xs) = (λ h e. cc, λ h. refl)

module _ {N W : Type 0} where
  -- What a result says of the context that the run ended with.
  pub record Describes (o : Orchestrator N W) (s : PipelineState N W) (r : ContentResult N)
      : Type 0 where
    pub raw : r.raw ≡ s.ctx.draft_content
    pub optimized : r.optimized ≡ str_or s.ctx.optimized_content s.ctx.draft_content
    pub citations : r.citations ≡ s.ctx.citations
    pub readability : r.readability_score ≡ s.ctx.readability_score
    pub reasons : r.degradation_reasons ≡ map reason_name s.ctx.degradation.reasons
    pub flag : (r.degraded ≡ true) ↔ (r.degradation_reasons ≢ [])
    pub passed : passes (content_result_checks o.zod r) ≡ true

  finish-Describes :
      (o : Orchestrator N W) (s : PipelineState N W) (r : ContentResult N)
      → (finish o s).0 ≡ resolved r
      → Describes o (finish o s).1 r
  unfolding finish
  finish-Describes o s r h = whole (
      enforce-resolved o.zod "ContentResultV1" (content_result_checks o.zod) (assemble o s.ctx) r h)
    where
      whole :
          (r ≡ assemble o s.ctx) × (passes (content_result_checks o.zod (assemble o s.ctx)) ≡ true)
          → Describes o s r
      whole (e, p) = subst (Describes o s) (sym e) (
          unfold assemble in
          (record {
            raw = refl;
            optimized = refl;
            citations = refl;
            readability = refl;
            reasons = refl;
            flag = flag_lem s.ctx.degradation.reasons;
            passed = p;
          }))

  -- A result that a run returns describes the context that it ends with, says that it is degraded
  -- exactly if it lists a reason, and passes the result contract.
  pub run-Describes :
      (o : Orchestrator N W) (s : PipelineState N W) (r : ContentResult N)
      → (run o s).0 ≡ resolved r
      → Describes o (run o s).1 r
  unfolding run
  run-Describes o s r h = last (loop o (o.now s.world) pipeline s) h
    where
      last :
          (given : Settled (Unit {0}) × PipelineState N W)
          → (bind given (λ _. finish o)).0 ≡ resolved r
          → Describes o (bind given (λ _. finish o)).1 r
      last (resolved a, t) k = finish-Describes o t r k
      last (rejected e, t) k = cc
