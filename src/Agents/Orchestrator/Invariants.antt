-- ===== src/Agents/Orchestrator/Invariants.antt =====
-- What every run of the pipeline keeps, whether it succeeds, fails or is cancelled.
use ai_content_platform.Prelude.{ℕ, ◌-◌, ◌&&◌, List, [], ◌∷◌, Bool-cases, if_rule, inl, inr}
use ai_content_platform.Domain.{AgentRole}
use ai_content_platform.Exceptions.{Thrown, Settled, resolved, rejected}
use ai_content_platform.Resilience.{DegradationReason, contract_retry, optional_agent_skipped}
use ai_content_platform.Resilience.Laws.{
  Distinct, Extends, Extends-refl, Extends-trans, append-Distinct, append-Extends,
}
use ai_content_platform.Streaming.Events.{EventData, SseEvent, agent_start}
use ai_content_platform.Agents.Context.{degrade}
use ai_content_platform.Agents.Orchestrator.{
  PipelineState, Orchestrator, M, bind, handle, append_reason, with_timeout, emit_event,
  run_with_retry, run_role, announce_done, perform, should_skip_optional, visit, loop, finish, run,
  pipeline, is_optional,
}

module _ {ℓ} {N W : Type 0} (P : PipelineState N W → Type ℓ) where
  abbrev pub Keeps : {A : Type 0} → M N W A → Type ℓ
  Keeps m = (s : PipelineState N W) → P s → P (m s).1

  pub bind-Keeps :
      {A B : Type 0} (given : Settled A × PipelineState N W) (f : A → M N W B)
      → P given.1
      → ((a : A) → Keeps (f a))
      → P (bind given f).1
  bind-Keeps (resolved a, s) f p k = k a s p
  bind-Keeps (rejected e, s) f p k = p

  pub handle-Keeps :
      (given : Settled (Unit {0}) × PipelineState N W) (f : Thrown → M N W (Unit {0}))
      → P given.1
      → ((e : Thrown) → Keeps (f e))
      → P (handle given f).1
  handle-Keeps (resolved a, s) f p k = p
  handle-Keeps (rejected e, s) f p k = k e s p

  module _ (o : Orchestrator N W) where
    -- The agents, the event channel and the recording of a reason keep `P`.
    pub record IsKept : Type ℓ where
      pub agents : (role : AgentRole) (s : PipelineState N W) → P s → P (o.run_agent role s).after
      pub emits :
          (event : SseEvent N) (s : PipelineState N W)
          → P s
          → P (record s { world = (o.emit s.ctx.job_id event s.world).1 })
      pub reasons : (reason : DegradationReason) → Keeps (append_reason reason)

module _ {ℓ} {N W : Type 0} (P : PipelineState N W → Type ℓ) (o : Orchestrator N W)
    (k : IsKept P o) where
  pub with_timeout-Keeps : (role : AgentRole) → Keeps P (with_timeout o role)
  unfolding with_timeout
  with_timeout-Keeps role s p = k.agents role s p

  pub emit_event-Keeps : (payload : EventData N) → Keeps P (emit_event o payload)
  unfolding emit_event
  emit_event-Keeps payload s p = k.emits _ s p

  run_with_retry-Keeps : (role : AgentRole) → Keeps P (run_with_retry o role)
  unfolding run_with_retry
  run_with_retry-Keeps role s p =
      handle-Keeps P (with_timeout o role s) _ (with_timeout-Keeps role s p) λ first t q.
        handle-Keeps P (with_timeout o role _) _
          (with_timeout-Keeps role _ (k.reasons contract_retry t q))
          λ retry u w. k.reasons optional_agent_skipped u w

  run_role-Keeps : (role : AgentRole) → Keeps P (run_role o role)
  unfolding run_role
  run_role-Keeps role s p = elim (Bool-cases (is_optional role)) [
    | inl e ↦ rw e (run_with_retry-Keeps role s p)
    | inr e ↦ rw e (with_timeout-Keeps role s p)
  ]

  announce_done-Keeps : (role : AgentRole) → Keeps P (announce_done o role)
  unfolding announce_done
  announce_done-Keeps role s p = emit_event-Keeps _ s p

  perform-Keeps : (role : AgentRole) → Keeps P (perform o role)
  unfolding perform
  perform-Keeps role s p =
      bind-Keeps P (emit_event o (agent_start role) s) _ (emit_event-Keeps _ s p) λ _ t q.
        bind-Keeps P (run_role o role t) _ (run_role-Keeps role t q)
          λ _ u w. announce_done-Keeps role u w

  pub visit-Keeps : (start : ℕ) (role : AgentRole) → Keeps P (visit o start role)
  unfolding visit
  visit-Keeps start role s p =
      elim (Bool-cases (is_optional role && should_skip_optional o s.ctx (o.now s.world - start))) [
        | inl e ↦ rw e (k.reasons optional_agent_skipped s p)
        | inr e ↦ rw e (perform-Keeps role s p)
      ]

  loop-Keeps : (start : ℕ) (roles : List AgentRole) → Keeps P (loop o start roles)
  unfolding loop
  loop-Keeps start [] s p = p
  loop-Keeps start (role ∷ roles) s p =
      if_rule {A = Settled (Unit {0}) × PipelineState N W} (λ given. P given.1) s.ctx.is_cancelled
        (λ e. p)
        λ e.
          bind-Keeps P (visit o start role s) _ (visit-Keeps start role s p)
            λ _ t q. loop-Keeps start roles t q

  -- Whatever the agents, the event channel and the recording of a reason keep, a whole run keeps.
  pub run-Keeps : Keeps P (run o)
  unfolding run finish
  run-Keeps s p =
      bind-Keeps P (loop o (o.now s.world) pipeline s) _ (loop-Keeps (o.now s.world) pipeline s p)
        λ _ t q. q

-- An agent that only records reasons, as all of them do by `append`.
pub record OnlyRecords {N W : Type 0} (o : Orchestrator N W) : Type 0 where
  pub distinct :
      (role : AgentRole) (s : PipelineState N W)
      → Distinct s.ctx.degradation.reasons
      → Distinct (o.run_agent role s).after.ctx.degradation.reasons
  pub extends :
      (role : AgentRole) (s : PipelineState N W)
      → Extends s.ctx.degradation.reasons (o.run_agent role s).after.ctx.degradation.reasons

abbrev Recorded : {N W : Type 0} → List DegradationReason → PipelineState N W → Type 0
Recorded old s = Distinct s.ctx.degradation.reasons × Extends old s.ctx.degradation.reasons

pub Recorded-IsKept :
    {N W : Type 0} (o : Orchestrator N W) (old : List DegradationReason)
    → OnlyRecords o
    → IsKept (Recorded old) o
unfolding append_reason degrade
Recorded-IsKept o old r = record {
  agents = λ role s p. (r.distinct role s p.0, Extends-trans old p.1 (r.extends role s));
  emits = λ event s p. p;
  reasons = λ reason s p. (
    append-Distinct reason s.ctx.degradation p.0,
    Extends-trans old p.1 (append-Extends reason s.ctx.degradation),
  );
}

-- If the agents only record reasons, degradation is monotonic over a run: the reasons known before
-- it stay, in front and in order, and none is listed twice if none was before.
pub run-reasons :
    {N W : Type 0} (o : Orchestrator N W) (s : PipelineState N W)
    → OnlyRecords o
    → Distinct s.ctx.degradation.reasons
    → Distinct (run o s).1.ctx.degradation.reasons
      × Extends s.ctx.degradation.reasons (run o s).1.ctx.degradation.reasons
run-reasons o s r d =
    run-Keeps (Recorded s.ctx.degradation.reasons) o (Recorded-IsKept o s.ctx.degradation.reasons r)
      s (d, Extends-refl s.ctx.degradation.reasons)
