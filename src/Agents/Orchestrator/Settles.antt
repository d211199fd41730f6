-- ===== src/Agents/Orchestrator/Settles.antt =====
-- How a run ends.
use ai_content_platform.Prelude.{
  ℕ, ◌-◌, ◌≤◌, String, ◌≡◌, refl, ◌⊎◌, inl, inr, true, false, ◌&&◌, Option, none, some, List, [],
  ◌∷◌, arith, if_rule, str_length,
}
use ai_content_platform.Domain.{AgentRole, ContentResult}
use ai_content_platform.Exceptions.{Thrown, contract_violation, Settled, resolved, rejected}
use ai_content_platform.Resilience.{DegradationReason}
use ai_content_platform.Contracts.{Zod, IsZod, passes, enforce, content_result_checks}
use ai_content_platform.Streaming.Events.{
  EventData, SseEvent, agent_start, agent_done, payload_checks, sse_event_checks,
}
use ai_content_platform.Agents.Context.{degrade}
use ai_content_platform.Agents.Orchestrator.{
  PipelineState, Orchestrator, M, bind, handle, append_reason, with_timeout, emit_event,
  run_with_retry, run_role, announce_done, perform, should_skip_optional, visit, loop, assemble,
  finish, run, is_optional, pipeline,
}

start_passes :
    {N : Type 0} (z : Zod N)
    → IsZod z
    → (role : AgentRole) (id : String) → 1 ≤ str_length id
    → passes (sse_event_checks z (record { payload = agent_start role; job_id = id })) ≡ true
unfolding sse_event_checks payload_checks
start_passes z l role id h = ground (arith, l.string_min_lem 1 id)

done_passes :
    {N : Type 0} (z : Zod N)
    → IsZod z
    → (role : AgentRole) (ms : Option ℕ) (id : String) → 1 ≤ str_length id
    → passes (sse_event_checks z (record { payload = agent_done role ms; job_id = id })) ≡ true
unfolding sse_event_checks payload_checks
done_passes z l role none id h = ground (arith, l.string_min_lem 1 id)
done_passes z l role (some ms) id h = ground (arith, l.string_min_lem 1 id, l.int_min_lem 0 ms)

abbrev pub ResultOrViolation : {N : Type 0} → Settled (ContentResult N) → Type 0
ResultOrViolation {N} given =
    ((r : ContentResult N) × (given ≡ resolved r))
    ⊎ ((issues : String) × (given ≡ rejected (contract_violation "ContentResultV1" issues)))

module _ {N W : Type 0} where
  -- An orchestrator in good order, as long as a condition on the state of the run holds: the event
  -- channel takes the events that meet its contract, each required agent succeeds before its timer,
  -- the agents (whatever their outcome), the events and new reasons keep the condition, and the job
  -- has an id.
  pub record IsUp (o : Orchestrator N W) (P : PipelineState N W → Type 0) : Type 0 where
    pub zod : IsZod o.zod
    pub named : (s : PipelineState N W) → P s → 1 ≤ str_length s.ctx.job_id
    pub emits :
        (id : String) (event : SseEvent N) (w : W)
        → passes (sse_event_checks o.zod event) ≡ true
        → (o.emit id event w).0 ≡ resolved tt
    pub required :
        (role : AgentRole) (s : PipelineState N W)
        → is_optional role ≡ false
        → P s
        → (with_timeout o role s).0 ≡ resolved tt
    pub keeps : (role : AgentRole) (s : PipelineState N W) → P s → P (o.run_agent role s).after
    pub told :
        (id : String) (event : SseEvent N) (s : PipelineState N W)
        → P s
        → P (record s { world = (o.emit id event s.world).1 })
    pub degraded :
        (reason : DegradationReason) (s : PipelineState N W)
        → P s
        → P (record s { ctx = degrade reason s.ctx })

  finish-settles : (o : Orchestrator N W) (s : PipelineState N W) → ResultOrViolation (finish o s).0
  unfolding finish enforce
  finish-settles o s =
      if_rule ResultOrViolation (passes (content_result_checks o.zod (assemble o s.ctx)))
        (λ e. inl (_, refl)) (λ e. inr (_, refl))

  module _ (P : PipelineState N W → Type 0) where
    abbrev Holds : Settled (Unit {0}) × PipelineState N W → Type 0
    Holds given = (given.0 ≡ resolved tt) × P given.1

    bind-Holds :
        (given : Settled (Unit {0}) × PipelineState N W) (f : Unit {0} → M N W (Unit {0}))
        → Holds given
        → ((a : Unit {0}) (t : PipelineState N W) → P t → Holds (f a t))
        → Holds (bind given f)
    bind-Holds (resolved a, s) f (e, p) next = next a s p
    bind-Holds (rejected e, s) f (h, p) next = cc

    handle-Holds :
        (given : Settled (Unit {0}) × PipelineState N W) (f : Thrown → M N W (Unit {0}))
        → P given.1
        → ((e : Thrown) (t : PipelineState N W) → P t → Holds (f e t))
        → Holds (handle given f)
    handle-Holds (resolved a, s) f p caught = (refl, p)
    handle-Holds (rejected e, s) f p caught = caught e s p

    module _ (o : Orchestrator N W) (up : IsUp o P) where
      with_timeout-keeps :
          (role : AgentRole) (s : PipelineState N W) → P s → P (with_timeout o role s).1
      unfolding with_timeout
      with_timeout-keeps role s p = up.keeps role s p

      emit_event-Holds :
          (payload : EventData N) (s : PipelineState N W)
          → P s
          → passes (sse_event_checks o.zod (record { payload = payload; job_id = s.ctx.job_id }))
            ≡ true
          → Holds (emit_event o payload s)
      unfolding emit_event
      emit_event-Holds payload s p valid = (up.emits _ _ s.world valid, up.told _ _ s p)

      -- An optional agent that fails, and fails again, never fails the run.
      run_with_retry-Holds :
          (role : AgentRole) (s : PipelineState N W) → P s → Holds (run_with_retry o role s)
      unfolding run_with_retry append_reason
      run_with_retry-Holds role s p =
          handle-Holds (with_timeout o role s) _ (with_timeout-keeps role s p) λ first t q.
            handle-Holds (with_timeout o role _) _ (with_timeout-keeps role _ (up.degraded _ t q))
              λ retry u r. (refl, up.degraded _ u r)

      run_role-Holds : (role : AgentRole) (s : PipelineState N W) → P s → Holds (run_role o role s)
      unfolding run_role
      run_role-Holds role s p =
          if_rule (λ (m : M N W (Unit {0})). Holds (m s)) (is_optional role)
            (λ e. run_with_retry-Holds role s p)
            λ e. (up.required role s e p, with_timeout-keeps role s p)

      perform-Holds : (role : AgentRole) (s : PipelineState N W) → P s → Holds (perform o role s)
      unfolding perform announce_done
      perform-Holds role s p =
          bind-Holds (emit_event o (agent_start role) s) _
            (emit_event-Holds _ s p (start_passes o.zod up.zod role _ (up.named s p)))
            λ a t q.
              bind-Holds (run_role o role t) _ (run_role-Holds role t q)
                λ b u r. emit_event-Holds _ u r (done_passes o.zod up.zod role _ _ (up.named u r))

      visit-Holds :
          (start : ℕ) (role : AgentRole) (s : PipelineState N W)
          → P s
          → Holds (visit o start role s)
      unfolding visit append_reason
      visit-Holds start role s p =
          if_rule {A = Settled (Unit {0}) × PipelineState N W} Holds
            (is_optional role && should_skip_optional o s.ctx (o.now s.world - start))
            (λ e. (refl, up.degraded _ s p)) λ e. perform-Holds role s p

      loop-Holds :
          (start : ℕ) (roles : List AgentRole) (s : PipelineState N W)
          → P s
          → Holds (loop o start roles s)
      unfolding loop
      loop-Holds start [] s p = (refl, p)
      loop-Holds start (role ∷ roles) s p =
          if_rule {A = Settled (Unit {0}) × PipelineState N W} Holds s.ctx.is_cancelled
            (λ e. (refl, p))
            λ e.
              bind-Holds (visit o start role s) _ (visit-Holds start role s p)
                λ a t q. loop-Holds start roles t q

      -- A run starts in a state in which a condition holds. If, as long as the condition holds, the
      -- job has an id and each required agent succeeds before its timer, if the agents, the events
      -- and new reasons keep it, and if the event channel takes the events that meet its contract,
      -- then the run ends in a result or in the violation of the result contract, whether the
      -- optional agents succeed or not.
      pub run-settles : (s : PipelineState N W) → P s → ResultOrViolation (run o s).0
      unfolding run
      run-settles s p =
          last (loop o (o.now s.world) pipeline s) (loop-Holds (o.now s.world) pipeline s p)
        where
          last :
              (given : Settled (Unit {0}) × PipelineState N W)
              → Holds given
              → ResultOrViolation (bind given (λ _. finish o)).0
          last (resolved a, t) h = finish-settles o t
          last (rejected e, t) (h, q) = cc
