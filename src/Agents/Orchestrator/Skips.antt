-- ===== src/Agents/Orchestrator/Skips.antt =====
-- Which agents a run starts, and how often.
use mathlib.Core.List.{append_assoc, append-nil}
use ai_content_platform.Prelude.{
  ℕ, ◌-◌, String, ◌≡◌, sym, ◌∙◌, ap, true, false, ◌&&◌, List, [], ◌∷◌, ◌++◌, arith, if_rule, All,
  All-append,
}
use ai_content_platform.Domain.{AgentRole}
use ai_content_platform.Exceptions.{Settled}
use ai_content_platform.Resilience.{
  DegradationReason, DegradedExecutionContext, is_degraded, optional_agent_skipped,
}
use ai_content_platform.Resilience.Laws.{Extends, append-Extends}
use ai_content_platform.Streaming.Events.{EventData, SseEvent, agent_start}
use ai_content_platform.Agents.Context.{degrade}
use ai_content_platform.Agents.Orchestrator.{
  PipelineState, Orchestrator, append_reason, with_timeout, emit_event, run_role, announce_done,
  perform, should_skip_optional, visit, loop, finish, run, is_optional, pipeline,
}
use ai_content_platform.Agents.Orchestrator.Invariants.{Keeps, bind-Keeps, OnlyRecords}

-- A log of the started agents that the world keeps, and that the event channel leaves alone.
pub record Logs {N W : Type 0} (o : Orchestrator N W) (ran : W → List AgentRole) : Type 0 where
  pub agents :
      (role : AgentRole) (s : PipelineState N W)
      → ran (o.run_agent role s).after.world ≡ ran s.world ++ role ∷ []
  pub emits : (id : String) (event : SseEvent N) (w : W) → ran (o.emit id event w).1 ≡ ran w

is_degraded-Extends :
    (d e : DegradedExecutionContext)
    → Extends d.reasons e.reasons
    → is_degraded d ≡ true
    → is_degraded e ≡ true
unfolding is_degraded
is_degraded-Extends d e (more, k) h = ground arith

module _ {N W : Type 0} (o : Orchestrator N W) (ran : W → List AgentRole)
    (old : List AgentRole) where
  -- The run is degraded, and of the agents that were started since `old` none is optional.
  pub record OnlyRequired (s : PipelineState N W) : Type 0 where
    pub degraded : is_degraded s.ctx.degradation ≡ true
    pub since : List AgentRole
    pub logged : ran s.world ≡ old ++ since
    pub required : All (λ role. is_optional role ≡ false) since

  module _ (l : Logs o ran) (r : OnlyRecords o) where
    append_reason-OnlyRequired :
        (reason : DegradationReason) → Keeps OnlyRequired (append_reason reason)
    unfolding append_reason degrade
    append_reason-OnlyRequired reason s q = record {
      degraded =
          is_degraded-Extends s.ctx.degradation _ (append-Extends reason s.ctx.degradation)
            q.degraded;
      since = q.since;
      logged = q.logged;
      required = q.required;
    }

    emit_event-OnlyRequired : (payload : EventData N) → Keeps OnlyRequired (emit_event o payload)
    unfolding emit_event
    emit_event-OnlyRequired payload s q = record {
      degraded = q.degraded;
      since = q.since;
      logged = l.emits s.ctx.job_id _ s.world ∙ q.logged;
      required = q.required;
    }

    with_timeout-OnlyRequired :
        (role : AgentRole) → is_optional role ≡ false → Keeps OnlyRequired (with_timeout o role)
    unfolding with_timeout
    with_timeout-OnlyRequired role h s q = record {
      degraded = is_degraded-Extends s.ctx.degradation _ (r.extends role s) q.degraded;
      since = q.since ++ role ∷ [];
      logged =
          l.agents role s
          ∙ ap (λ x. x ++ role ∷ []) q.logged
          ∙ append_assoc old q.since (role ∷ []);
      required = All-append _ q.since (role ∷ []) q.required (h, tt);
    }

    perform-OnlyRequired :
        (role : AgentRole) → is_optional role ≡ false → Keeps OnlyRequired (perform o role)
    unfolding perform run_role announce_done
    perform-OnlyRequired role h s q =
        bind-Keeps OnlyRequired (emit_event o (agent_start role) s) _
          (emit_event-OnlyRequired _ s q)
          λ _ t p.
            bind-Keeps OnlyRequired (run_role o role t) _
              (rw (h, run_role) (with_timeout-OnlyRequired role h t p))
              λ _ u w. emit_event-OnlyRequired _ u w

    visit-OnlyRequired : (start : ℕ) (role : AgentRole) → Keeps OnlyRequired (visit o start role)
    unfolding visit should_skip_optional
    visit-OnlyRequired start role s q =
        if_rule {A = Settled (Unit {0}) × PipelineState N W} (λ given. OnlyRequired given.1)
          (is_optional role && should_skip_optional o s.ctx (o.now s.world - start))
          (λ e. append_reason-OnlyRequired optional_agent_skipped s q)
          (λ e. perform-OnlyRequired role (ground (arith, q.degraded)) s q)

    loop-OnlyRequired :
        (start : ℕ) (roles : List AgentRole) → Keeps OnlyRequired (loop o start roles)
    unfolding loop
    loop-OnlyRequired start [] s q = q
    loop-OnlyRequired start (role ∷ roles) s q =
        if_rule {A = Settled (Unit {0}) × PipelineState N W} (λ given. OnlyRequired given.1)
          s.ctx.is_cancelled (λ e. q)
          λ e.
            bind-Keeps OnlyRequired (visit o start role s) _ (visit-OnlyRequired start role s q)
              λ _ t p. loop-OnlyRequired start roles t p

module _ {N W : Type 0} (o : Orchestrator N W) (ran : W → List AgentRole)
    (s : PipelineState N W) where
  -- If the world logs the started agents, and the agents only record reasons, then a run that is
  -- degraded from the start (by an overloaded queue) never starts an optional agent, and is
  -- degraded to its end.
  pub run-OnlyRequired :
      Logs o ran
      → OnlyRecords o
      → is_degraded s.ctx.degradation ≡ true
      → OnlyRequired o ran (ran s.world) (run o s).1
  unfolding run finish
  run-OnlyRequired l r h =
      bind-Keeps (OnlyRequired o ran (ran s.world)) (loop o (o.now s.world) pipeline s) _
        (loop-OnlyRequired o ran (ran s.world) l r (o.now s.world) pipeline s (record {
          degraded = h;
          since = [];
          logged = sym (append-nil (ran s.world));
          required = tt;
        }))
        λ _ t q. q
