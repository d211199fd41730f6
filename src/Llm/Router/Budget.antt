-- ===== src/Llm/Router/Budget.antt =====
-- How often `complete` calls the providers.
use ai_content_platform.Prelude.{
  ℕ, zero, suc, ◌+◌, ◌*◌, ◌≤◌, String, ◌≡◌, ap, ◌∙◌, Option-cases, Bool, true, false, not, ◌||◌,
  Option, none, some, List, [], ◌∷◌, ◌++◌, arith, lookup, Bool-cases, inl, inr, nat_eq, length, ltb,
}
use ai_content_platform.Exceptions.{Settled, resolved, rejected}
use ai_content_platform.Llm.Breaker.{ProviderCircuitBreaker, record_success, record_failure}
use ai_content_platform.Llm.Provider.{LlmCompletionRequest, LlmCompletionResponse, IllmProvider}
use ai_content_platform.Llm.Router.{
  Router, RouterState, RouterOptions, build_chain, update_breaker, test_circuit, is_retryable_error,
  fail, after_attempt, attempts, merged, notify, conclude, gate, visit, complete_from, complete,
}
use ai_content_platform.Llm.Router.Outcome.{registered}

update_breaker-world :
    {W : Type 0} (key : String) (f : ProviderCircuitBreaker → ProviderCircuitBreaker)
    (s : RouterState W)
    → (update_breaker key f s).world ≡ s.world
unfolding update_breaker
update_breaker-world key f s = ground arith

test_circuit-world :
    {W : Type 0} (now : W → ℕ) (key : String) (s : RouterState W)
    → (test_circuit now key s).1.world ≡ s.world
unfolding test_circuit
test_circuit-world now key s = ground arith

-- A count of provider calls that the world keeps: a call adds one, and neither a pause nor the
-- caller's fallback notice adds any.
pub record Counts {N J W : Type 0} (r : Router N J W) (options : RouterOptions N W) (count : W → ℕ)
    : Type 0 where
  pub calls :
      (key : String) (p : IllmProvider N J (RouterState W)) (request : LlmCompletionRequest N J)
      (s : RouterState W)
      → lookup key r.provider_map ≡ some p
      → count (p.complete request s).1.world ≡ count s.world + 1
  pub waits : (ms : ℕ) (s : RouterState W) → count (r.wait ms s).world ≡ count s.world
  pub notices :
      (key : String) (s : RouterState W) → count (options.on_fallback key s).world ≡ count s.world

module _ {N J W : Type 0} (r : Router N J W) (options : RouterOptions N W) (count : W → ℕ)
    (c : Counts r options count) where
  abbrev Response : Type 0
  Response = LlmCompletionResponse J

  module _ (key : String) (p : IllmProvider N J (RouterState W))
      (known : lookup key r.provider_map ≡ some p) (request : LlmCompletionRequest N J) where
    after_attempt-count :
        (again : RouterState W → Option Response × RouterState W) (rounds attempt : ℕ)
        (given : Settled Response × RouterState W)
        → ((t : RouterState W) → count (again t).1.world ≤ count t.world + rounds)
        → count (after_attempt r again attempt key given).1.world ≤ count given.1.world + rounds
    unfolding after_attempt fail
    after_attempt-count again rounds attempt (resolved x, s) h =
        rw (update_breaker-world key record_success s) (omega arith)
    after_attempt-count again rounds attempt (rejected e, s) h =
        let failed = update_breaker-world key (record_failure (r.now s.world)) s in
        elim (Bool-cases (not (is_retryable_error e) || nat_eq attempt r.max_retries)) [
          | inl stop ↦ rw (stop, failed) (omega arith)
          | inr more ↦
              let paused = r.wait (r.retry_delay_ms * attempt) (fail r key s) in
              let same : count paused.world ≡ count s.world =
                c.waits (r.retry_delay_ms * attempt) (fail r key s) ∙ ap count failed in
              rw more (omega (arith, h paused, same))
        ]

    attempts-count :
        (rounds attempt : ℕ) (s : RouterState W)
        → count (attempts r p key request rounds attempt s).1.world ≤ count s.world + rounds
    unfolding attempts
    attempts-count zero attempt s = omega arith
    attempts-count (suc rounds) attempt s = omega (
      arith,
      c.calls key p request s known,
      after_attempt-count (attempts r p key request rounds (attempt + 1)) rounds attempt
          (p.complete request s) (attempts-count rounds (attempt + 1)),
    )

  notify-count :
      (idx : ℕ) (key : String) (s : RouterState W)
      → count (notify r options idx key s).world ≡ count s.world
  unfolding notify
  notify-count idx key s = elim (Bool-cases (ltb 0 idx)) [
    | inl h ↦ rw h (c.notices key s)
    | inr h ↦ rw h
  ]

  module _ (request : LlmCompletionRequest N J) where
    -- One round of the chain costs at most the attempts of its provider, if it has one.
    visit-count :
        (o : Option (IllmProvider N J (RouterState W)))
        (rest : List String → RouterState W → Settled Response × RouterState W) (k idx : ℕ)
        (key : String) (tried : List String) (s : RouterState W)
        → lookup key r.provider_map ≡ o
        → ((l : List String) (t : RouterState W) → count (rest l t).1.world ≤ count t.world + k)
        → count (visit r options request o rest idx key tried s).1.world
          ≤ count s.world + (elim o [ none ↦ 0 | some p ↦ r.max_retries ]) + k
    unfolding visit gate conclude
    visit-count none rest k idx key tried s e h = omega (arith, h tried s)
    visit-count (some p) rest k idx key tried s e h =
        gated (test_circuit r.now key s) (ap count (test_circuit-world r.now key s))
      where
        concluded :
            (given : Option Response × RouterState W) (n : ℕ)
            → count given.1.world ≤ n
            → count (conclude r options request rest key tried given).1.world ≤ n + k
        concluded (some x, t) n le = omega arith
        concluded (none, t) n le = omega (arith, h (tried ++ key ∷ []) t)

        gated :
            (given : Bool × RouterState W)
            → count given.1.world ≡ count s.world
            → count (gate r options request p rest idx key tried given).1.world
              ≤ count s.world + r.max_retries + k
        gated (true, t) same = omega (arith, h (tried ++ key ∷ []) t)
        gated (false, t) same =
            concluded
              (attempts r p key (merged r options request) r.max_retries 1
                (notify r options idx key t))
              (count s.world + r.max_retries)
              (omega (
                arith,
                notify-count idx key t,
                attempts-count key p e (merged r options request) r.max_retries 1
                    (notify r options idx key t),
              ))

    complete_from-count :
        (keys : List String) (idx : ℕ) (tried : List String) (s : RouterState W)
        → count (complete_from r options request keys idx tried s).1.world
          ≤ count s.world + r.max_retries * length (registered r keys)
    unfolding complete_from registered
    complete_from-count [] idx tried s = omega arith
    complete_from-count (key ∷ keys) idx tried s = elim (Option-cases (lookup key r.provider_map)) [
      | inl e ↦
          rw (e, registered)
            (omega (
              arith,
              visit-count none (complete_from r options request keys (idx + 1))
                  (r.max_retries * length (registered r keys)) idx key tried s e
                  (λ l t. complete_from-count keys (idx + 1) l t),
            ))
      | inr (p, e) ↦
          rw (e, registered)
            (omega (
              arith,
              visit-count (some p) (complete_from r options request keys (idx + 1))
                  (r.max_retries * length (registered r keys)) idx key tried s e
                  (λ l t. complete_from-count keys (idx + 1) l t),
            ))
    ]

    -- If a call of a provider counts one and nothing else counts, then whatever the providers
    -- answer, `complete` makes at most `maxRetries` calls for each registered provider of the
    -- chain.
    pub complete-count :
        (s : RouterState W)
        → count (complete r options request s).1.world
          ≤ count s.world
            + r.max_retries * length (registered r (build_chain r options.preferred_provider))
    unfolding complete
    complete-count s = complete_from-count (build_chain r options.preferred_provider) 0 [] s
