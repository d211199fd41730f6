-- ===== src/Llm/Router/Breakers.antt =====
-- The breakers under the router: an open circuit is passed over, and every breaker stays
-- consistent.
use mathlib.Core.List.{append_assoc, append-nil}
use ai_content_platform.Prelude.{
  ℕ, ◌+◌, ◌<◌, String, ◌≡◌, ◌∙◌, true, some, List, [], ◌∷◌, subst, ◌++◌, arith, lookup, insert,
  eq_iff, Bool-cases, Option-cases, inl, inr, All, ◌==◌,
}
use ai_content_platform.Exceptions.{llm_provider_exhausted, rejected}
use ai_content_platform.Llm.Breaker.{ProviderCircuitBreaker, record_success, record_failure}
use ai_content_platform.Llm.Breaker.Laws.{
  Blocks, is_open-blocked, IsConsistent, step, step-IsConsistent, test, success, failure,
}
use ai_content_platform.Llm.Provider.{LlmCompletionRequest, IllmProvider}
use ai_content_platform.Llm.Router.{
  Router, RouterState, RouterOptions, build_chain, update_breaker, test_circuit, fail, gate, visit,
  complete_from, complete,
}
use ai_content_platform.Llm.Router.Invariants.{IsKept, complete-Keeps}
use ai_content_platform.Llm.Router.Outcome.{registered}

insert_same :
    (k : String) (b : ProviderCircuitBreaker) (m : List (String × ProviderCircuitBreaker))
    → lookup k m ≡ some b
    → insert k b m ≡ m
unfolding lookup insert
insert_same k b [] h = cc
insert_same k b ((j, c) ∷ m) h = ground (arith, eq_iff j k, insert_same k b m)

module _ {N J W : Type 0} (r : Router N J W) (options : RouterOptions N W)
    (request : LlmCompletionRequest N J) where
  -- Each of the names that has a provider has a breaker that blocks at this moment.
  abbrev pub AllBlocked : RouterState W → List String → Type 0
  AllBlocked s [] = Unit
  AllBlocked s (k ∷ ks) =
      ((p : IllmProvider N J (RouterState W))
        → lookup k r.provider_map ≡ some p
        → (b : ProviderCircuitBreaker) × (lookup k s.breakers ≡ some b) × Blocks b (r.now s.world))
      × AllBlocked s ks

  test_circuit-blocked :
      (k : String) (s : RouterState W) (b : ProviderCircuitBreaker)
      → lookup k s.breakers ≡ some b
      → Blocks b (r.now s.world)
      → test_circuit r.now k s ≡ (true, s)
  unfolding test_circuit
  test_circuit-blocked k s b l h =
      rw (l, test_circuit) (rw (is_open-blocked b (r.now s.world) h, insert_same k b s.breakers l))

  complete_from-blocked :
      (keys : List String) (idx : ℕ) (tried : List String) (s : RouterState W)
      → AllBlocked s keys
      → complete_from r options request keys idx tried s
        ≡ (rejected (llm_provider_exhausted (tried ++ registered r keys)), s)
  unfolding complete_from registered visit gate
  complete_from-blocked [] idx tried s h = rw append-nil
  complete_from-blocked (key ∷ keys) idx tried s (here, later) =
      elim (Option-cases (lookup key r.provider_map)) [
        | inl e ↦ rw (e, registered) (complete_from-blocked keys (idx + 1) tried s later)
        | inr (p, e) ↦
            let (b, l, k) = here p e in
            rw (e, registered, test_circuit-blocked key s b l k)
              (complete_from-blocked keys (idx + 1) (tried ++ key ∷ []) s later
                ∙ rw (append_assoc tried (key ∷ []) (registered r keys)))
      ]

  -- While the circuit of every registered provider of the chain is open and cooling down,
  -- `complete` throws at once: it calls no provider, notifies nobody, does not wait and changes no
  -- breaker.
  pub complete-blocked :
      (s : RouterState W)
      → AllBlocked s (build_chain r options.preferred_provider)
      → complete r options request s ≡ (
        rejected (llm_provider_exhausted (registered r (build_chain r options.preferred_provider))),
        s,
      )
  unfolding complete
  complete-blocked s h = complete_from-blocked (build_chain r options.preferred_provider) 0 [] s h

abbrev pub Valid : {W : Type 0} → RouterState W → Type 0
Valid s = All (λ e. IsConsistent e.1 × (0 < e.1.failure_threshold)) s.breakers

lookup-Valid :
    (k : String) (b : ProviderCircuitBreaker) (m : List (String × ProviderCircuitBreaker))
    → All (λ e. IsConsistent e.1 × (0 < e.1.failure_threshold)) m
    → lookup k m ≡ some b
    → IsConsistent b × (0 < b.failure_threshold)
unfolding lookup
lookup-Valid k b [] v h = cc
lookup-Valid k b ((j, c) ∷ m) (w, v) h = elim (Bool-cases (j == k)) [
  | inl e ↦ subst (λ d. IsConsistent d × (0 < d.failure_threshold)) (ground arith) w
  | inr e ↦ lookup-Valid k b m v (rw e at h)
]

insert-Valid :
    (k : String) (b : ProviderCircuitBreaker) (m : List (String × ProviderCircuitBreaker))
    → IsConsistent b × (0 < b.failure_threshold)
    → All (λ e. IsConsistent e.1 × (0 < e.1.failure_threshold)) m
    → All (λ e. IsConsistent e.1 × (0 < e.1.failure_threshold)) (insert k b m)
unfolding insert
insert-Valid k b [] h v = (h, tt)
insert-Valid k b ((j, c) ∷ m) h (w, v) = elim (Bool-cases (j == k)) [
  | inl e ↦ rw e (h, v)
  | inr e ↦ rw e (w, insert-Valid k b m h v)
]

-- What runs while a request waits (other requests on the same breakers) and the caller's notice
-- keep the breakers consistent.
pub record IsFriendly {N J W : Type 0} (r : Router N J W) (options : RouterOptions N W)
    : Type 0 where
  pub calls :
      (key : String) (p : IllmProvider N J (RouterState W)) (request : LlmCompletionRequest N J)
      (s : RouterState W)
      → lookup key r.provider_map ≡ some p
      → Valid s
      → Valid (p.complete request s).1
  pub waits : (ms : ℕ) (s : RouterState W) → Valid s → Valid (r.wait ms s)
  pub notices : (key : String) (s : RouterState W) → Valid s → Valid (options.on_fallback key s)

module _ {W : Type 0} (key : String) (s : RouterState W) where
  update_breaker-Valid :
      (f : ProviderCircuitBreaker → ProviderCircuitBreaker)
      → ((b : ProviderCircuitBreaker)
          → IsConsistent b × (0 < b.failure_threshold)
          → IsConsistent (f b) × (0 < (f b).failure_threshold))
      → Valid s
      → Valid (update_breaker key f s)
  unfolding update_breaker
  update_breaker-Valid f keep v = elim (Option-cases (lookup key s.breakers)) [
    | inl e ↦ rw (e, update_breaker) v
    | inr (b, e) ↦
        rw (e, update_breaker)
          (insert-Valid key (f b) s.breakers (keep b (lookup-Valid key b s.breakers v e)) v)
  ]

  test_circuit-Valid : (now : W → ℕ) → Valid s → Valid (test_circuit now key s).1
  unfolding test_circuit
  test_circuit-Valid now v = elim (Option-cases (lookup key s.breakers)) [
    | inl e ↦ rw (e, test_circuit) v
    | inr (b, e) ↦
        let (c, pos) = lookup-Valid key b s.breakers v e in
        let (kept, still, _) = step-IsConsistent b (now s.world, test) pos c in
        rw (e, test_circuit) (insert-Valid key _ s.breakers (unfold step in (kept, still)) v)
  ]

module _ {N J W : Type 0} (r : Router N J W) (options : RouterOptions N W)
    (f : IsFriendly r options) where
  fail-Valid : (key : String) (s : RouterState W) → Valid s → Valid (fail r key s)
  unfolding fail step
  fail-Valid key s v =
      update_breaker-Valid key s (record_failure (r.now s.world))
        (λ b c.
          let (kept, still, _) = step-IsConsistent b (r.now s.world, failure) c.1 c.0 in
          (kept, still))
        v

  succeed-Valid :
      (key : String) (s : RouterState W) → Valid s → Valid (update_breaker key record_success s)
  unfolding step
  succeed-Valid key s v =
      update_breaker-Valid key s record_success
        (λ b c. let (kept, still, _) = step-IsConsistent b (0, success) c.1 c.0 in (kept, still)) v

  Valid-IsKept : IsKept Valid r options
  Valid-IsKept = record {
    calls = f.calls;
    waits = f.waits;
    notices = f.notices;
    succeeds = succeed-Valid;
    fails = fail-Valid;
    tests = λ key s v. test_circuit-Valid key s r.now v;
  }

  -- A request keeps every breaker consistent (closed exactly below its threshold of failures), if
  -- the providers, the waiting and the notification do.
  pub complete-Valid :
      (request : LlmCompletionRequest N J) (s : RouterState W)
      → Valid s
      → Valid (complete r options request s).1
  complete-Valid request s v = complete-Keeps Valid r options Valid-IsKept request s v
