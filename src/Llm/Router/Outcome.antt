-- ===== src/Llm/Router/Outcome.antt =====
-- What `complete` answers with: a response of a provider of the chain, or the exhausted chain.
use mathlib.Core.List.{append_assoc, append-nil}
use ai_content_platform.Prelude.{
  ℕ, zero, suc, ◌+◌, String, ◌≡◌, refl, sym, ap, Bool, true, false, not, ◌||◌, Option, none, some,
  List, [], ◌∷◌, ◌++◌, arith, lookup, str_mem, subst, eq_refl, Bool-cases, inl, inr, nat_eq,
}
use ai_content_platform.Exceptions.{Thrown, llm_provider_exhausted, Settled, resolved, rejected}
use ai_content_platform.Llm.Provider.{LlmCompletionRequest, LlmCompletionResponse, IllmProvider}
use ai_content_platform.Llm.Router.{
  Router, RouterState, RouterOptions, build_chain, test_circuit, is_retryable_error, after_attempt,
  attempts, merged, notify, conclude, gate, visit, complete_from, complete,
}

module _ {N J W : Type 0} (r : Router N J W) where
  -- The names of the list that have a provider.
  unfoldable pub registered : List String → List String
  registered [] = []
  registered (k ∷ ks) = elim (lookup k r.provider_map) [
    | none ↦ registered ks
    | some p ↦ k ∷ registered ks
  ]

  abbrev Response : Type 0
  Response = LlmCompletionResponse J

  -- A response that an attempt returns is the provider's, on the request that it was given.
  after_attempt-result :
      (p : IllmProvider N J (RouterState W)) (key : String) (request : LlmCompletionRequest N J)
      (again : RouterState W → Option Response × RouterState W) (attempt : ℕ) (s : RouterState W)
      (given : Settled Response × RouterState W) (result : Response)
      → p.complete request s ≡ given
      → ((t : RouterState W)
          → (again t).0 ≡ some result
          → (u : RouterState W) × ((p.complete request u).0 ≡ resolved result))
      → (after_attempt r again attempt key given).0 ≡ some result
      → (u : RouterState W) × ((p.complete request u).0 ≡ resolved result)
  unfolding after_attempt
  after_attempt-result p key request again attempt s (resolved x, t) result e later h =
      (s, rw e (ground arith))
  after_attempt-result p key request again attempt s (rejected x, t) result e later h =
      elim (Bool-cases (not (is_retryable_error x) || nat_eq attempt r.max_retries)) [
        | inl stop ↦ ground arith
        | inr more ↦ later _ (rw more at h)
      ]

  attempts-result :
      (p : IllmProvider N J (RouterState W)) (key : String) (request : LlmCompletionRequest N J)
      (rounds attempt : ℕ) (s : RouterState W) (result : Response)
      → (attempts r p key request rounds attempt s).0 ≡ some result
      → (u : RouterState W) × ((p.complete request u).0 ≡ resolved result)
  unfolding attempts
  attempts-result p key request zero attempt s result h = ground arith
  attempts-result p key request (suc rounds) attempt s result h =
      after_attempt-result p key request (attempts r p key request rounds (attempt + 1)) attempt s
        (p.complete request s) result refl
        (λ t. attempts-result p key request rounds (attempt + 1) t result) h

  module _ (options : RouterOptions N W) (request : LlmCompletionRequest N J) where
    -- To show `P` of every answer of one round: of the rest of the chain when the name has no
    -- provider, of the rest with the name tried, and of a response of the provider's.
    visit_rule {ℓ} :
        (P : Settled Response → Type ℓ) (o : Option (IllmProvider N J (RouterState W)))
        (rest : List String → RouterState W → Settled Response × RouterState W) (idx : ℕ)
        (key : String) (tried : List String) (s : RouterState W)
        → (o ≡ none → P (rest tried s).0)
        → ((p : IllmProvider N J (RouterState W))
            → o ≡ some p
            → (t : RouterState W) → P (rest (tried ++ key ∷ []) t).0)
        → ((p : IllmProvider N J (RouterState W))
            → o ≡ some p
            → (u : RouterState W) (result : Response)
            → (p.complete (merged r options request) u).0 ≡ resolved result
            → P (resolved result))
        → P (visit r options request o rest idx key tried s).0
    unfolding visit gate conclude
    visit_rule P none rest idx key tried s absent retry answer = absent refl
    visit_rule P (some p) rest idx key tried s absent retry answer =
        gated (test_circuit r.now key s)
      where
        concluded :
            (given : Option Response × RouterState W) (u : RouterState W)
            → attempts r p key (merged r options request) r.max_retries 1 u ≡ given
            → P (conclude r options request rest key tried given).0
        concluded (some result, t) u e =
            let (v, from) =
              attempts-result p key (merged r options request) r.max_retries 1 u result
                (ap (λ q. q.0) e) in
            answer p refl v result from
        concluded (none, t) u e = retry p refl t

        gated :
            (given : Bool × RouterState W) → P (gate r options request p rest idx key tried given).0
        gated (true, t) = retry p refl t
        gated (false, t) = concluded _ (notify r options idx key t) refl

    abbrev Exhausts : List String → Settled Response → Type 0
    Exhausts tried (resolved x) = Unit
    Exhausts tried (rejected e) = e ≡ llm_provider_exhausted tried

    complete_from-Exhausts :
        (keys : List String) (idx : ℕ) (tried : List String) (s : RouterState W)
        → Exhausts (tried ++ registered keys) (complete_from r options request keys idx tried s).0
    unfolding complete_from registered
    complete_from-Exhausts [] idx tried s = ap llm_provider_exhausted (sym (append-nil tried))
    complete_from-Exhausts (key ∷ keys) idx tried s =
        visit_rule (Exhausts (tried ++ registered (key ∷ keys))) (lookup key r.provider_map)
          (complete_from r options request keys (idx + 1)) idx key tried s
          (λ e. rw (e, registered) (complete_from-Exhausts keys (idx + 1) tried s))
          (λ p e t.
            rw (e, registered)
              (rw (← append_assoc tried (key ∷ []) (registered keys))
                (complete_from-Exhausts keys (idx + 1) (tried ++ key ∷ []) t)))
          (λ p e u result h. tt)

    -- Where a response comes from.
    abbrev pub Answered : List String → Settled Response → Type 0
    Answered keys (resolved result) =
        (key : String) × (p : IllmProvider N J (RouterState W)) × (u : RouterState W) × (str_mem key
            keys
          ≡ true)
        × (lookup key r.provider_map ≡ some p)
        × ((p.complete (merged r options request) u).0 ≡ resolved result)
    Answered keys (rejected e) = Unit

    Answered-cons :
        (key : String) (keys : List String) (o : Settled Response)
        → Answered keys o
        → Answered (key ∷ keys) o
    Answered-cons key keys (resolved x) (k, p, u, m, l, c) = (k, p, u, rw m (ground arith), l, c)
    Answered-cons key keys (rejected e) h = tt

    complete_from-Answered :
        (keys : List String) (idx : ℕ) (tried : List String) (s : RouterState W)
        → Answered keys (complete_from r options request keys idx tried s).0
    unfolding complete_from
    complete_from-Answered [] idx tried s = tt
    complete_from-Answered (key ∷ keys) idx tried s =
        visit_rule (Answered (key ∷ keys)) (lookup key r.provider_map)
          (complete_from r options request keys (idx + 1)) idx key tried s
          (λ e. Answered-cons key keys _ (complete_from-Answered keys (idx + 1) tried s))
          (λ p e t.
            Answered-cons key keys _ (complete_from-Answered keys (idx + 1) (tried ++ key ∷ []) t))
          (λ p e u result h. (key, p, u, ground (arith, eq_refl key), e, h))

    -- A response that `complete` returns was given by a provider of the chain to the request with
    -- the caller's options merged in, in the state at that moment.
    pub complete-Answered :
        (s : RouterState W)
        → Answered (build_chain r options.preferred_provider) (complete r options request s).0
    unfolding complete
    complete-Answered s = complete_from-Answered (build_chain r options.preferred_provider) 0 [] s

    -- When `complete` throws, it throws the exhausted chain, and names as tried exactly the
    -- providers of the chain that are registered, in the order of the chain.
    pub complete-exhausted :
        (s : RouterState W) (e : Thrown)
        → (complete r options request s).0 ≡ rejected e
        → e ≡ llm_provider_exhausted (registered (build_chain r options.preferred_provider))
    unfolding complete
    complete-exhausted s e h =
        subst (Exhausts (registered (build_chain r options.preferred_provider))) h
          (complete_from-Exhausts (build_chain r options.preferred_provider) 0 [] s)
