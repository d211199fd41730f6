-- ===== src/Llm/Router.antt =====
-- src/llm/llm-router.service.ts. A provider's call acts on the router's whole state, so that what
-- other requests do to the breakers while it waits is part of its effect.
pub mod Chain
pub mod Outcome
pub mod Budget
pub mod Breakers
mod Tests
pub mod Invariants
pub mod Stream
use ai_content_platform.Prelude.{
  ℕ, zero, suc, ◌+◌, ◌*◌, String, Bool, true, false, not, ◌||◌, Option, none, some, List, [], ◌∷◌,
  ◌++◌, keep, ltb, nat_eq, ◌==◌, if◌then◌else◌, lookup, insert, codes, lower, includes,
}
use ai_content_platform.Exceptions.{
  Thrown, error, other, llm_provider_exhausted, message, Settled, resolved, rejected, ◌+s◌,
}
use ai_content_platform.Llm.Breaker.{
  CircuitState, closed, ProviderCircuitBreaker, new_breaker, is_open, record_success,
  record_failure,
}
use ai_content_platform.Llm.Provider.{
  LlmCompletionRequest, LlmCompletionResponse, LlmStreamChunk, IllmProvider, json,
}

pub record RouterState (W : Type 0) : Type 0 where
  pub breakers : List (String × ProviderCircuitBreaker)
  pub world : W

-- The service with its configuration; `now` is `Date.now()`, `wait` is `delay`.
pub record Router (N J W : Type 0) : Type 0 where
  pub provider_map : List (String × IllmProvider N J (RouterState W))
  pub fallback_chain : List String
  pub max_retries : ℕ
  pub retry_delay_ms : ℕ
  pub embedding_provider : String
  pub now : W → ℕ
  pub wait : ℕ → RouterState W → RouterState W

pub record RouterOptions (N W : Type 0) : Type 0 where
  pub preferred_provider : Option String
  pub model : Option String
  pub temperature : Option N
  pub max_tokens : Option ℕ
  pub on_fallback : String → RouterState W → RouterState W

-- `a ?? b`.
abbrev pub coalesce {ℓ} : {A : Type ℓ} → Option A → Option A → Option A
coalesce none b = b
coalesce (some a) b = some a

-- `new Map(providers.map(p => [p.provider, p]))`: a later provider replaces one of the same name.
unfoldable pub register :
    {N J S : Type 0}
    → List (IllmProvider N J S)
    → List (String × IllmProvider N J S)
    → List (String × IllmProvider N J S)
register [] m = m
register (p ∷ ps) m = register ps (insert p.provider p m)

-- A breaker for each key of the provider map.
unfoldable pub new_breakers :
    {V : Type 0} → ℕ → ℕ → List (String × V) → List (String × ProviderCircuitBreaker)
new_breakers threshold cooldown [] = []
new_breakers threshold cooldown ((k, p) ∷ m) =
    (k, new_breaker threshold cooldown) ∷ new_breakers threshold cooldown m

-- `filter(p => p !== preferred)`.
unfoldable pub without : String → List String → List String
without k [] = []
without k (j ∷ js) = let rest = without k js in if j == k then rest else j ∷ rest

-- `err.message.toLowerCase()` is searched. Lower-casing letters beyond ASCII makes none of the
-- words, so that the letters of ASCII are enough.
unfoldable pub has_retry_word : List ℕ → Bool
has_retry_word msg =
    includes (codes "429") msg
    || includes (codes "rate limit") msg
    || includes (codes "503") msg
    || includes (codes "timeout") msg
    || includes (codes "overloaded") msg

unfoldable pub is_retryable_error : Thrown → Bool
unfolding has_retry_word message
is_retryable_error other = false
is_retryable_error e = has_retry_word (lower (codes (message e)))

module _ {W : Type 0} where
  -- `cb?.…`: a key with no breaker is left alone.
  unfoldable pub update_breaker :
      String → (ProviderCircuitBreaker → ProviderCircuitBreaker) → RouterState W → RouterState W
  update_breaker key f s = elim (lookup key s.breakers) [
    | none ↦ s
    | some b ↦ record s { breakers = insert key (f b) s.breakers }
  ]

  -- `cb?.isOpen()`, which may move the breaker to half open.
  unfoldable pub test_circuit : (W → ℕ) → String → RouterState W → Bool × RouterState W
  test_circuit now key s = elim (lookup key s.breakers) [
    | none ↦ (false, s)
    | some b ↦ (
      (is_open (now s.world) b).0,
      record s { breakers = insert key (is_open (now s.world) b).1 s.breakers },
    )
  ]

  unfoldable pub get_circuit_state : String → RouterState W → CircuitState
  get_circuit_state key s = elim (lookup key s.breakers) [ none ↦ closed | some b ↦ b.state ]

module _ {N J W : Type 0} (r : Router N J W) where
  unfoldable pub build_chain : Option String → List String
  build_chain none = r.fallback_chain
  build_chain (some preferred) = preferred ∷ without preferred r.fallback_chain

  unfoldable pub fail : String → RouterState W → RouterState W
  fail key s = update_breaker key (record_failure (r.now s.world)) s

  -- What follows one attempt; `again` is the rest of the loop.
  unfoldable pub after_attempt :
      (RouterState W → Option (LlmCompletionResponse J) × RouterState W)
      → ℕ
      → String
      → Settled (LlmCompletionResponse J) × RouterState W
      → Option (LlmCompletionResponse J) × RouterState W
  after_attempt again attempt key (resolved result, s) =
      (some result, update_breaker key record_success s)
  after_attempt again attempt key (rejected err, s) =
      if not (is_retryable_error err) || nat_eq attempt r.max_retries
      then (none, fail key s)
      else again (r.wait (r.retry_delay_ms * attempt) (fail key s))

  -- The loop over `attempt`, with the rounds that are left.
  unfoldable pub attempts :
      IllmProvider N J (RouterState W)
      → String
      → LlmCompletionRequest N J
      → ℕ
      → ℕ
      → RouterState W
      → Option (LlmCompletionResponse J) × RouterState W
  attempts p key request zero attempt s = (none, s)
  attempts p key request (suc rounds) attempt s =
      after_attempt (attempts p key request rounds (attempt + 1)) attempt key (p.complete request s)

  module _ (options : RouterOptions N W) where
    -- The request as a provider gets it.
    unfoldable pub merged : LlmCompletionRequest N J → LlmCompletionRequest N J
    merged request = record request {
      model = coalesce options.model request.model;
      temperature = coalesce options.temperature request.temperature;
      max_tokens = coalesce options.max_tokens request.max_tokens;
    }

    unfoldable pub notify : ℕ → String → RouterState W → RouterState W
    notify chain_idx key s = if ltb 0 chain_idx then options.on_fallback key s else s

    module _ (request : LlmCompletionRequest N J) where
      abbrev Rest : Type 0
      Rest = List String → RouterState W → Settled (LlmCompletionResponse J) × RouterState W

      unfoldable pub conclude :
          Rest
          → String
          → List String
          → Option (LlmCompletionResponse J) × RouterState W
          → Settled (LlmCompletionResponse J) × RouterState W
      conclude rest key tried (some result, s) = (resolved result, s)
      conclude rest key tried (none, s) = rest (tried ++ key ∷ []) s

      unfoldable pub gate :
          IllmProvider N J (RouterState W)
          → Rest
          → ℕ
          → String
          → List String
          → Bool × RouterState W
          → Settled (LlmCompletionResponse J) × RouterState W
      gate p rest idx key tried (true, s) = rest (tried ++ key ∷ []) s
      gate p rest idx key tried (false, s) =
          conclude rest key tried
            (attempts p key (merged request) r.max_retries 1 (notify idx key s))

      unfoldable pub visit :
          Option (IllmProvider N J (RouterState W))
          → Rest
          → ℕ
          → String
          → List String
          → RouterState W
          → Settled (LlmCompletionResponse J) × RouterState W
      visit none rest idx key tried s = rest tried s
      visit (some p) rest idx key tried s = gate p rest idx key tried (test_circuit r.now key s)

      -- The loop over the chain.
      unfoldable pub complete_from :
          List String
          → ℕ
          → List String
          → RouterState W
          → Settled (LlmCompletionResponse J) × RouterState W
      complete_from [] idx tried s = (rejected (llm_provider_exhausted tried), s)
      complete_from (key ∷ keys) idx tried s =
          visit (lookup key r.provider_map) (complete_from keys (idx + 1)) idx key tried s

      unfoldable pub complete : RouterState W → Settled (LlmCompletionResponse J) × RouterState W
      complete s = complete_from (build_chain options.preferred_provider) 0 [] s
