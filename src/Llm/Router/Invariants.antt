-- ===== src/Llm/Router/Invariants.antt =====
-- What every request to the router keeps: a property of its state that the providers, the waiting,
-- the notification and the breakers keep, holds after a completion and after a stream.
use ai_content_platform.Prelude.{
  ℕ, zero, suc, ◌+◌, String, ◌≡◌, refl, Bool, true, false, not, ◌||◌, Option, none, some, List, [],
  ◌∷◌, ◌++◌, nat_eq, ltb, lookup, Bool-cases, inl, inr,
}
use ai_content_platform.Exceptions.{Thrown, Settled, resolved, rejected}
use ai_content_platform.Llm.Breaker.{record_success}
use ai_content_platform.Llm.Provider.{
  LlmCompletionRequest, LlmCompletionResponse, LlmStreamChunk, IllmProvider, json,
}
use ai_content_platform.Llm.Router.{
  Router, RouterState, RouterOptions, build_chain, update_breaker, test_circuit, is_retryable_error,
  fail, after_attempt, attempts, merged, notify, conclude, gate, visit, complete_from, complete,
}
use ai_content_platform.Llm.Router.Stream.{
  Streamed, streamed_request, after_stream, stream_gate, stream_visit, stream_from, stream,
  parse_response, complete_structured,
}

pub record IsKept {ℓ} {N J W : Type 0} (Q : RouterState W → Type ℓ) (r : Router N J W)
    (options : RouterOptions N W) : Type ℓ where
  pub calls :
      (key : String) (p : IllmProvider N J (RouterState W)) (request : LlmCompletionRequest N J)
      (s : RouterState W)
      → lookup key r.provider_map ≡ some p
      → Q s
      → Q (p.complete request s).1
  pub waits : (ms : ℕ) (s : RouterState W) → Q s → Q (r.wait ms s)
  pub notices : (key : String) (s : RouterState W) → Q s → Q (options.on_fallback key s)
  pub succeeds : (key : String) (s : RouterState W) → Q s → Q (update_breaker key record_success s)
  pub fails : (key : String) (s : RouterState W) → Q s → Q (fail r key s)
  pub tests : (key : String) (s : RouterState W) → Q s → Q (test_circuit r.now key s).1

abbrev pub StreamsKept {ℓ} : {N J W : Type 0} → (RouterState W → Type ℓ) → Router N J W → Type ℓ
StreamsKept {N} {J} {W} Q r =
    (key : String) (p : IllmProvider N J (RouterState W)) (request : LlmCompletionRequest N J)
    (s : RouterState W)
    → lookup key r.provider_map ≡ some p
    → Q s
    → Q (p.stream request s).1

module _ {ℓ} {N J W : Type 0} (Q : RouterState W → Type ℓ) (r : Router N J W)
    (options : RouterOptions N W) (f : IsKept Q r options) where
  notify-Keeps : (idx : ℕ) (key : String) (s : RouterState W) → Q s → Q (notify r options idx key s)
  unfolding notify
  notify-Keeps idx key s v = elim (Bool-cases (ltb 0 idx)) [
    | inl h ↦ rw h (f.notices key s v)
    | inr h ↦ rw h v
  ]

  module _ (key : String) (p : IllmProvider N J (RouterState W))
      (request : LlmCompletionRequest N J) (known : lookup key r.provider_map ≡ some p) where
    after_attempt-Keeps :
        (again : RouterState W → Option (LlmCompletionResponse J) × RouterState W) (attempt : ℕ)
        (given : Settled (LlmCompletionResponse J) × RouterState W)
        → ((t : RouterState W) → Q t → Q (again t).1)
        → Q given.1
        → Q (after_attempt r again attempt key given).1
    unfolding after_attempt
    after_attempt-Keeps again attempt (resolved x, s) h v = f.succeeds key s v
    after_attempt-Keeps again attempt (rejected e, s) h v =
        elim (Bool-cases (not (is_retryable_error e) || nat_eq attempt r.max_retries)) [
          | inl stop ↦ rw stop (f.fails key s v)
          | inr more ↦ rw more (h _ (f.waits _ _ (f.fails key s v)))
        ]

    attempts-Keeps :
        (rounds attempt : ℕ) (s : RouterState W)
        → Q s
        → Q (attempts r p key request rounds attempt s).1
    unfolding attempts
    attempts-Keeps zero attempt s v = v
    attempts-Keeps (suc rounds) attempt s v =
        after_attempt-Keeps (attempts r p key request rounds (attempt + 1)) attempt
          (p.complete request s) (λ t w. attempts-Keeps rounds (attempt + 1) t w)
          (f.calls key p request s known v)

  module _ (request : LlmCompletionRequest N J) where
    visit-Keeps :
        (o : Option (IllmProvider N J (RouterState W)))
        (rest : List String → RouterState W → Settled (LlmCompletionResponse J) × RouterState W)
        (idx : ℕ) (key : String) (tried : List String) (s : RouterState W)
        → lookup key r.provider_map ≡ o
        → ((l : List String) (t : RouterState W) → Q t → Q (rest l t).1)
        → Q s
        → Q (visit r options request o rest idx key tried s).1
    unfolding visit gate conclude
    visit-Keeps none rest idx key tried s e h v = h tried s v
    visit-Keeps (some p) rest idx key tried s e h v =
        gated (test_circuit r.now key s) (f.tests key s v)
      where
        concluded :
            (given : Option (LlmCompletionResponse J) × RouterState W)
            → Q given.1
            → Q (conclude r options request rest key tried given).1
        concluded (some x, t) w = w
        concluded (none, t) w = h (tried ++ key ∷ []) t w

        gated :
            (given : Bool × RouterState W)
            → Q given.1
            → Q (gate r options request p rest idx key tried given).1
        gated (true, t) w = h (tried ++ key ∷ []) t w
        gated (false, t) w =
            concluded
              (attempts r p key (merged r options request) r.max_retries 1
                (notify r options idx key t))
              (attempts-Keeps key p (merged r options request) e r.max_retries 1 _
                (notify-Keeps idx key t w))

    complete_from-Keeps :
        (keys : List String) (idx : ℕ) (tried : List String) (s : RouterState W)
        → Q s
        → Q (complete_from r options request keys idx tried s).1
    unfolding complete_from
    complete_from-Keeps [] idx tried s v = v
    complete_from-Keeps (key ∷ keys) idx tried s v =
        visit-Keeps (lookup key r.provider_map) (complete_from r options request keys (idx + 1)) idx
          key tried s refl (λ l t w. complete_from-Keeps keys (idx + 1) l t w) v

    pub complete-Keeps : (s : RouterState W) → Q s → Q (complete r options request s).1
    unfolding complete
    complete-Keeps s v = complete_from-Keeps (build_chain r options.preferred_provider) 0 [] s v

  pub complete_structured-Keeps :
      {T : Type 0} (parse : String → Settled T) (show : Thrown → String)
      (request : LlmCompletionRequest N J) (s : RouterState W)
      → Q s
      → Q (complete_structured r parse show options request s).1
  unfolding complete_structured parse_response
  complete_structured-Keeps parse show request s v =
      parsed (complete r options as_json s) (complete-Keeps as_json s v)
    where
      as_json : LlmCompletionRequest N J
      as_json = record request { response_format = some json }

      parsed :
          (given : Settled (LlmCompletionResponse J) × RouterState W)
          → Q given.1
          → Q (parse_response r parse show given).1
      parsed (resolved response, t) w = w
      parsed (rejected e, t) w = w

  module _ (g : StreamsKept Q r) (request : LlmCompletionRequest N J) where
    stream_visit-Keeps :
        (o : Option (IllmProvider N J (RouterState W)))
        (rest : List String → List LlmStreamChunk → RouterState W → Streamed × RouterState W)
        (idx : ℕ) (key : String) (tried : List String) (out : List LlmStreamChunk)
        (s : RouterState W)
        → lookup key r.provider_map ≡ o
        → ((l : List String) (c : List LlmStreamChunk) (t : RouterState W) → Q t → Q (rest l c t).1)
        → Q s
        → Q (stream_visit r options request o rest idx key tried out s).1
    unfolding stream_visit stream_gate after_stream
    stream_visit-Keeps none rest idx key tried out s e h v = h tried out s v
    stream_visit-Keeps (some p) rest idx key tried out s e h v =
        gated (test_circuit r.now key s) (f.tests key s v)
      where
        ended :
            (given : Streamed × RouterState W)
            → Q given.1
            → Q (after_stream r options request rest key tried out given).1
        ended ((chunks, none), t) w = f.succeeds key t w
        ended ((chunks, some err), t) w =
            h (tried ++ key ∷ []) (out ++ chunks) (fail r key t) (f.fails key t w)

        gated :
            (given : Bool × RouterState W)
            → Q given.1
            → Q (stream_gate r options request p rest idx key tried out given).1
        gated (true, t) w = h (tried ++ key ∷ []) out t w
        gated (false, t) w =
            ended (p.stream (streamed_request r options request) (notify r options idx key t))
              (g key p _ _ e (notify-Keeps idx key t w))

    stream_from-Keeps :
        (keys : List String) (idx : ℕ) (tried : List String) (out : List LlmStreamChunk)
        (s : RouterState W)
        → Q s
        → Q (stream_from r options request keys idx tried out s).1
    unfolding stream_from
    stream_from-Keeps [] idx tried out s v = v
    stream_from-Keeps (key ∷ keys) idx tried out s v =
        stream_visit-Keeps (lookup key r.provider_map)
          (stream_from r options request keys (idx + 1)) idx key tried out s refl
          (λ l c t w. stream_from-Keeps keys (idx + 1) l c t w) v

    pub stream-Keeps : (s : RouterState W) → Q s → Q (stream r options request s).1
    unfolding stream
    stream-Keeps s v = stream_from-Keeps (build_chain r options.preferred_provider) 0 [] [] s v
