-- ===== src/Llm/Router/Stream/Laws.antt =====
-- What a stream forwards, and how it ends.
use mathlib.Core.List.{append_assoc, append-nil}
use ai_content_platform.Prelude.{
  ℕ, ◌+◌, String, ◌≡◌, refl, sym, ◌∙◌, ap, subst, Bool, true, false, Option, none, some, List, [],
  ◌∷◌, ◌++◌, arith, lookup,
}
use ai_content_platform.Exceptions.{Thrown, llm_provider_exhausted, Settled, resolved, rejected}
use ai_content_platform.Llm.Provider.{
  LlmCompletionRequest, LlmCompletionResponse, LlmStreamChunk, IllmProvider, json,
}
use ai_content_platform.Llm.Router.{
  Router, RouterState, RouterOptions, build_chain, test_circuit, fail, notify, complete,
}
use ai_content_platform.Llm.Router.Outcome.{registered, Answered, complete-Answered}
use ai_content_platform.Llm.Router.Stream.{
  Streamed, streamed_request, after_stream, stream_gate, stream_visit, stream_from, stream,
  parsed_or_error, parse_response, complete_structured,
}

module _ {N J W : Type 0} (r : Router N J W) (options : RouterOptions N W)
    (request : LlmCompletionRequest N J) where
  -- The answers of one round: those of the rest, with what has been forwarded so far grown by the
  -- provider's chunks, or the end of a stream that completed.
  stream_visit_rule {ℓ} :
      (P : Streamed → Type ℓ) (o : Option (IllmProvider N J (RouterState W)))
      (rest : List String → List LlmStreamChunk → RouterState W → Streamed × RouterState W)
      (idx : ℕ) (key : String) (tried : List String) (out : List LlmStreamChunk) (s : RouterState W)
      → (o ≡ none → P (rest tried out s).0)
      → ((p : IllmProvider N J (RouterState W))
          → o ≡ some p
          → (chunks : List LlmStreamChunk) (t : RouterState W)
          → P (rest (tried ++ key ∷ []) (out ++ chunks) t).0)
      → ((p : IllmProvider N J (RouterState W))
          → o ≡ some p
          → (chunks : List LlmStreamChunk) → P (out ++ chunks, none))
      → P (stream_visit r options request o rest idx key tried out s).0
  unfolding stream_visit stream_gate after_stream
  stream_visit_rule P none rest idx key tried out s absent failed done = absent refl
  stream_visit_rule P (some p) rest idx key tried out s absent failed done =
      gated (test_circuit r.now key s)
    where
      ended :
          (given : Streamed × RouterState W)
          → P (after_stream r options request rest key tried out given).0
      ended ((chunks, none), t) = done p refl chunks
      ended ((chunks, some e), t) = failed p refl chunks (fail r key t)

      gated :
          (given : Bool × RouterState W)
          → P (stream_gate r options request p rest idx key tried out given).0
      gated (true, t) =
          subst (λ l. P (rest (tried ++ key ∷ []) l t).0) (append-nil out) (failed p refl [] t)
      gated (false, t) =
          ended (p.stream (streamed_request r options request) (notify r options idx key t))

  abbrev Ends : List String → Streamed → Type 0
  Ends tried (chunks, none) = Unit
  Ends tried (chunks, some e) = e ≡ llm_provider_exhausted tried

  stream_from-Ends :
      (keys : List String) (idx : ℕ) (tried : List String) (out : List LlmStreamChunk)
      (s : RouterState W)
      → Ends (tried ++ registered r keys) (stream_from r options request keys idx tried out s).0
  unfolding stream_from registered
  stream_from-Ends [] idx tried out s = ap llm_provider_exhausted (sym (append-nil tried))
  stream_from-Ends (key ∷ keys) idx tried out s =
      stream_visit_rule (Ends (tried ++ registered r (key ∷ keys))) (lookup key r.provider_map)
        (stream_from r options request keys (idx + 1)) idx key tried out s
        (λ e. rw (e, registered) (stream_from-Ends keys (idx + 1) tried out s))
        (λ p e chunks t.
          rw (e, registered)
            (rw (← append_assoc tried (key ∷ []) (registered r keys))
              (stream_from-Ends keys (idx + 1) (tried ++ key ∷ []) (out ++ chunks) t)))
        (λ p e chunks. tt)

  -- A stream that ends with an error ends with the exhausted chain, which names exactly the
  -- registered providers of the chain in its order.
  pub stream-exhausted :
      (s : RouterState W) (e : Thrown)
      → (stream r options request s).0.1 ≡ some e
      → e ≡ llm_provider_exhausted (registered r (build_chain r options.preferred_provider))
  unfolding stream
  stream-exhausted s e h =
      ended (stream r options request s).0 h
        (stream_from-Ends (build_chain r options.preferred_provider) 0 [] [] s)
    where
      ended :
          (given : Streamed)
          → given.1 ≡ some e
          → Ends (registered r (build_chain r options.preferred_provider)) given
          → e ≡ llm_provider_exhausted (registered r (build_chain r options.preferred_provider))
      ended (chunks, none) k g = cc
      ended (chunks, some x) k g = ground arith

  abbrev Keeps : List LlmStreamChunk → Streamed → Type 0
  Keeps out given = (more : List LlmStreamChunk) × (given.0 ≡ out ++ more)

  stream_from-Keeps :
      (keys : List String) (idx : ℕ) (tried : List String) (out : List LlmStreamChunk)
      (s : RouterState W)
      → Keeps out (stream_from r options request keys idx tried out s).0
  unfolding stream_from
  stream_from-Keeps [] idx tried out s = ([], sym (append-nil out))
  stream_from-Keeps (key ∷ keys) idx tried out s =
      stream_visit_rule (Keeps out) (lookup key r.provider_map)
        (stream_from r options request keys (idx + 1)) idx key tried out s
        (λ e. stream_from-Keeps keys (idx + 1) tried out s)
        (λ p e chunks t.
          let (more, k) = stream_from-Keeps keys (idx + 1) (tried ++ key ∷ []) (out ++ chunks) t in
          (chunks ++ more, k ∙ append_assoc out chunks more))
        (λ p e chunks. (chunks, refl))

  -- The tokens of a provider that fails in mid-stream stay: whatever the fallback delivers comes
  -- behind them, in the same stream.
  pub stream_keeps_partial :
      (key : String) (keys : List String) (p : IllmProvider N J (RouterState W))
      (s t u : RouterState W) (chunks : List LlmStreamChunk) (e : Thrown)
      → build_chain r options.preferred_provider ≡ key ∷ keys
      → lookup key r.provider_map ≡ some p
      → test_circuit r.now key s ≡ (false, t)
      → p.stream (streamed_request r options request) t ≡ ((chunks, some e), u)
      → (stream r options request s
          ≡ stream_from r options request keys 1 (key ∷ []) chunks (fail r key u))
        × ((more : List LlmStreamChunk) × ((stream r options request s).0.0 ≡ chunks ++ more))
  unfolding stream stream_from stream_visit stream_gate after_stream notify
  stream_keeps_partial key keys p s t u chunks e b l c d =
      let moved : stream r options request s
          ≡ stream_from r options request keys 1 (key ∷ []) chunks (fail r key u) =
        rw (b, l, c, d) in
      (moved, rw moved (stream_from-Keeps keys 1 (key ∷ []) chunks (fail r key u)))

module _ {N J W T : Type 0} (r : Router N J W) (parse : String → Settled T) (show : Thrown → String)
    (options : RouterOptions N W) (request : LlmCompletionRequest N J) where
  abbrev as_json : LlmCompletionRequest N J
  as_json = record request { response_format = some json }

  parse_response-resolved :
      (given : Settled (LlmCompletionResponse J) × RouterState W) (v : T)
      → Answered r options as_json (build_chain r options.preferred_provider) given.0
      → (parse_response r parse show given).0 ≡ resolved v
      → (response : LlmCompletionResponse J) × (given.0 ≡ resolved response)
        × (parse response.content ≡ resolved v)
        × Answered r options as_json (build_chain r options.preferred_provider) (resolved response)
  unfolding parse_response parsed_or_error
  parse_response-resolved (resolved x, s) v a h = (x, refl, accepted (parse x.content) h, a)
    where
      accepted :
          (o : Settled T) → parsed_or_error r parse show x.content o ≡ resolved v → o ≡ resolved v
      accepted (resolved w) e = e
      accepted (rejected w) e = cc
  parse_response-resolved (rejected e, s) v a h = cc

  -- A structured value is the parsed content of a response that a provider of the chain gave to the
  -- merged request, asked for as JSON.
  pub complete_structured-resolved :
      (s : RouterState W) (v : T)
      → (complete_structured r parse show options request s).0 ≡ resolved v
      → (response : LlmCompletionResponse J) × ((complete r options as_json s).0
          ≡ resolved response)
        × (parse response.content ≡ resolved v)
        × Answered r options as_json (build_chain r options.preferred_provider) (resolved response)
  unfolding complete_structured
  complete_structured-resolved s v h =
      parse_response-resolved (complete r options as_json s) v
        (complete-Answered r options as_json s) h
