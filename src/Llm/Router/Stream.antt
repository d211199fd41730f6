-- ===== src/Llm/Router/Stream.antt =====
-- The router's `stream`, `embed` and `completeStructured`. What the stream forwards to its
-- subscriber is a list of chunks, with the error that ends it, if any.
pub mod Laws
use ai_content_platform.Prelude.{
  ℕ, ◌+◌, String, Bool, true, false, Option, none, some, List, [], ◌∷◌, ◌++◌, lookup,
}
use ai_content_platform.Exceptions.{
  Thrown, error, llm_provider_exhausted, Settled, resolved, rejected, ◌+s◌,
}
use ai_content_platform.Llm.Breaker.{record_success}
use ai_content_platform.Llm.Provider.{
  LlmCompletionRequest, LlmCompletionResponse, LlmStreamChunk, IllmProvider, json,
}
use ai_content_platform.Llm.Router.{
  Router, RouterState, RouterOptions, coalesce, update_breaker, test_circuit, build_chain, fail,
  notify, complete,
}

abbrev pub Streamed : Type 0
Streamed = List LlmStreamChunk × Option Thrown

module _ {N J W : Type 0} (r : Router N J W) (options : RouterOptions N W)
    (request : LlmCompletionRequest N J) where
  -- Of the options only the model reaches a streaming provider.
  unfoldable pub streamed_request : LlmCompletionRequest N J
  streamed_request = record request { model = coalesce options.model request.model }

  abbrev Rest : Type 0
  Rest = List String → List LlmStreamChunk → RouterState W → Streamed × RouterState W

  -- After a provider's stream: `out` has been forwarded before it.
  unfoldable pub after_stream :
      Rest
      → String
      → List String
      → List LlmStreamChunk
      → Streamed × RouterState W
      → Streamed × RouterState W
  after_stream rest key tried out ((chunks, none), s) =
      ((out ++ chunks, none), update_breaker key record_success s)
  after_stream rest key tried out ((chunks, some err), s) =
      rest (tried ++ key ∷ []) (out ++ chunks) (fail r key s)

  unfoldable pub stream_gate :
      IllmProvider N J (RouterState W)
      → Rest
      → ℕ
      → String
      → List String
      → List LlmStreamChunk
      → Bool × RouterState W
      → Streamed × RouterState W
  stream_gate p rest idx key tried out (true, s) = rest (tried ++ key ∷ []) out s
  stream_gate p rest idx key tried out (false, s) =
      after_stream rest key tried out (p.stream streamed_request (notify r options idx key s))

  unfoldable pub stream_visit :
      Option (IllmProvider N J (RouterState W))
      → Rest
      → ℕ
      → String
      → List String
      → List LlmStreamChunk
      → RouterState W
      → Streamed × RouterState W
  stream_visit none rest idx key tried out s = rest tried out s
  stream_visit (some p) rest idx key tried out s =
      stream_gate p rest idx key tried out (test_circuit r.now key s)

  unfoldable pub stream_from :
      List String → ℕ → List String → List LlmStreamChunk → RouterState W → Streamed × RouterState W
  stream_from [] idx tried out s = ((out, some (llm_provider_exhausted tried)), s)
  stream_from (key ∷ keys) idx tried out s =
      stream_visit (lookup key r.provider_map) (stream_from keys (idx + 1)) idx key tried out s

  unfoldable pub stream : RouterState W → Streamed × RouterState W
  stream s = stream_from (build_chain r options.preferred_provider) 0 [] [] s

module _ {N J W : Type 0} (r : Router N J W) where
  unfoldable pub embed : List String → RouterState W → Settled (List (List N)) × RouterState W
  embed texts s = elim (lookup r.embedding_provider r.provider_map) [
    | none ↦ (
      rejected (
          error (
            "Embedding provider '" +s r.embedding_provider
            +s "' not registered. Set EMBEDDING_PROVIDER env var.")),
      s,
    )
    | some p ↦ p.embed texts s
  ]

  -- `parse` is `JSON.parse` followed by the schema's `parse`, and `show` is `String(err)`.
  module _ {T : Type 0} (parse : String → Settled T) (show : Thrown → String) where
    unfoldable pub parsed_or_error : String → Settled T → Settled T
    parsed_or_error raw (resolved v) = resolved v
    parsed_or_error raw (rejected e) =
        rejected (error ("LLM structured output parse failed: " +s show e +s "\nRaw: " +s raw))

    unfoldable pub parse_response :
        Settled (LlmCompletionResponse J) × RouterState W → Settled T × RouterState W
    parse_response (resolved response, s) =
        (parsed_or_error response.content (parse response.content), s)
    parse_response (rejected e, s) = (rejected e, s)

    unfoldable pub complete_structured :
        RouterOptions N W → LlmCompletionRequest N J → RouterState W → Settled T × RouterState W
    complete_structured options request s =
        parse_response (complete r options (record request { response_format = some json }) s)
