-- ===== src/Agents/Generator/Laws.antt =====
-- The draft and the tokens that the clients see.
use mathlib.Core.List.{append_assoc, append-nil}
use ai_content_platform.Prelude.{
  ◌≤◌, arith, str_length, String, ◌≡◌, refl, sym, ◌∙◌, ap, subst, true, false, none, List, [], ◌∷◌,
  ◌++◌, if◌then◌else◌, is_truthy, Bool-cases, inl, inr,
}
use ai_content_platform.Exceptions.{Settled, resolved, rejected, ◌+s◌}
use ai_content_platform.Contracts.{Zod, IsZod, passes}
use ai_content_platform.Streaming.Events.{SseEvent, token, payload_checks, sse_event_checks}
use ai_content_platform.Llm.Router.Stream.{stream}
use ai_content_platform.Llm.Provider.{LlmStreamChunk}
use ai_content_platform.Agents.Services.{
  Shared, RunState, AgentServices, no_tokens, routed, options_for,
}
use ai_content_platform.Agents.Generator.{
  Gathered, emit_token, told, take_chunk, take_chunks, usage_after, draft_request, write_draft,
  subscribed,
}

-- The texts that are sent, and their concatenation.
abbrev pub deltas : List LlmStreamChunk → List String
deltas [] = []
deltas (c ∷ cs) = if is_truthy c.delta then c.delta ∷ deltas cs else deltas cs

deltas-text :
    (c : LlmStreamChunk) (cs : List LlmStreamChunk)
    → is_truthy c.delta ≡ true
    → deltas (c ∷ cs) ≡ c.delta ∷ deltas cs
deltas-text c cs some_text = ap (λ b. if b then c.delta ∷ deltas cs else deltas cs) some_text

deltas-none :
    (c : LlmStreamChunk) (cs : List LlmStreamChunk)
    → is_truthy c.delta ≡ false
    → deltas (c ∷ cs) ≡ deltas cs
deltas-none c cs no_text = ap (λ b. if b then c.delta ∷ deltas cs else deltas cs) no_text

abbrev pub after_all : String → List String → String
after_all text [] = text
after_all text (d ∷ ds) = after_all (text +s d) ds

module _ {N J W : Type 0} (v : AgentServices N J W) where
  -- A log of the events that reach a client. The event channel takes an event for a stream that is
  -- live, if it meets the contract; it logs it and leaves the stream live.
  pub record Delivers (z : Zod N) (Live : String → Shared W → Type 0)
      (log : Shared W → List (SseEvent N)) : Type 0 where
    pub zod : IsZod z
    pub emits :
        (id : String) (e : SseEvent N) (w : Shared W)
        → Live id w
        → passes (sse_event_checks z e) ≡ true
        → ((v.emit id e w).0 ≡ resolved tt)
          × (log (v.emit id e w).1 ≡ log w ++ e ∷ [])
          × Live id (v.emit id e w).1

  abbrev pub token_events : String → List String → List (SseEvent N)
  token_events id [] = []
  token_events id (d ∷ ds) = record { payload = token d; job_id = id } ∷ token_events id ds

  token_passes :
      (z : Zod N)
      → IsZod z
      → (delta id : String) → 1 ≤ str_length id
      → passes (sse_event_checks z (record { payload = token delta; job_id = id })) ≡ true
  unfolding sse_event_checks payload_checks
  token_passes z l delta id h = ground (arith, l.string_min_lem 1 id)

  -- What the clients have been sent and what has been gathered, from a state of both on.
  abbrev Sent :
      (Shared W → List (SseEvent N))
      → List String
      → Gathered × RunState N W
      → Gathered × RunState N W
      → Type 0
  Sent log ds (g, s) (h, t) =
      (h.full_content ≡ after_all g.full_content ds)
      × (log t.world ≡ log s.world ++ token_events s.ctx.job_id ds)
      × (t.ctx ≡ s.ctx)

  after_text : LlmStreamChunk → Gathered → Gathered
  after_text c g = record {
    full_content = g.full_content +s c.delta;
    final_usage = usage_after v c.done c.usage g.final_usage;
  }

  after_none : LlmStreamChunk → Gathered → Gathered
  after_none c g = record {
    full_content = g.full_content;
    final_usage = usage_after v c.done c.usage g.final_usage;
  }

  take_chunk-text :
      (c : LlmStreamChunk) (g : Gathered) (s : RunState N W)
      → s.ctx.is_cancelled ≡ false
      → is_truthy c.delta ≡ true
      → take_chunk v c (g, s) ≡ (after_text c g, emit_token v c.delta s)
  unfolding take_chunk after_text
  take_chunk-text c g s live some_text =
      ap
        (λ b. if b then (g, s) else (
          record {
            full_content = if is_truthy c.delta then g.full_content +s c.delta else g.full_content;
            final_usage = usage_after v c.done c.usage g.final_usage;
          },
          if is_truthy c.delta then emit_token v c.delta s else s,
        ))
        live
      ∙ ap
          (λ b. (
            record {
              full_content = if b then g.full_content +s c.delta else g.full_content;
              final_usage = usage_after v c.done c.usage g.final_usage;
            },
            if b then emit_token v c.delta s else s,
          ))
          some_text

  take_chunk-none :
      (c : LlmStreamChunk) (g : Gathered) (s : RunState N W)
      → s.ctx.is_cancelled ≡ false
      → is_truthy c.delta ≡ false
      → take_chunk v c (g, s) ≡ (after_none c g, s)
  unfolding take_chunk after_none
  take_chunk-none c g s live no_text =
      ap
        (λ b. if b then (g, s) else (
          record {
            full_content = if is_truthy c.delta then g.full_content +s c.delta else g.full_content;
            final_usage = usage_after v c.done c.usage g.final_usage;
          },
          if is_truthy c.delta then emit_token v c.delta s else s,
        ))
        live
      ∙ ap
          (λ b. (
            record {
              full_content = if b then g.full_content +s c.delta else g.full_content;
              final_usage = usage_after v c.done c.usage g.final_usage;
            },
            if b then emit_token v c.delta s else s,
          ))
          no_text

  module _ (z : Zod N) (Live : String → Shared W → Type 0) (log : Shared W → List (SseEvent N))
      (l : Delivers z Live log) where
    emit_token-log :
        (delta : String) (s : RunState N W)
        → 1 ≤ str_length s.ctx.job_id
        → Live s.ctx.job_id s.world
        → (log (emit_token v delta s).world
            ≡ log s.world ++ record { payload = token delta; job_id = s.ctx.job_id } ∷ [])
          × Live s.ctx.job_id (emit_token v delta s).world
    unfolding emit_token told
    emit_token-log delta s named open_stream =
        sent (v.emit s.ctx.job_id _ s.world) (
          l.emits s.ctx.job_id _ s.world open_stream
            (token_passes z l.zod delta s.ctx.job_id named))
      where
        sent :
            (given : Settled (Unit {0}) × Shared W)
            → (given.0 ≡ resolved tt)
              × (log given.1
                  ≡ log s.world ++ record { payload = token delta; job_id = s.ctx.job_id } ∷ [])
              × Live s.ctx.job_id given.1
            → (log (told v given)
                ≡ log s.world ++ record { payload = token delta; job_id = s.ctx.job_id } ∷ [])
              × Live s.ctx.job_id (told v given)
        sent (resolved a, w) (ok, e, k) = (e, k)
        sent (rejected err, w) (ok, e, k) = cc

    take_chunks-Sent :
        (cs : List LlmStreamChunk) (g : Gathered) (s : RunState N W)
        → s.ctx.is_cancelled ≡ false
        → 1 ≤ str_length s.ctx.job_id
        → Live s.ctx.job_id s.world
        → Sent log (deltas cs) (g, s) (take_chunks v cs (g, s))
    unfolding take_chunks emit_token after_text after_none
    take_chunks-Sent [] g s live named open_stream = (refl, sym (append-nil (log s.world)), refl)
    take_chunks-Sent (c ∷ cs) g s live named open_stream = elim (Bool-cases (is_truthy c.delta)) [
      | inl some_text ↦
          let (first, still) = emit_token-log c.delta s named open_stream in
          let (content, logged, same) =
            take_chunks-Sent cs (after_text c g) (emit_token v c.delta s) live named still in
          let sent : Sent log (c.delta ∷ deltas cs) (g, s)
              (take_chunks v cs (after_text c g, emit_token v c.delta s)) =
            (
              content,
              logged
                  ∙ ap (λ x. x ++ token_events s.ctx.job_id (deltas cs)) first
                  ∙ append_assoc (log s.world)
                      (record { payload = token c.delta; job_id = s.ctx.job_id } ∷ [])
                      (token_events s.ctx.job_id (deltas cs)),
              same,
            ) in
          subst (λ ds. Sent log ds (g, s) (take_chunks v cs (take_chunk v c (g, s))))
            (sym (deltas-text c cs some_text))
            (subst (λ x. Sent log (c.delta ∷ deltas cs) (g, s) (take_chunks v cs x))
              (sym (take_chunk-text c g s live some_text)) sent)
      | inr no_text ↦
          subst (λ ds. Sent log ds (g, s) (take_chunks v cs (take_chunk v c (g, s))))
            (sym (deltas-none c cs no_text))
            (subst (λ x. Sent log (deltas cs) (g, s) (take_chunks v cs x))
              (sym (take_chunk-none c g s live no_text))
              (take_chunks-Sent cs (after_none c g) s live named open_stream))
    ]

    -- If the run is not cancelled, its job has an id, the stream of the model ends without an
    -- error, and the clients' stream is live by then, with an event channel that takes each event
    -- for a live stream that meets the contract: then what the model delivers is sent to the
    -- clients piece by piece, in its order, and the text that the agent has gathered is exactly
    -- these pieces put together.
    pub write_draft-Sent :
        (chunks : List LlmStreamChunk) (s t : RunState N W)
        → routed (stream v.router (options_for "claude") (draft_request v s.ctx)) s
          ≡ ((chunks, none), t)
        → t.ctx.is_cancelled ≡ false
        → 1 ≤ str_length t.ctx.job_id
        → Live t.ctx.job_id t.world
        → (g : Gathered) × ((write_draft v s).0 ≡ resolved g)
          × (g.full_content ≡ after_all "" (deltas chunks))
          × (log (write_draft v s).1.world
              ≡ log t.world ++ token_events t.ctx.job_id (deltas chunks))
    unfolding write_draft subscribed
    write_draft-Sent chunks s t h live named open_stream =
        let nothing : Gathered = record { full_content = ""; final_usage = no_tokens } in
        let (content, logged, same) = take_chunks-Sent chunks nothing t live named open_stream in
        (
          (take_chunks v chunks (nothing, t)).0,
          ap (λ x. (subscribed v x).0) h,
          content,
          ap (λ x. log (subscribed v x).1.world) h ∙ logged,
        )
