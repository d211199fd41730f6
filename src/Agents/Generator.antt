-- ===== src/Agents/Generator.antt =====
-- src/agents/agents/generator.agent.ts. The subscriber takes the chunks of a stream when it has
-- ended; what the stream itself does to the run comes before.
pub mod Laws
use ai_content_platform.Prelude.{
  ℕ, suc, ◌+◌, ◌*◌, String, Bool, true, false, Option, none, some, List, [], ◌∷◌, ◌==◌,
  if◌then◌else◌, is_truthy, take,
}
use ai_content_platform.Domain.{SearchResult, TokenUsage, generator}
use ai_content_platform.Exceptions.{Thrown, Settled, resolved, rejected, ◌+s◌, join}
use ai_content_platform.Streaming.Events.{SseEvent, token}
use ai_content_platform.Llm.Provider.{LlmCompletionRequest, LlmStreamChunk, user}
use ai_content_platform.Llm.Router.Stream.{Streamed, stream}
use ai_content_platform.Agents.Context.{AgentContext}
use ai_content_platform.Agents.Orchestrator.{M, ◌>>=◌, ◌>>◌}
use ai_content_platform.Agents.Services.{
  Shared, RunState, AgentServices, options_for, tone_name, content_type_name, no_tokens, checked,
  assign, routed, note_step,
}

-- The content and the usage that the subscriber has gathered.
pub record Gathered : Type 0 where
  pub full_content : String
  pub final_usage : TokenUsage

module _ {N J W : Type 0} (v : AgentServices N J W) where
  -- `[1] …`, `[2] …` from a number on.
  numbered_chunks : ℕ → List (SearchResult N) → List String
  numbered_chunks i [] = []
  numbered_chunks i (r ∷ rs) =
      ("[" +s v.decimal i +s "] " +s r.content) ∷ numbered_chunks (i + 1) rs

  numbered_items : ℕ → List String → List String
  numbered_items i [] = []
  numbered_items i (s ∷ ss) = (v.decimal i +s ". " +s s) ∷ numbered_items (i + 1) ss

  unfoldable pub rag_snippet : List (SearchResult N) → String
  unfolding numbered_chunks
  rag_snippet [] = ""
  rag_snippet (r ∷ rs) =
      "\n\n## Knowledge Base Context\n" +s join "\n\n" (numbered_chunks 1 (take 8 (r ∷ rs)))

  unfoldable pub outline_section : List String → String
  unfolding numbered_items
  outline_section [] = ""
  outline_section (s ∷ ss) = "\n\n## Content Outline\n" +s join "\n" (numbered_items 1 (s ∷ ss))

  unfoldable pub draft_request : AgentContext N → LlmCompletionRequest N J
  unfolding rag_snippet outline_section
  draft_request ctx = record {
    messages =
        record {
          role = user;
          content =
              "Write a complete "
              +s content_type_name ctx.content_type
              +s " about \""
              +s ctx.topic
              +s "\".\n\nTone: "
              +s tone_name ctx.target_tone
              +s "\n"
              +s outline_section ctx.outline
              +s rag_snippet ctx.rag_context
              +s "\n\nWrite the full content now. Do not add meta-commentary. Write directly.";
        }
        ∷ [];
    model = none;
    temperature = none;
    max_tokens = some (ctx.brand_config.max_content_length * 2);
    tools = none;
    response_format = none;
    system_prompt = some ctx.brand_config.system_prompt;
  }

  told : Settled (Unit {0}) × Shared W → Shared W
  told (resolved a, w) = w
  told (rejected e, w) = v.unhandled e w

  -- The event of a token. An error that `emit` throws goes to rxjs, not to the agent.
  unfoldable pub emit_token : String → RunState N W → RunState N W
  unfolding told
  emit_token delta s = record s {
    world =
        told
          (v.emit s.ctx.job_id (record { payload = token delta; job_id = s.ctx.job_id }) s.world);
  }

  usage_after : Bool → Option TokenUsage → TokenUsage → TokenUsage
  usage_after true (some usage) before = usage
  usage_after _ _ before = before

  -- `next` of the subscriber.
  unfoldable pub take_chunk : LlmStreamChunk → Gathered × RunState N W → Gathered × RunState N W
  unfolding emit_token usage_after
  take_chunk chunk (g, s) =
      let content =
        if is_truthy chunk.delta then g.full_content +s chunk.delta else g.full_content in
      let t = if is_truthy chunk.delta then emit_token chunk.delta s else s in
      if s.ctx.is_cancelled then (g, s) else (
        record {
          full_content = content;
          final_usage = usage_after chunk.done chunk.usage g.final_usage;
        },
        t,
      )

  unfoldable pub take_chunks :
      List LlmStreamChunk → Gathered × RunState N W → Gathered × RunState N W
  unfolding take_chunk
  take_chunks [] g = g
  take_chunks (c ∷ cs) g = take_chunks cs (take_chunk c g)

  unfoldable pub subscribed : Streamed × RunState N W → Settled Gathered × RunState N W
  unfolding take_chunks
  subscribed ((chunks, none), s) =
      let taken = take_chunks chunks (record { full_content = ""; final_usage = no_tokens }, s) in
      (resolved taken.0, taken.1)
  subscribed ((chunks, some err), s) = (
    rejected err,
    (take_chunks chunks (record { full_content = ""; final_usage = no_tokens }, s)).1,
  )

  unfoldable pub write_draft : M N (Shared W) Gathered
  unfolding subscribed routed draft_request
  write_draft s =
      subscribed (routed (stream v.router (options_for "claude") (draft_request s.ctx)) s)

  abbrev pub with_draft : Gathered → AgentContext N → AgentContext N
  with_draft g ctx = record ctx { draft_content = g.full_content }

  unfoldable pub run : M N (Shared W) (Unit {0})
  run s =
      (do
        checked generator
        g ← write_draft
        assign (with_draft g)
        note_step v generator "claude" g.final_usage (v.now s.world))
        s
