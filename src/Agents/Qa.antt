-- ===== src/Agents/Qa.antt =====
-- src/agents/agents/qa.agent.ts. `J` stands for JSON values.
use ai_content_platform.Prelude.{String, Bool, Option, none, some, [], ◌∷◌, str_or, if◌then◌else◌}
use ai_content_platform.Domain.{qa}
use ai_content_platform.Exceptions.{Settled, ◌+s◌, join}
use ai_content_platform.Llm.Provider.{LlmCompletionRequest, user}
use ai_content_platform.Tools.Registry.{ToolInput, ToolOutput}
use ai_content_platform.Agents.Context.{AgentContext}
use ai_content_platform.Agents.Orchestrator.{M, ◌>>=◌, ◌>>◌}
use ai_content_platform.Agents.Services.{
  Shared, AgentServices, tone_name, content_type_name, no_tokens, checked, assign, ask_model,
  use_tool, note_step,
}

-- The issues, the corrections and the score of the answer go to the log and to the step only.
pub record QaOutput : Type 0 where
  pub final_content : String
  pub approved : Bool

pub record QaJson (N J : Type 0) : Type 0 where
  pub ease_of : Option J → N
  pub json_string : String → J

module _ {N : Type 0} where
  -- `ctx.optimizedContent || ctx.draftContent`.
  abbrev pub reviewed : AgentContext N → String
  reviewed ctx = str_or ctx.optimized_content ctx.draft_content

  abbrev pub with_review : QaOutput → AgentContext N → AgentContext N
  with_review result ctx = record ctx {
    final_content = result.final_content;
    approved = result.approved;
  }

module _ {N J W : Type 0} (v : AgentServices N J W) (j : QaJson N J) where
  unfoldable pub with_readability : ToolOutput J → AgentContext N → AgentContext N
  with_readability out ctx = record ctx {
    readability_score = if out.success then j.ease_of out.result else ctx.readability_score;
  }

  unfoldable pub readability_context : ToolOutput J → AgentContext N → String
  readability_context out ctx =
      if out.success
      then "Readability score: "
        +s v.shown_score ctx.readability_score
        +s "/100 (Flesch Reading Ease)."
      else ""

  unfoldable pub review_request : ToolOutput J → AgentContext N → LlmCompletionRequest N J
  unfolding readability_context
  review_request out ctx = record {
    messages =
        record {
          role = user;
          content =
              "Review this content for quality. Apply corrections if needed.\n\nTopic: "
              +s ctx.topic
              +s "\nContent Type: "
              +s content_type_name ctx.content_type
              +s "\nTarget Tone: "
              +s tone_name ctx.target_tone
              +s "\n"
              +s readability_context out ctx
              +s "\nCitations available: "
              +s str_or (join ", " ctx.citations) "none"
              +s "\n\nContent to review:\n"
              +s reviewed ctx
              +s "\n\nReturn JSON with:\n- finalContent: corrected content (or unchanged if good)\n- approved: true if ready to publish\n- issues: list of issues found (empty if none)\n- corrections: list of corrections made\n- qualityScore: 0-100 quality score";
        }
        ∷ [];
    model = none;
    temperature = none;
    max_tokens = none;
    tools = none;
    response_format = none;
    system_prompt =
        some
          "You are a senior editor. Review content for quality, accuracy, coherence, and brand alignment.";
  }

  abbrev pub readability_input : AgentContext N → ToolInput J
  readability_input ctx = ("content", j.json_string (reviewed ctx)) ∷ []

  module _ (parse : String → Settled QaOutput) where
    -- `run`; `parse` is `JSON.parse` and then the schema of the answer.
    unfoldable pub run : M N (Shared W) (Unit {0})
    run s =
        (do
          checked qa
          out ← use_tool v "readability_checker" readability_input
          assign (with_readability out)
          result ← ask_model v parse "claude" (review_request out)
          assign (with_review result)
          note_step v qa "claude" no_tokens (v.now s.world))
          s
