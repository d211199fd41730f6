-- ===== src/Agents/Planner.antt =====
-- src/agents/agents/planner.agent.ts.
use ai_content_platform.Prelude.{ℕ, String, none, some, List, [], ◌∷◌}
use ai_content_platform.Domain.{Tone, planner}
use ai_content_platform.Exceptions.{Settled, ◌+s◌}
use ai_content_platform.Llm.Provider.{LlmCompletionRequest, user}
use ai_content_platform.Agents.Context.{AgentContext}
use ai_content_platform.Agents.Orchestrator.{M, ◌>>=◌, ◌>>◌}
use ai_content_platform.Agents.Services.{
  Shared, AgentServices, tone_name, content_type_name, no_tokens, checked, assign, ask_model,
  note_step,
}

-- What `PlannerOutputContractV1` accepts.
pub record PlannerOutput : Type 0 where
  pub outline : List String
  pub search_queries : List String
  pub target_tone : Tone
  pub word_count_target : ℕ
  pub key_messages : List String

module _ {N J W : Type 0} (v : AgentServices N J W) where
  unfoldable pub plan_request : AgentContext N → LlmCompletionRequest N J
  plan_request ctx = record {
    messages =
        record {
          role = user;
          content =
              "Plan content for the following:\nTopic: "
              +s ctx.topic
              +s "\nContent Type: "
              +s content_type_name ctx.content_type
              +s "\nBrand Tone: "
              +s tone_name ctx.brand_config.default_tone
              +s "\nMax Length: "
              +s v.decimal ctx.brand_config.max_content_length
              +s " words\n\nReturn a structured plan with:\n- outline: ordered list of section headings/points to cover\n- searchQueries: specific queries to search the knowledge base for relevant context\n- targetTone: the tone to write in (FORMAL|CASUAL|TECHNICAL|FRIENDLY|PERSUASIVE)\n- wordCountTarget: target word count\n- keyMessages: 3-5 core messages the content must convey\n\nReturn only valid JSON.";
        }
        ∷ [];
    model = none;
    temperature = none;
    max_tokens = none;
    tools = none;
    response_format = none;
    system_prompt = some ctx.brand_config.system_prompt;
  }

  abbrev pub with_plan : PlannerOutput → AgentContext N → AgentContext N
  with_plan result ctx = record ctx {
    outline = result.outline;
    search_queries = result.search_queries;
    target_tone = result.target_tone;
  }

  module _ (parse_plan : String → Settled PlannerOutput) where
    -- `run`; `parse_plan` is `JSON.parse` and then the contract.
    unfoldable pub run : M N (Shared W) (Unit {0})
    run s =
        (do
          checked planner
          result ← ask_model v parse_plan "claude" plan_request
          assign (with_plan result)
          note_step v planner "claude" no_tokens (v.now s.world))
          s
