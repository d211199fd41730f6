-- ===== src/Agents/Optimizer.antt =====
-- src/agents/agents/optimizer.agent.ts. `J` stands for JSON values.
use ai_content_platform.Prelude.{
  ℕ, String, Option, none, some, List, [], ◌∷◌, ◌++◌, take, if◌then◌else◌,
}
use ai_content_platform.Domain.{Tone, optimizer}
use ai_content_platform.Exceptions.{Settled, ◌+s◌, join}
use ai_content_platform.Llm.Provider.{LlmCompletionRequest, user}
use ai_content_platform.Tools.Registry.{ToolInput, ToolOutput}
use ai_content_platform.Agents.Context.{AgentContext}
use ai_content_platform.Agents.Orchestrator.{M, ◌>>=◌, ◌>>◌}
use ai_content_platform.Agents.Services.{
  Shared, AgentServices, tone_name, no_tokens, checked, assign, ask_model, use_tool, note_step,
}

-- The fields of `SeoKeywordOutput` that the agent reads.
pub record SeoKeywordOutput : Type 0 where
  pub primary_keyword : String
  pub secondary_keywords : List String
  pub long_tail_keywords : List String

pub record OptimizedOutput : Type 0 where
  pub optimized_content : String
  pub changes_applied : List String

-- How the agent reads and writes JSON: the two casts of a tool's result, and a string value.
pub record OptimizerJson (J : Type 0) : Type 0 where
  pub seo_of : Option J → SeoKeywordOutput
  pub detected_of : Option J → String
  pub json_string : String → J

module _ {J : Type 0} (j : OptimizerJson J) where
  unfoldable pub seo_data : ToolOutput J → Option SeoKeywordOutput
  seo_data out = if out.success then some (j.seo_of out.result) else none

  unfoldable pub tone_guidance : ToolOutput J → Tone → String
  tone_guidance out target =
      if out.success
      then "The content's detected tone is \""
        +s j.detected_of out.result
        +s "\". Adjust to match the target tone: "
        +s tone_name target
        +s "."
      else "Ensure tone matches: " +s tone_name target +s "."

unfoldable pub seo_guidance : Option SeoKeywordOutput → String
seo_guidance none = ""
seo_guidance (some d) =
    "Naturally integrate these keywords: "
    +s d.primary_keyword
    +s ", "
    +s join ", " (take 3 d.secondary_keywords)
    +s "."

module _ {N : Type 0} where
  unfoldable pub with_keywords : Option SeoKeywordOutput → AgentContext N → AgentContext N
  with_keywords none ctx = ctx
  with_keywords (some d) ctx = record ctx {
    seo_keywords = d.primary_keyword ∷ (d.secondary_keywords ++ d.long_tail_keywords);
  }

  abbrev pub with_optimized : OptimizedOutput → AgentContext N → AgentContext N
  with_optimized result ctx = record ctx { optimized_content = result.optimized_content }

module _ {N J : Type 0} (j : OptimizerJson J) where
  unfoldable pub optimize_request :
      Option SeoKeywordOutput → ToolOutput J → AgentContext N → LlmCompletionRequest N J
  unfolding tone_guidance seo_guidance
  optimize_request seo tone ctx = record {
    messages =
        record {
          role = user;
          content =
              "Optimize this content for tone, SEO, and engagement.\n\n"
              +s tone_guidance j tone ctx.target_tone
              +s "\n"
              +s seo_guidance seo
              +s "\n\nOriginal content:\n"
              +s ctx.draft_content
              +s "\n\nReturn JSON with:\n- optimizedContent: the improved full content\n- changesApplied: list of specific changes made";
        }
        ∷ [];
    model = none;
    temperature = none;
    max_tokens = none;
    tools = none;
    response_format = none;
    system_prompt = some ctx.brand_config.system_prompt;
  }

  abbrev pub seo_input : AgentContext N → ToolInput J
  seo_input ctx =
      ("content", j.json_string ctx.draft_content) ∷ ("topic", j.json_string ctx.topic) ∷ []

  abbrev pub tone_input : AgentContext N → ToolInput J
  tone_input ctx =
      ("content", j.json_string ctx.draft_content)
      ∷ ("targetTone", j.json_string (tone_name ctx.target_tone))
      ∷ []

module _ {N J W : Type 0} (v : AgentServices N J W) (j : OptimizerJson J)
    (parse : String → Settled OptimizedOutput) where
  -- The rewriting by the model; `parse` is `JSON.parse` and then the schema of the answer.
  unfoldable pub rewrite : ToolOutput J → ℕ → ToolOutput J → M N (Shared W) (Unit {0})
  rewrite seo started tone = do
    result ← ask_model v parse "openai" (optimize_request j (seo_data j seo) tone)
    assign (with_optimized result)
    note_step v optimizer "openai" no_tokens started

  -- The agent from the tone analysis on.
  unfoldable pub polish : ToolOutput J → ℕ → M N (Shared W) (Unit {0})
  unfolding rewrite
  polish seo started = use_tool v "tone_analyzer" (tone_input j) >>= rewrite seo started

  unfoldable pub optimize : ℕ → ToolOutput J → M N (Shared W) (Unit {0})
  unfolding polish
  optimize started seo = assign (with_keywords (seo_data j seo)) >> polish seo started

  -- `run`.
  unfoldable pub run : M N (Shared W) (Unit {0})
  unfolding optimize
  run s =
      (checked optimizer
          >> (use_tool v "seo_keyword_extractor" (seo_input j) >>= optimize (v.now s.world)))
        s
