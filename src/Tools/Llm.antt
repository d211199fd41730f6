-- ===== src/Tools/Llm.antt =====
-- src/tools/tools: the tools that ask a model. `J` stands for JSON values; an input is an object of
-- them, and `shown_json` is what a template makes of a value or of a missing one.
use ai_content_platform.Prelude.{String, true, false, Option, none, some, [], ◌∷◌, lookup}
use ai_content_platform.Exceptions.{Thrown, Settled, resolved, rejected, ◌+s◌}
use ai_content_platform.Llm.Provider.{LlmCompletionRequest, user}
use ai_content_platform.Llm.Router.{Router, RouterState, RouterOptions}
use ai_content_platform.Llm.Router.Stream.{complete_structured}
use ai_content_platform.Tools.Registry.{ToolInput, ToolOutput, Itool}

-- What the tools use: `parse` is `JSON.parse` and then the tool's schema, `schema` the JSON schema
-- of its input, `shown` is `String(err)`.
pub record ToolServices (N J W : Type 0) : Type 0 where
  pub router : Router N J W
  pub parse : String → String → Settled J
  pub schema : String → J
  pub shown : Thrown → String
  pub shown_json : Option J → String

-- `a ?? b` of a value that is shown.
abbrev pub shown_or {ℓ} : {J : Type ℓ} → (Option J → String) → Option J → String → String
shown_or shown none default' = default'
shown_or shown (some j) default' = shown (some j)

abbrev pub ask_user : {N J : Type 0} → String → String → LlmCompletionRequest N J
ask_user content system_prompt = record {
  messages = record { role = user; content = content } ∷ [];
  model = none;
  temperature = none;
  max_tokens = none;
  tools = none;
  response_format = none;
  system_prompt = some system_prompt;
}

module _ {N J W : Type 0} (v : ToolServices N J W) where
  abbrev options_for : String → RouterOptions N W
  options_for provider = record {
    preferred_provider = some provider;
    model = none;
    temperature = none;
    max_tokens = none;
    on_fallback = λ key s. s;
  }

  reported : Settled J × RouterState W → Settled (ToolOutput J) × RouterState W
  reported (resolved result, s) =
      (resolved (record { success = true; result = some result; error_text = none }), s)
  reported (rejected err, s) =
      (resolved (record { success = false; result = none; error_text = some (v.shown err) }), s)

  -- `execute` of such a tool, given its name, its provider and its prompts.
  unfoldable pub execute_llm :
      String
      → String
      → (ToolInput J → LlmCompletionRequest N J)
      → ToolInput J
      → RouterState W
      → Settled (ToolOutput J) × RouterState W
  unfolding reported
  execute_llm name provider request input s =
      reported (
        complete_structured v.router (v.parse name) v.shown (options_for provider) (request input)
          s)

  unfoldable pub seo_request : ToolInput J → LlmCompletionRequest N J
  seo_request input =
      ask_user
        ("Analyze this content and extract SEO data. Topic: "
          +s shown_or v.shown_json (lookup "topic" input) ""
          +s "\n\nContent:\n"
          +s v.shown_json (lookup "content" input))
        "You are an SEO expert. Analyze content and return JSON with:\n- primaryKeyword: main keyword phrase (2-4 words)\n- secondaryKeywords: 5-8 related keywords\n- longTailKeywords: 3-5 long-tail keyword phrases\n- searchIntent: one of informational|transactional|navigational|commercial\n- suggestedTitle: SEO-optimized title (50-60 chars)\n- metaDescription: compelling meta description (max 160 chars)\n\nReturn only valid JSON."

  unfoldable pub seo_keyword_tool : Itool J (RouterState W)
  unfolding execute_llm seo_request
  seo_keyword_tool = record {
    name = "seo_keyword_extractor";
    description =
        "Extracts SEO keywords, identifies search intent, and suggests meta title and description for content";
    input_schema = v.schema "seo_keyword_extractor";
    execute = execute_llm "seo_keyword_extractor" "openai" seo_request;
  }

  unfoldable pub tone_request : ToolInput J → LlmCompletionRequest N J
  tone_request input =
      ask_user
        ("Analyze the tone of this content. Target tone: "
          +s shown_or v.shown_json (lookup "targetTone" input) "FORMAL"
          +s "\n\nContent:\n"
          +s v.shown_json (lookup "content" input))
        "You are a linguistics expert. Analyze content tone and return JSON with:\n- detected: primary detected tone (FORMAL|CASUAL|TECHNICAL|FRIENDLY|PERSUASIVE)\n- confidence: confidence score 0-1\n- scores: score 0-1 for each tone: FORMAL, CASUAL, TECHNICAL, FRIENDLY, PERSUASIVE\n- suggestions: 2-4 specific improvements to better match the target tone\n- alignedWithTarget: true if detected tone matches the target\n\nReturn only valid JSON."

  unfoldable pub tone_analyzer_tool : Itool J (RouterState W)
  unfolding execute_llm tone_request
  tone_analyzer_tool = record {
    name = "tone_analyzer";
    description = "Analyzes the tone of content and compares it against a target tone";
    input_schema = v.schema "tone_analyzer";
    execute = execute_llm "tone_analyzer" "openai" tone_request;
  }

  unfoldable pub summary_request : ToolInput J → LlmCompletionRequest N J
  summary_request input =
      let max_length = shown_or v.shown_json (lookup "maxLength" input) "150" in
      ask_user
        ("Summarize this content in max "
          +s max_length
          +s " words:\n\n"
          +s v.shown_json (lookup "content" input))
        ("You are a professional editor. Create a summary and return JSON with:\n- summary: concise summary (max "
          +s max_length
          +s " words)\n- keyPoints: 3-5 key takeaways as bullet strings\n- tldr: one-sentence TL;DR (max 280 chars)\n\nReturn only valid JSON.")

  unfoldable pub summarizer_tool : Itool J (RouterState W)
  unfolding execute_llm summary_request
  summarizer_tool = record {
    name = "summarizer";
    description = "Produces a concise summary, key points, and TL;DR of content";
    input_schema = v.schema "summarizer";
    execute = execute_llm "summarizer" "claude" summary_request;
  }
