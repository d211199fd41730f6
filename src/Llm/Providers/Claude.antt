-- ===== src/Llm/Providers/Claude.antt =====
-- src/llm/providers/claude.provider.ts. The client of the Anthropic SDK is a parameter. A stream of
-- the client is the events that it yields, with the error that ends it, if any, and its final
-- message.
use ai_content_platform.Prelude.{
  ℕ, ◌+◌, String, Bool, true, false, Option, none, some, List, [], ◌∷◌, is_truthy, map, keep,
  if◌then◌else◌, ◌==◌,
}
use ai_content_platform.Domain.{TokenUsage, claude, provider_key}
use ai_content_platform.Exceptions.{Thrown, error, Settled, resolved, rejected, ◌+s◌, join}
use ai_content_platform.Llm.Provider.{
  MessageRole, LlmMessage, LlmTool, LlmToolCall, LlmCompletionRequest, LlmCompletionResponse,
  LlmStreamChunk, IllmProvider, system, user, assistant,
}
use ai_content_platform.Llm.Providers.OpenAi.{or_default, nonempty}

pub record MessageParams (J : Type 0) : Type 0 where
  pub model : String
  pub max_tokens : ℕ
  pub system_prompt : String
  pub messages : List LlmMessage
  pub tools : Option (List (LlmTool J))

pub record Block (J : Type 0) : Type 0 where
  pub kind : String
  pub id : Option String
  pub name : Option String
  pub arguments : Option J
  pub content : Option String

pub record ClaudeUsage : Type 0 where
  pub input_tokens : ℕ
  pub output_tokens : ℕ

pub record ClaudeMessage (J : Type 0) : Type 0 where
  pub content : List (Block J)
  pub usage : ClaudeUsage

pub data ClaudeEvent : Type 0 where
  text_delta : String → ClaudeEvent
  message_stop : ClaudeEvent
  other_event : ClaudeEvent

pub record ClaudeStream : Type 0 where
  pub events : List ClaudeEvent
  pub end_error : Option Thrown
  pub final_usage : Settled ClaudeUsage

-- `empty` is the object `{}`, `api_key` the configured key.
pub record ClaudeService (J S : Type 0) : Type 0 where
  pub create : MessageParams J → S → Settled (ClaudeMessage J) × S
  pub stream_messages : MessageParams J → S → ClaudeStream × S
  pub default_model : String
  pub api_key : String
  pub empty : J

abbrev pub is_system : MessageRole → Bool
is_system system = true
is_system user = false
is_system assistant = false

abbrev pub is_dialogue : MessageRole → Bool
is_dialogue system = false
is_dialogue user = true
is_dialogue assistant = true

abbrev pub usage_of : ClaudeUsage → TokenUsage
usage_of u = record {
  prompt_tokens = u.input_tokens;
  completion_tokens = u.output_tokens;
  total_tokens = u.input_tokens + u.output_tokens;
}

unfoldable pub forwarded :
    List ClaudeEvent → Option Thrown → Settled ClaudeUsage → List LlmStreamChunk × Option Thrown
forwarded [] end_error final = ([], end_error)
forwarded (text_delta t ∷ events) end_error final =
    let rest = forwarded events end_error final in
    (record { delta = t; done = false; usage = none } ∷ rest.0, rest.1)
forwarded (message_stop ∷ events) end_error (resolved u) =
    let rest = forwarded events end_error (resolved u) in
    (record { delta = ""; done = true; usage = some (usage_of u) } ∷ rest.0, rest.1)
forwarded (message_stop ∷ events) end_error (rejected e) = ([], some e)
forwarded (other_event ∷ events) end_error final = forwarded events end_error final

module _ {N J : Type 0} where
  unfoldable pub build_system_prompt : LlmCompletionRequest N J → String
  build_system_prompt request =
      let own = join "\n" (map (λ m. m.content) (keep (λ m. is_system m.role) request.messages)) in
      elim request.system_prompt [
        | none ↦ own
        | some prompt ↦ if is_truthy prompt then prompt +s "\n" +s own else own
      ]

  abbrev pub dialogue : LlmCompletionRequest N J → List LlmMessage
  dialogue request = keep (λ m. is_dialogue m.role) request.messages

module _ {J : Type 0} where
  abbrev pub call_of : J → Block J → LlmToolCall J
  call_of empty b = record {
    id = or_default b.id "";
    name = or_default b.name "";
    arguments = or_default b.arguments empty;
  }

module _ {N J S : Type 0} (v : ClaudeService J S) where
  unfoldable pub message_params : LlmCompletionRequest N J → MessageParams J
  unfolding build_system_prompt
  message_params request = record {
    model = or_default request.model v.default_model;
    max_tokens = or_default request.max_tokens 4096;
    system_prompt = build_system_prompt request;
    messages = dialogue request;
    tools = nonempty request.tools;
  }

  answered :
      LlmCompletionRequest N J
      → Settled (ClaudeMessage J) × S
      → Settled (LlmCompletionResponse J) × S
  answered request (rejected e, s) = (rejected e, s)
  answered request (resolved response, s) = (
    resolved (record {
      content =
          join ""
            (map (λ b. or_default b.content "") (keep (λ b. b.kind == "text") response.content));
      tool_calls =
          nonempty
            (some (map (call_of v.empty) (keep (λ b. b.kind == "tool_use") response.content)));
      usage = usage_of response.usage;
      model = or_default request.model v.default_model;
      provider = claude;
    }),
    s,
  )

  unfoldable pub complete : LlmCompletionRequest N J → S → Settled (LlmCompletionResponse J) × S
  unfolding answered message_params
  complete request s = answered request (v.create (message_params request) s)

  -- A stream asks for no tools.
  unfoldable pub stream : LlmCompletionRequest N J → S → (List LlmStreamChunk × Option Thrown) × S
  unfolding forwarded message_params
  stream request s =
      let given = v.stream_messages (record (message_params request) { tools = none }) s in
      (forwarded given.0.events given.0.end_error given.0.final_usage, given.1)

  -- `ClaudeProvider`.
  abbrev pub claude_provider : IllmProvider N J S
  claude_provider = record {
    provider = provider_key claude;
    supported_models =
        "claude-opus-4-6" ∷ "claude-sonnet-4-6" ∷ "claude-3-5-sonnet-20241022"
        ∷ "claude-haiku-4-5-20251001" ∷ [];
    complete = complete;
    stream = stream;
    embed = λ texts s. (
      rejected (error "Claude provider does not support embeddings. Use OpenAI for embeddings."),
      s,
    );
    is_available = λ s. (is_truthy v.api_key, s);
  }
