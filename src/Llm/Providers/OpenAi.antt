-- ===== src/Llm/Providers/OpenAi.antt =====
-- src/llm/providers/openai.provider.ts. The chat client of the OpenAI SDK, which the provider of
-- Alibaba uses too, is a parameter. A stream of the client is the chunks that it yields, with the
-- error that ends it, if any.
pub mod Usage
use ai_content_platform.Prelude.{
  ℕ, String, Bool, true, false, Option, none, some, List, [], ◌∷◌, ◌++◌, is_truthy, if◌then◌else◌,
}
use ai_content_platform.Domain.{TokenUsage, LlmProvider, openai, provider_key}
use ai_content_platform.Exceptions.{Thrown, error, Settled, resolved, rejected}
use ai_content_platform.Llm.Provider.{
  LlmMessage, LlmTool, LlmToolCall, LlmCompletionRequest, LlmCompletionResponse, LlmStreamChunk,
  IllmProvider, ResponseFormat, text, json, system,
}
use ai_content_platform.Llm.Router.{coalesce}
use ai_content_platform.Rag.Service.{bind}

pub record ChatParams (N J : Type 0) : Type 0 where
  pub model : String
  pub messages : List LlmMessage
  pub temperature : N
  pub max_tokens : ℕ
  pub json_object : Bool
  pub tools : Option (List (LlmTool J))

pub record ChatToolCall : Type 0 where
  pub id : String
  pub name : String
  pub arguments : String

pub record ChatMessage : Type 0 where
  pub content : Option String
  pub tool_calls : Option (List ChatToolCall)

pub record ChatResponse : Type 0 where
  pub choices : List ChatMessage
  pub usage : Option TokenUsage

pub record ChunkChoice : Type 0 where
  pub content : Option String
  pub finish_reason : Option String

pub record ChatChunk : Type 0 where
  pub choices : List ChunkChoice
  pub usage : Option TokenUsage

-- The third argument of `embeddings` is the number of dimensions, where one is asked for.
pub record ChatClient (N J S : Type 0) : Type 0 where
  pub create : ChatParams N J → S → Settled ChatResponse × S
  pub create_stream : ChatParams N J → S → Settled (List ChatChunk × Option Thrown) × S
  pub embeddings : String → List String → Option ℕ → S → Settled (List (List N)) × S
  pub list_models : S → Settled (Unit {0}) × S

-- `parse_json` is `JSON.parse`, `default_temperature` the number 0.7.
pub record ChatService (N J S : Type 0) : Type 0 where
  pub client : ChatClient N J S
  pub provider : LlmProvider
  pub supported_models : List String
  pub default_model : String
  pub default_temperature : N
  pub parse_json : String → Settled J

abbrev pub or_default {ℓ} : {A : Type ℓ} → Option A → A → A
or_default none a = a
or_default (some b) a = b

abbrev pub no_usage : TokenUsage
no_usage = record { prompt_tokens = 0; completion_tokens = 0; total_tokens = 0 }

abbrev system_message : Option String → List LlmMessage
system_message none = []
system_message (some p) = if is_truthy p then record { role = system; content = p } ∷ [] else []

abbrev is_json : Option ResponseFormat → Bool
is_json none = false
is_json (some text) = false
is_json (some json) = true

-- `tools?.length`: an empty list counts as none.
abbrev pub nonempty {ℓ} : {A : Type ℓ} → Option (List A) → Option (List A)
nonempty none = none
nonempty (some []) = none
nonempty (some (x ∷ xs)) = some (x ∷ xs)

-- What a stream yields for a chunk.
abbrev first_content : List ChunkChoice → String
first_content [] = ""
first_content (c ∷ cs) = or_default c.content ""

abbrev is_some {ℓ} : {A : Type ℓ} → Option A → Bool
is_some none = false
is_some (some a) = true

abbrev pub is_finished : List ChunkChoice → Bool
is_finished [] = false
is_finished (c ∷ cs) = is_some c.finish_reason

abbrev pub chunk_of : ChatChunk → LlmStreamChunk
chunk_of c = record {
  delta = first_content c.choices;
  done = is_finished c.choices;
  usage = c.usage;
}

-- The loop over the chunks: the finished one is the last that is read.
unfoldable pub forwarded : List ChatChunk → Option Thrown → List LlmStreamChunk × Option Thrown
forwarded [] end_error = ([], end_error)
forwarded (c ∷ cs) end_error =
    let rest = forwarded cs end_error in
    if is_finished c.choices then (chunk_of c ∷ [], none) else (chunk_of c ∷ rest.0, rest.1)

module _ {N J S : Type 0} (v : ChatService N J S) where
  unfoldable pub build_messages : LlmCompletionRequest N J → List LlmMessage
  build_messages request = system_message request.system_prompt ++ request.messages

  unfoldable pub chat_params : LlmCompletionRequest N J → ChatParams N J
  unfolding build_messages
  chat_params request = record {
    model = or_default request.model v.default_model;
    messages = build_messages request;
    temperature = or_default request.temperature v.default_temperature;
    max_tokens = or_default request.max_tokens 4096;
    json_object = is_json request.response_format;
    tools = nonempty request.tools;
  }

  prepended : LlmToolCall J → Settled (List (LlmToolCall J)) → Settled (List (LlmToolCall J))
  prepended c (resolved calls) = resolved (c ∷ calls)
  prepended c (rejected e) = rejected e

  parsed_call :
      ChatToolCall → Settled J → Settled (List (LlmToolCall J)) → Settled (List (LlmToolCall J))
  unfolding prepended
  parsed_call c (resolved arguments) rest =
      prepended (record { id = c.id; name = c.name; arguments = arguments }) rest
  parsed_call c (rejected e) rest = rejected e

  unfoldable pub tool_calls_of : List ChatToolCall → Settled (List (LlmToolCall J))
  unfolding parsed_call
  tool_calls_of [] = resolved []
  tool_calls_of (c ∷ cs) = parsed_call c (v.parse_json c.arguments) (tool_calls_of cs)

  answer :
      LlmCompletionRequest N J
      → ChatMessage
      → Option TokenUsage
      → Settled (List (LlmToolCall J))
      → Settled (LlmCompletionResponse J)
  answer request message usage (rejected e) = rejected e
  answer request message usage (resolved calls) = resolved (record {
    content = or_default message.content "";
    tool_calls = nonempty (some calls);
    usage = or_default usage no_usage;
    model = or_default request.model v.default_model;
    provider = v.provider;
  })

  unfoldable pub response_of :
      LlmCompletionRequest N J → ChatResponse → Settled (LlmCompletionResponse J)
  unfolding answer tool_calls_of
  response_of request response = elim response.choices [
    | [] ↦ rejected (error "Cannot read properties of undefined (reading 'message')")
    | choice ∷ others ↦
        answer request choice response.usage (tool_calls_of (or_default choice.tool_calls []))
  ]

  unfoldable pub complete : LlmCompletionRequest N J → S → Settled (LlmCompletionResponse J) × S
  unfolding response_of chat_params
  complete request s =
      bind (v.client.create (chat_params request) s) λ response t. (response_of request response, t)

  -- A stream asks for neither tools nor JSON.
  abbrev pub stream_params : LlmCompletionRequest N J → ChatParams N J
  stream_params request = record (chat_params request) { json_object = false; tools = none }

  streamed :
      Settled (List ChatChunk × Option Thrown) × S → (List LlmStreamChunk × Option Thrown) × S
  unfolding forwarded
  streamed (rejected e, s) = (([], some e), s)
  streamed (resolved (chunks, end_error), s) = (forwarded chunks end_error, s)

  unfoldable pub stream : LlmCompletionRequest N J → S → (List LlmStreamChunk × Option Thrown) × S
  unfolding streamed
  stream request s = streamed (v.client.create_stream (stream_params request) s)

  available : Settled (Unit {0}) × S → Bool × S
  available (resolved a, s) = (true, s)
  available (rejected e, s) = (false, s)

  unfoldable pub is_available : S → Bool × S
  unfolding available
  is_available s = available (v.client.list_models s)

  -- The provider, given how it embeds.
  abbrev pub chat_provider : (List String → S → Settled (List (List N)) × S) → IllmProvider N J S
  chat_provider embed = record {
    provider = provider_key v.provider;
    supported_models = v.supported_models;
    complete = complete;
    stream = stream;
    embed = embed;
    is_available = is_available;
  }

module _ {N J S : Type 0} (client : ChatClient N J S) where
  abbrev pub openai_service : String → N → (String → Settled J) → ChatService N J S
  openai_service default_model default_temperature parse_json = record {
    client = client;
    provider = openai;
    supported_models = "gpt-4o" ∷ "gpt-4o-mini" ∷ "gpt-4-turbo" ∷ "gpt-3.5-turbo" ∷ [];
    default_model = default_model;
    default_temperature = default_temperature;
    parse_json = parse_json;
  }

  -- `OpenAIProvider`.
  abbrev pub openai_provider :
      (default_model embedding_model : String) → N → (String → Settled J) → IllmProvider N J S
  openai_provider default_model embedding_model default_temperature parse_json =
      chat_provider (openai_service default_model default_temperature parse_json)
        λ texts s. client.embeddings embedding_model texts none s
