-- ===== src/Llm/Providers/Gemini.antt =====
-- src/llm/providers/gemini.provider.ts. The client of the Google SDK is a parameter: a chat that is
-- started and then sent a message. The text of an answer that was blocked throws.
pub mod Chat
use ai_content_platform.Prelude.{
  ℕ, String, Bool, true, false, Option, none, some, List, [], ◌∷◌, is_truthy, map, keep,
  if◌then◌else◌,
}
use ai_content_platform.Domain.{TokenUsage, gemini, provider_key}
use ai_content_platform.Exceptions.{Thrown, error, Settled, resolved, rejected}
use ai_content_platform.Llm.Provider.{
  MessageRole, LlmMessage, LlmCompletionRequest, LlmCompletionResponse, LlmStreamChunk,
  IllmProvider, system, user, assistant,
}
use ai_content_platform.Llm.Providers.OpenAi.{or_default}
use ai_content_platform.Llm.Providers.Claude.{is_dialogue}

pub record UsageMeta : Type 0 where
  pub prompt_token_count : Option ℕ
  pub candidates_token_count : Option ℕ
  pub total_token_count : Option ℕ

pub record GeminiResponse : Type 0 where
  pub content : Settled String
  pub usage_metadata : Option UsageMeta

pub record GeminiTurn : Type 0 where
  pub role : String
  pub content : String

pub record GeminiChat (N : Type 0) : Type 0 where
  pub model : String
  pub history : List GeminiTurn
  pub system_instruction : Option String
  pub temperature : N
  pub max_output_tokens : ℕ

-- What a streamed answer consists of: its chunks, each a text that may throw, the error that ends
-- it, if any, and the whole response.
pub record GeminiStream : Type 0 where
  pub chunks : List (Settled String)
  pub end_error : Option Thrown
  pub response : Settled GeminiResponse

pub record GeminiService (N S : Type 0) : Type 0 where
  pub send_message : GeminiChat N → String → S → Settled GeminiResponse × S
  pub send_message_stream : GeminiChat N → String → S → Settled GeminiStream × S
  pub generate_content : String → S → Settled (Unit {0}) × S
  pub default_model : String
  pub default_temperature : N

pub record BuiltChat : Type 0 where
  pub history : List GeminiTurn
  pub last_user_message : String
  pub system_instruction : String

abbrev role_of : MessageRole → String
role_of assistant = "model"
role_of user = "user"
role_of system = "user"

abbrev pub turn_of : LlmMessage → GeminiTurn
turn_of m = record { role = role_of m.role; content = m.content }

-- All but the last message, and the content of the last.
unfoldable pub split_last : LlmMessage → List LlmMessage → List LlmMessage × String
split_last m [] = ([], m.content)
split_last m (n ∷ ms) = (m ∷ (split_last n ms).0, (split_last n ms).1)

abbrev chat_of : String → List LlmMessage → BuiltChat
chat_of instruction [] = record {
  history = [];
  last_user_message = "";
  system_instruction = instruction;
}
chat_of instruction (m ∷ ms) = record {
  history = map turn_of (split_last m ms).0;
  last_user_message = (split_last m ms).1;
  system_instruction = instruction;
}

abbrev counted : Option UsageMeta → TokenUsage
counted none = record { prompt_tokens = 0; completion_tokens = 0; total_tokens = 0 }
counted (some u) = record {
  prompt_tokens = or_default u.prompt_token_count 0;
  completion_tokens = or_default u.candidates_token_count 0;
  total_tokens = or_default u.total_token_count 0;
}

final_chunk : Settled GeminiResponse → List LlmStreamChunk × Option Thrown
final_chunk (rejected e) = ([], some e)
final_chunk (resolved r) =
    (record { delta = ""; done = true; usage = some (counted r.usage_metadata) } ∷ [], none)

-- The loop over the chunks, and the last chunk after it.
unfoldable pub forwarded :
    List (Settled String)
    → Option Thrown
    → Settled GeminiResponse
    → List LlmStreamChunk × Option Thrown
unfolding final_chunk
forwarded [] none response = final_chunk response
forwarded [] (some e) response = ([], some e)
forwarded (rejected e ∷ chunks) end_error response = ([], some e)
forwarded (resolved t ∷ chunks) end_error response =
    let rest = forwarded chunks end_error response in
    (record { delta = t; done = false; usage = none } ∷ rest.0, rest.1)

module _ {N J : Type 0} where
  unfoldable pub build_chat : LlmCompletionRequest N J → BuiltChat
  unfolding split_last
  build_chat request =
      chat_of (or_default request.system_prompt "")
        (keep (λ m. is_dialogue m.role) request.messages)

module _ {S : Type 0} where
  streamed : Settled GeminiStream × S → (List LlmStreamChunk × Option Thrown) × S
  unfolding forwarded
  streamed (rejected e, s) = (([], some e), s)
  streamed (resolved given, s) = (forwarded given.chunks given.end_error given.response, s)

  available : Settled (Unit {0}) × S → Bool × S
  available (resolved a, s) = (true, s)
  available (rejected e, s) = (false, s)

module _ {N J S : Type 0} (v : GeminiService N S) where
  unfoldable pub started_chat : LlmCompletionRequest N J → GeminiChat N
  unfolding build_chat
  started_chat request =
      let built = build_chat request in
      record {
        model = or_default request.model v.default_model;
        history = built.history;
        system_instruction =
            if is_truthy built.system_instruction then some built.system_instruction else none;
        temperature = or_default request.temperature v.default_temperature;
        max_output_tokens = or_default request.max_tokens 4096;
      }

  answer :
      LlmCompletionRequest N J
      → Option UsageMeta
      → Settled String
      → Settled (LlmCompletionResponse J)
  answer request usage (rejected e) = rejected e
  answer request usage (resolved t) = resolved (record {
    content = t;
    tool_calls = none;
    usage = counted usage;
    model = or_default request.model v.default_model;
    provider = gemini;
  })

  answered :
      LlmCompletionRequest N J → Settled GeminiResponse × S → Settled (LlmCompletionResponse J) × S
  unfolding answer
  answered request (rejected e, s) = (rejected e, s)
  answered request (resolved r, s) = (answer request r.usage_metadata r.content, s)

  unfoldable pub complete : LlmCompletionRequest N J → S → Settled (LlmCompletionResponse J) × S
  unfolding answered started_chat
  complete request s =
      answered request
        (v.send_message (started_chat request) (build_chat request).last_user_message s)

  unfoldable pub stream : LlmCompletionRequest N J → S → (List LlmStreamChunk × Option Thrown) × S
  unfolding streamed started_chat
  stream request s =
      streamed
        (v.send_message_stream (started_chat request) (build_chat request).last_user_message s)

  -- `GeminiProvider`.
  unfoldable pub gemini_provider : IllmProvider N J S
  unfolding complete stream available
  gemini_provider = record {
    provider = provider_key gemini;
    supported_models = "gemini-1.5-pro" ∷ "gemini-1.5-flash" ∷ "gemini-1.0-pro" ∷ [];
    complete = complete;
    stream = stream;
    embed = λ texts s. (rejected (error "Use OpenAI provider for embeddings."), s);
    is_available = λ s. available (v.generate_content v.default_model s);
  }
