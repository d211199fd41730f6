-- ===== src/Llm/Provider.antt =====
-- src/common/interfaces/llm-provider.interface.ts. `N` stands for fractional numbers, `J` for JSON
-- values, `S` for the state that a call may change.
use ai_content_platform.Prelude.{ℕ, String, Bool, Option, List}
use ai_content_platform.Domain.{TokenUsage, LlmProvider}
use ai_content_platform.Exceptions.{Thrown, Settled}

pub data MessageRole : Type 0 where
  system user assistant : MessageRole

pub data ResponseFormat : Type 0 where
  text json : ResponseFormat

pub record LlmMessage : Type 0 where
  pub role : MessageRole
  pub content : String

pub record LlmTool (J : Type 0) : Type 0 where
  pub name : String
  pub description : String
  pub parameters : J

pub record LlmToolCall (J : Type 0) : Type 0 where
  pub id : String
  pub name : String
  pub arguments : J

pub record LlmCompletionRequest (N J : Type 0) : Type 0 where
  pub messages : List LlmMessage
  pub model : Option String
  pub temperature : Option N
  pub max_tokens : Option ℕ
  pub tools : Option (List (LlmTool J))
  pub response_format : Option ResponseFormat
  pub system_prompt : Option String

pub record LlmCompletionResponse (J : Type 0) : Type 0 where
  pub content : String
  pub tool_calls : Option (List (LlmToolCall J))
  pub usage : TokenUsage
  pub model : String
  pub provider : LlmProvider

pub record LlmStreamChunk : Type 0 where
  pub delta : String
  pub done : Bool
  pub usage : Option TokenUsage

-- A call returns its outcome and the state when it settles. A stream's outcome is the chunks that
-- it delivered, and the error that ended it, if any.
pub record IllmProvider (N J S : Type 0) : Type 0 where
  pub provider : String
  pub supported_models : List String
  pub complete : LlmCompletionRequest N J → S → Settled (LlmCompletionResponse J) × S
  pub stream : LlmCompletionRequest N J → S → (List LlmStreamChunk × Option Thrown) × S
  pub embed : List String → S → Settled (List (List N)) × S
  pub is_available : S → Bool × S
