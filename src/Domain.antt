-- ===== src/Domain.antt =====
-- src/common/types/domain.types.ts: the enumerations and value objects that the modules share. A
-- fractional `number` (a score) is a value of a type parameter `N`. The free-form `input` and
-- `output` records of a step, which no code reads, are left out of `AgentStep`.
use ai_content_platform.Prelude.{ℕ, String, Bool, Option, List}

pub data Tone : Type 0 where
  formal casual technical friendly persuasive : Tone

pub data ContentType : Type 0 where
  blog social email landing_page product_description : ContentType

pub data DocumentStatus : Type 0 where
  pending chunking embedding ready failed : DocumentStatus

pub data JobStatus : Type 0 where
  queued running retrying done failed cancelled : JobStatus

pub data AgentRole : Type 0 where
  planner researcher generator optimizer qa : AgentRole

pub data LlmProvider : Type 0 where
  openai claude gemini alibaba : LlmProvider

-- The string value of a member, which keys the provider map.
abbrev pub provider_key : LlmProvider → String
provider_key openai = "openai"
provider_key claude = "claude"
provider_key gemini = "gemini"
provider_key alibaba = "alibaba"

pub JobStatus-discrete : Discrete JobStatus
JobStatus-discrete = hlevel

pub AgentRole-discrete : Discrete AgentRole
AgentRole-discrete = hlevel

pub record TokenUsage : Type 0 where
  pub prompt_tokens : ℕ
  pub completion_tokens : ℕ
  pub total_tokens : ℕ

pub record AgentStep : Type 0 where
  pub agent : AgentRole
  pub model_used : String
  pub duration_ms : ℕ
  pub tokens : TokenUsage
  pub started_at : ℕ

pub record ToneAnalysis (N : Type 0) : Type 0 where
  pub detected : Tone
  pub confidence : N
  pub scores : List (String × N)

pub record ContentResult (N : Type 0) : Type 0 where
  pub raw : String
  pub optimized : String
  pub seo_keywords : List String
  pub readability_score : N
  pub tone_analysis : ToneAnalysis N
  pub word_count : ℕ
  pub citations : List String
  pub degraded : Bool
  pub degradation_reasons : List String

pub record ChunkMetadata : Type 0 where
  pub document_id : String
  pub brand_id : String
  pub filename : String
  pub page : Option ℕ
  pub chunk_section : Option String
  pub chunk_index : ℕ

pub record SearchResult (N : Type 0) : Type 0 where
  pub chunk_id : String
  pub content : String
  pub score : N
  pub metadata : ChunkMetadata

pub record BrandConfig : Type 0 where
  pub default_tone : Tone
  pub allowed_models : List String
  pub preferred_provider : LlmProvider
  pub rag_enabled : Bool
  pub system_prompt : String
  pub max_content_length : ℕ
