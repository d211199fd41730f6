-- ===== src/Contracts.antt =====
-- src/contracts: the zod schemas that guard the module boundaries, over the typed values of the
-- model. A schema is the list of its checks in the schema's order. zod itself is a parameter: its
-- primitive checks and the text of its issues.
pub mod Laws
pub mod Registry
use ai_content_platform.Prelude.{
  ℕ, String, ◌≡◌, ◌↔◌, ◌≤◌, Bool, true, false, ◌&&◌, Option, none, some, List, [], ◌∷◌, ◌++◌,
  length, str_length, if◌then◌else◌,
}
use ai_content_platform.Domain.{
  Tone, ContentType, JobStatus, ContentResult, ToneAnalysis, ChunkMetadata, SearchResult,
}
use ai_content_platform.Exceptions.{contract_violation, Settled, resolved, rejected}

-- The primitive checks on strings, array lengths, fractional and whole numbers. `report` is the
-- text made of the issues.
pub record Zod (N : Type 0) : Type 0 where
  pub string_min : ℕ → String → Bool
  pub string_max : ℕ → String → Bool
  pub string_datetime : String → Bool
  pub string_semver : String → Bool
  pub array_min : ℕ → ℕ → Bool
  pub array_max : ℕ → ℕ → Bool
  pub number_min : ℕ → N → Bool
  pub number_max : ℕ → N → Bool
  pub int_min : ℕ → ℕ → Bool
  pub int_max : ℕ → ℕ → Bool
  pub report : List Bool → String

-- What zod documents of the checks that the theorems rely on.
pub record IsZod {N : Type 0} (z : Zod N) : Type 0 where
  pub string_min_lem : (n : ℕ) (s : String) → (z.string_min n s ≡ true) ↔ (n ≤ str_length s)
  pub string_max_lem : (n : ℕ) (s : String) → (z.string_max n s ≡ true) ↔ (str_length s ≤ n)
  pub array_min_lem : (n k : ℕ) → (z.array_min n k ≡ true) ↔ (n ≤ k)
  pub array_max_lem : (n k : ℕ) → (z.array_max n k ≡ true) ↔ (k ≤ n)
  pub int_min_lem : (n k : ℕ) → (z.int_min n k ≡ true) ↔ (n ≤ k)
  pub int_max_lem : (n k : ℕ) → (z.int_max n k ≡ true) ↔ (k ≤ n)

abbrev pub passes : List Bool → Bool
passes [] = true
passes (b ∷ bs) = b && passes bs

-- A check of an optional field.
abbrev pub optional {ℓ} : {A : Type ℓ} → (A → Bool) → Option A → Bool
optional p none = true
optional p (some a) = p a

module _ {N : Type 0} (z : Zod N) where
  -- `safeParse`, and the exception that each caller makes of its failure.
  unfoldable pub enforce : {A : Type 0} → String → (A → List Bool) → A → Settled A
  enforce name checks a =
      if passes (checks a)
      then resolved a
      else rejected (contract_violation name (z.report (checks a)))

  unit_interval : N → Bool
  unit_interval x = z.number_min 0 x && z.number_max 1 x

  unfoldable pub tone_analysis_checks : ToneAnalysis N → List Bool
  unfolding unit_interval
  tone_analysis_checks t = unit_interval t.confidence ∷ []

  unfoldable pub content_result_checks : ContentResult N → List Bool
  unfolding tone_analysis_checks
  content_result_checks r =
      z.number_min 0 r.readability_score
        ∷ z.number_max 100 r.readability_score
        ∷ tone_analysis_checks r.tone_analysis
      ++ z.int_min 0 r.word_count ∷ []

  unfoldable pub document_chunk_checks : ChunkMetadata → List Bool
  document_chunk_checks m =
      z.string_min 1 m.document_id
      ∷ z.string_min 1 m.brand_id
      ∷ z.string_min 1 m.filename
      ∷ optional (z.int_min 0) m.page
      ∷ z.int_min 0 m.chunk_index
      ∷ []

  unfoldable pub retrieval_result_checks : SearchResult N → List Bool
  unfolding document_chunk_checks unit_interval
  retrieval_result_checks r =
      z.string_min 1 r.chunk_id
      ∷ z.string_min 1 r.content
      ∷ unit_interval r.score
      ∷ document_chunk_checks r.metadata

  unfoldable pub planner_output_checks :
      (outline search_queries key_messages : List String) → ℕ → List Bool
  planner_output_checks outline search_queries key_messages word_count_target =
      z.array_min 3 (length outline)
      ∷ z.array_max 10 (length outline)
      ∷ z.array_min 2 (length search_queries)
      ∷ z.array_max 8 (length search_queries)
      ∷ z.int_min 200 word_count_target
      ∷ z.int_max 5000 word_count_target
      ∷ z.array_min 1 (length key_messages)
      ∷ []

-- `ContentGenerationJobContractV1`: the queued payload with the metadata that `enqueue` adds.
pub record ContentGenerationJob : Type 0 where
  pub job_id : String
  pub brand_id : String
  pub topic : String
  pub content_type : ContentType
  pub correlation_id : String
  pub idempotency_key : String
  pub enqueued_at : String

unfoldable pub content_generation_job_checks :
    {N : Type 0} → Zod N → ContentGenerationJob → List Bool
content_generation_job_checks z j =
    z.string_min 1 j.job_id
    ∷ z.string_min 1 j.brand_id
    ∷ z.string_min 1 j.topic
    ∷ z.string_max 300 j.topic
    ∷ z.string_min 1 j.correlation_id
    ∷ z.string_min 1 j.idempotency_key
    ∷ z.string_datetime j.enqueued_at
    ∷ []

-- `JobStateContractV1`.
pub record JobState (N : Type 0) : Type 0 where
  pub job_id : String
  pub brand_id : String
  pub content_type : ContentType
  pub status : JobStatus
  pub result : Option (ContentResult N)
  pub error_message : Option String
  pub updated_at : Option String

unfoldable pub job_state_checks : {N : Type 0} → Zod N → JobState N → List Bool
unfolding content_result_checks
job_state_checks z j =
    z.string_min 1 j.job_id
    ∷ z.string_min 1 j.brand_id
    ∷ optional (λ r. passes (content_result_checks z r)) j.result
    ∷ optional z.string_datetime j.updated_at
    ∷ []

-- `EvaluationResultContractV1`, whose dimensions stand in it.
pub record EvaluationDimensions (N : Type 0) : Type 0 where
  pub relevance : N
  pub tone : N
  pub detected : String
  pub target : String
  pub factuality : N
  pub supported_claims : ℕ
  pub total_claims : ℕ
  pub readability : N

pub record EvaluationResult (N : Type 0) : Type 0 where
  pub job_id : String
  pub brand_id : String
  pub content_type : ContentType
  pub model_id : String
  pub prompt_version : String
  pub relevance_score : N
  pub tone_score : N
  pub factuality_score : N
  pub readability_score : N
  pub composite_score : N
  pub dimensions : EvaluationDimensions N

module _ {N : Type 0} (z : Zod N) where
  unfoldable pub dimension_checks : EvaluationDimensions N → List Bool
  unfolding unit_interval
  dimension_checks d =
      unit_interval z d.relevance
      ∷ unit_interval z d.tone
      ∷ z.string_min 1 d.detected
      ∷ z.string_min 1 d.target
      ∷ unit_interval z d.factuality
      ∷ z.int_min 0 d.supported_claims
      ∷ z.int_min 0 d.total_claims
      ∷ unit_interval z d.readability
      ∷ []

  unfoldable pub evaluation_result_checks : EvaluationResult N → List Bool
  unfolding dimension_checks unit_interval
  evaluation_result_checks r =
      z.string_min 1 r.job_id
      ∷ z.string_min 1 r.brand_id
      ∷ z.string_min 1 r.model_id
      ∷ z.string_semver r.prompt_version
      ∷ unit_interval z r.relevance_score
      ∷ unit_interval z r.tone_score
      ∷ unit_interval z r.factuality_score
      ∷ unit_interval z r.readability_score
      ∷ unit_interval z r.composite_score
      ∷ dimension_checks r.dimensions
