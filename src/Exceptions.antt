-- ===== src/Exceptions.antt =====
-- src/common/exceptions/domain.exceptions.ts, and the outcome of a promise.
use ai_content_platform.Prelude.{ℕ, List, [], ◌∷◌}
use Prim.Native.String
use Prim.Native.String.{String}

-- What a `throw` carries: an `Error` with its message, one of the domain's exceptions, or a value
-- that is no `Error`.
pub data Thrown : Type 0 where
  error : String → Thrown
  brand_not_found : String → Thrown
  document_not_found : String → Thrown
  content_job_not_found : String → Thrown
  llm_provider_exhausted : List String → Thrown
  document_processing : String → String → Thrown
  stream_not_found : String → Thrown
  contract_violation : String → String → Thrown
  other : Thrown

infixr 66 ◌+s◌
abbrev pub ◌+s◌ : String → String → String
a +s b = String.◌++◌ a b

-- `list.join(separator)`.
abbrev pub join : String → List String → String
join sep [] = ""
join sep (x ∷ []) = x
join sep (x ∷ y ∷ r) = x +s sep +s join sep (y ∷ r)

-- The message that the constructor passes on; for a value that is no `Error`, nothing is read.
unfoldable pub message : Thrown → String
message (error m) = m
message (brand_not_found id) = "Brand '" +s id +s "' not found"
message (document_not_found id) = "Document '" +s id +s "' not found"
message (content_job_not_found id) = "Content job '" +s id +s "' not found"
message (llm_provider_exhausted tried) = "All LLM providers exhausted. Tried: " +s join ", " tried
message (document_processing id reason) = "Document '" +s id +s "' processing failed: " +s reason
message (stream_not_found id) = "Stream '" +s id +s "' not found"
message (contract_violation name issues) = "Contract violation [" +s name +s "]: " +s issues
message other = ""

-- The HTTP status; what is no `HttpException` is answered with 500 by the framework.
unfoldable pub http_status : Thrown → ℕ
http_status (error m) = 500
http_status (brand_not_found id) = 404
http_status (document_not_found id) = 404
http_status (content_job_not_found id) = 404
http_status (llm_provider_exhausted tried) = 503
http_status (document_processing id reason) = 422
http_status (stream_not_found id) = 404
http_status (contract_violation name issues) = 422
http_status other = 500

-- The outcome of a call that may throw, or of a promise that has settled.
pub data Settled {ℓ} (A : Type ℓ) : Type ℓ where
  resolved : A → Settled A
  rejected : Thrown → Settled A
