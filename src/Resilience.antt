-- ===== src/Resilience.antt =====
-- src/resilience: the degradation record of one pipeline run, and the threshold decisions.
pub mod Laws
mod Tests
use ai_content_platform.Prelude.{
  ℕ, String, Bool, true, false, List, [], ◌∷◌, ◌++◌, ◌||◌, leb, if◌then◌else◌,
}

pub data DegradationReason : Type 0 where
  rag_timeout llm_fallback queue_overload contract_retry optional_agent_skipped memory_timeout
        contract_violation :
      DegradationReason

-- The string literal of a reason, as it is persisted and counted.
abbrev pub reason_name : DegradationReason → String
reason_name rag_timeout = "rag_timeout"
reason_name llm_fallback = "llm_fallback"
reason_name queue_overload = "queue_overload"
reason_name contract_retry = "contract_retry"
reason_name optional_agent_skipped = "optional_agent_skipped"
reason_name memory_timeout = "memory_timeout"
reason_name contract_violation = "contract_violation"

abbrev pub reason_eq : DegradationReason → DegradationReason → Bool
reason_eq rag_timeout rag_timeout = true
reason_eq llm_fallback llm_fallback = true
reason_eq queue_overload queue_overload = true
reason_eq contract_retry contract_retry = true
reason_eq optional_agent_skipped optional_agent_skipped = true
reason_eq memory_timeout memory_timeout = true
reason_eq contract_violation contract_violation = true
reason_eq _ _ = false

-- `DegradedExecutionContext`: its private `_reasons`, oldest first.
pub record DegradedExecutionContext : Type 0 where
  pub reasons : List DegradationReason

unfoldable pub fresh : DegradedExecutionContext
fresh = record { reasons = [] }

unfoldable pub has_reason : DegradationReason → List DegradationReason → Bool
has_reason r [] = false
has_reason r (x ∷ xs) = reason_eq x r || has_reason r xs

abbrev is_nonempty {ℓ} : {A : Type ℓ} → List A → Bool
is_nonempty [] = false
is_nonempty (x ∷ xs) = true

unfoldable pub is_degraded : DegradedExecutionContext → Bool
is_degraded d = is_nonempty d.reasons

unfoldable pub append : DegradationReason → DegradedExecutionContext → DegradedExecutionContext
append r d = if has_reason r d.reasons then d else record d { reasons = d.reasons ++ r ∷ [] }

-- `DegradationService`: the thresholds of the configuration, and the decisions on them.
pub record DegradationService : Type 0 where
  pub queue_depth_threshold : ℕ
  pub rag_timeout_ms : ℕ
  pub latency_budget_ms : ℕ

unfoldable pub is_queue_overloaded : DegradationService → ℕ → Bool
is_queue_overloaded s depth = leb s.queue_depth_threshold depth

unfoldable pub is_latency_budget_exceeded : DegradationService → ℕ → Bool
is_latency_budget_exceeded s elapsed_ms = leb s.latency_budget_ms elapsed_ms
