-- ===== src/Resilience/Tests.antt =====
-- The laws of degradation at concrete reasons.
use ai_content_platform.Prelude.{◌≡◌, refl, [], ◌∷◌}
use ai_content_platform.Resilience.{
  rag_timeout, llm_fallback, DegradedExecutionContext, fresh, append, has_reason,
}

abbrev slow : DegradedExecutionContext
slow = record { reasons = rag_timeout ∷ [] }

degrading : Unit {0}
unfolding append has_reason fresh
degrading = tt

two_reasons :
    (append rag_timeout (append llm_fallback slow)).reasons ≡ rag_timeout ∷ llm_fallback ∷ []
unfolding degrading
two_reasons = refl
