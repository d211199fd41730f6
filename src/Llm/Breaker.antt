-- ===== src/Llm/Breaker.antt =====
-- src/llm/circuit-breaker.ts. `Date.now()` is an argument of the calls that read it.
pub mod Laws
use ai_content_platform.Prelude.{ℕ, ◌+◌, Bool, true, false, leb, if◌then◌else◌}

pub data CircuitState : Type 0 where
  closed open_circuit half_open : CircuitState

pub record ProviderCircuitBreaker : Type 0 where
  pub state : CircuitState
  pub failure_count : ℕ
  pub last_failure_time : ℕ
  pub failure_threshold : ℕ
  pub cooldown_ms : ℕ

unfoldable pub new_breaker : ℕ → ℕ → ProviderCircuitBreaker
new_breaker failure_threshold cooldown_ms = record {
  state = closed;
  failure_count = 0;
  last_failure_time = 0;
  failure_threshold = failure_threshold;
  cooldown_ms = cooldown_ms;
}

-- `Date.now() - lastFailureTime >= cooldownMs`, free of the subtraction, which is of integers.
abbrev pub has_cooled : ProviderCircuitBreaker → ℕ → Bool
has_cooled b now = leb (b.last_failure_time + b.cooldown_ms) now

is_open_at : CircuitState → ℕ → ProviderCircuitBreaker → Bool × ProviderCircuitBreaker
is_open_at open_circuit now b =
    if has_cooled b now then (false, record b { state = half_open }) else (true, b)
is_open_at _ now b = (false, b)

-- The test, and the breaker after it.
unfoldable pub is_open : ℕ → ProviderCircuitBreaker → Bool × ProviderCircuitBreaker
unfolding is_open_at
is_open now b = is_open_at b.state now b

unfoldable pub record_success : ProviderCircuitBreaker → ProviderCircuitBreaker
record_success b = record b { failure_count = 0; state = closed }

unfoldable pub record_failure : ℕ → ProviderCircuitBreaker → ProviderCircuitBreaker
record_failure now b =
    let counted = record b { failure_count = b.failure_count + 1; last_failure_time = now } in
    if leb b.failure_threshold (b.failure_count + 1)
    then record counted { state = open_circuit }
    else counted
