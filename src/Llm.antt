-- ===== src/Llm.antt =====
-- src/llm: the circuit breaker of a provider, and the router with retries and fallback.
pub mod Breaker
pub mod Provider
pub mod Router
pub mod Providers
