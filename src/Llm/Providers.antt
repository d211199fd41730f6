-- ===== src/Llm/Providers.antt =====
-- src/llm/providers: the adapters to the vendors, whose clients are parameters.
pub mod OpenAi
pub mod Alibaba
pub mod Claude
pub mod Gemini
mod Tests
