-- ===== src/Tools.antt =====
-- src/tools: the registry of the tools that the agents call, and the tools themselves.
pub mod Registry
pub mod Llm
pub mod Readability
