-- ===== src/Agents.antt =====
-- src/agents: the context of a pipeline run, the orchestrator and the agents.
pub mod Context
pub mod Orchestrator
pub mod Services
pub mod Planner
pub mod Generator
pub mod Optimizer
pub mod Qa
pub mod Researcher
pub mod Ranking
pub mod Pipeline
mod Tests
