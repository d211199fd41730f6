-- ===== src/Evaluation.antt =====
-- src/evaluation: the scores of a finished run.
pub mod Evaluators
pub mod Service
