-- ===== src/Rag.antt =====
-- src/rag: documents are split into chunks, embedded and searched.
pub mod Splitter
pub mod Store
pub mod Service
pub mod Qdrant
pub mod Parser
