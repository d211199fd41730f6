-- ===== src/Streaming.antt =====
-- src/streaming: the events of a content stream, and the service that keeps the open streams.
pub mod Events
pub mod Service
