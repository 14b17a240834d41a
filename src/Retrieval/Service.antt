-- ===== src/Retrieval/Service.antt =====
-- src/rag/retrieval/service.py: from a question to a grounded answer.
pub mod Config
pub mod Search
pub mod Answer
pub mod Pipeline
pub mod Grounded
