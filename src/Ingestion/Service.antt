-- ===== src/Ingestion/Service.antt =====
-- src/rag/ingestion/service.py: one ingestion attempt for a document version.
pub mod Embed
pub mod Vectors
pub mod Attempt
pub mod Protocol
pub mod Invariants
