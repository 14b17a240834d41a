-- ===== src/Ingestion.antt =====
-- src/rag/ingestion: from the bytes of a file to embedded chunks.
pub mod Errors
pub mod Models
pub mod Chunking
pub mod Batches
pub mod Service
pub mod Normalization
