-- ===== src/Ingestion/Normalization.antt =====
-- src/rag/ingestion/normalization.py: the clean-up of text and of repeated page margins.
pub mod Clean
pub mod Margins
pub mod Kept
