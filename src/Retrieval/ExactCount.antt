-- ===== src/Retrieval/ExactCount.antt =====
-- src/rag/retrieval/exact_count.py: how often a word or phrase stands in the blocks of documents.
pub mod Request
pub mod Count
pub mod Answer
pub mod Totals
pub mod Sources
