-- ===== src/Ingestion/Chunking.antt =====
-- src/rag/ingestion/chunking.py: splitting blocks into pieces, packing pieces into drafts, and
-- making chunks of the drafts.
pub mod Config
pub mod Split
pub mod Search
pub mod Parts
pub mod Pack
pub mod Overlap
pub mod Drafts
pub mod Assemble
pub mod Coverage
pub mod Chunks
