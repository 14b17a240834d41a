-- ===== src/Retrieval/Fusion.antt =====
-- src/rag/retrieval/fusion.py: rank fusion, duplicate removal and reranked scores.
pub mod Rrf
pub mod RrfLaws
pub mod Places
pub mod RrfRanks
pub mod Dedupe
pub mod Rerank
