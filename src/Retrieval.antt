-- ===== src/Retrieval.antt =====
-- src/rag/retrieval: from a question to ranked evidence and a grounded answer.
pub mod Models
pub mod Digits
pub mod Citations
pub mod Context
pub mod Fusion
pub mod Diversity
pub mod Service
pub mod ExactCount
