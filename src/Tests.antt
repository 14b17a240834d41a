-- ===== src/Tests.antt =====
-- Runs of the definitions on concrete inputs.
pub mod Counter
pub mod Chunking
pub mod Retrieval
pub mod Ranking
pub mod Answers
pub mod Deletion
pub mod Uploads
pub mod Indexing
pub mod Counting
pub mod Worker
pub mod Blobs
pub mod Normalization
