-- ===== src/Store.antt =====
-- src/rag/repositories.py and models.py: documents, their versions and chunks in the database.
pub mod Rows
pub mod Jobs
pub mod Uploads
pub mod Chunks
pub mod History
pub mod Retrieval
pub mod Changes
pub mod Updates
pub mod Hidden
pub mod Visibility
pub mod Publication
pub mod Published
pub mod Registration
pub mod Numbering
pub mod Indexing
