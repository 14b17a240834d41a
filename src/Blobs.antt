-- ===== src/Blobs.antt =====
-- src/rag/blob_store.py: the keys of stored files and the local store.
pub mod Keys
pub mod Local
pub mod Paths
pub mod Disks
pub mod RoundTrip
pub mod Built
