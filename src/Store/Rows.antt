-- ===== src/Store/Rows.antt =====
-- The tables of src/rag/models.py, with the columns that the modelled queries read and write. A
-- UUID is a text and a time a number.
use project_rag.Prelude.{ℕ, Text, Option, List, Bool, true, false}

pub data DocumentStatus : Type 0 where
  uploaded processing ready needs_ocr failed deleting deleted : DocumentStatus

pub data VersionStatus : Type 0 where
  uploaded queued parsing chunking embedding indexing ready : VersionStatus
  needs_ocr rejected failed_parse failed_embed failed_index cancelled deleting deleted :
      VersionStatus

pub data JobStatus : Type 0 where
  pending running retrying succeeded failed cancelled : JobStatus

pub data JobStage : Type 0 where
  accept parse chunk embed index publish cleanup : JobStage

pub record Document : Type 0 where
  pub id : Text
  pub tenant_id : Text
  pub collection_id : Text
  pub filename : Text
  pub title : Option Text
  pub tags : List Text
  pub status : DocumentStatus
  pub current_version_id : Option Text
  pub created_at : ℕ
  pub deleted_at : Option ℕ

pub record DocumentVersion : Type 0 where
  pub id : Text
  pub document_id : Text
  pub tenant_id : Text
  pub collection_id : Text
  pub version_number : ℕ
  pub content_hash : Text
  pub blob_uri : Text
  pub original_filename : Text
  pub mime_type : Text
  pub byte_size : ℕ
  pub index_generation : ℕ
  pub expected_chunk_count : ℕ
  pub indexed_chunk_count : ℕ
  pub status : VersionStatus
  pub error_code : Option Text
  pub error_message : Option Text
  pub created_at : ℕ
  pub ready_at : Option ℕ
  pub deleted_at : Option ℕ

pub record IngestionJob : Type 0 where
  pub id : Text
  pub version_id : Text
  pub stage : JobStage
  pub status : JobStatus
  pub created_at : ℕ
  pub heartbeat_at : Option ℕ
  pub error_code : Option Text
  pub error_message : Option Text
  pub started_at : Option ℕ
  pub finished_at : Option ℕ

pub record Chunk (F : Type 0) : Type 0 where
  pub id : Text
  pub version_id : Text
  pub document_id : Text
  pub tenant_id : Text
  pub collection_id : Text
  pub ordinal : ℕ
  pub text : Text
  pub content_hash : Text
  pub embedding : Option (List F)

pub record Store (F : Type 0) : Type 0 where
  pub documents : List Document
  pub versions : List DocumentVersion
  pub chunks : List (Chunk F)
  pub jobs : List IngestionJob

abbrev pub document_is_ready : DocumentStatus → Bool
document_is_ready DocumentStatus.ready = true
document_is_ready _ = false

abbrev pub version_is_ready : VersionStatus → Bool
version_is_ready VersionStatus.ready = true
version_is_ready _ = false
