-- ===== src/Store/Changes.antt =====
-- The operations of repositories.py that change documents and versions: `mark_deleting`,
-- `mark_deleted`, `set_status` and `publish_version`. `now` is the time of the call.
use project_rag.Prelude.{
  ℕ, Text, Option, none, some, List, [], ◌∷◌, Bool, not, keep, is_some, length, nat_beq, list_eq,
  nat_eq, ◌==◌, Result, ok, raise, raise_if, ◌>>=◌, ◌>>◌,
}
use project_rag.Store.Rows.{
  DocumentStatus, VersionStatus, JobStatus, JobStage, Document, DocumentVersion, IngestionJob,
  Chunk, Store,
}
use project_rag.Store.Jobs.{update, update_job, latest_for_version, job_status, stage_by_status}
use project_rag.Store.Retrieval.{StoreError, not_found, count_mismatch, missing_vectors}

abbrev pub first : {A : Type 0} → List A → Result StoreError A
first [] = raise not_found
first (row ∷ rows) = ok row

abbrev pub document_has_id : Text → Document → Bool
document_has_id id d = d.id == id

abbrev pub version_has_id : Text → DocumentVersion → Bool
version_has_id id v = v.id == id

-- A document as `mark_deleting` and `mark_deleted` leave it.
abbrev pub retired : DocumentStatus → ℕ → Document → Document
retired status time d = record d {
  status = status;
  current_version_id = none;
  deleted_at = some time;
}

abbrev pub retired_version : VersionStatus → ℕ → DocumentVersion → DocumentVersion
retired_version status time v = record v { status = status; deleted_at = some time }

-- `document.deleted_at or now`
abbrev pub time_or : Option ℕ → ℕ → ℕ
time_or none now = now
time_or (some time) now = time

-- The document's status that goes with a status of its version; `cancelled` leaves it.
unfoldable pub document_status : VersionStatus → DocumentStatus → DocumentStatus
document_status VersionStatus.ready status = DocumentStatus.ready
document_status VersionStatus.needs_ocr status = DocumentStatus.needs_ocr
document_status VersionStatus.rejected status = DocumentStatus.failed
document_status VersionStatus.failed_parse status = DocumentStatus.failed
document_status VersionStatus.failed_embed status = DocumentStatus.failed
document_status VersionStatus.failed_index status = DocumentStatus.failed
document_status VersionStatus.deleting status = DocumentStatus.deleting
document_status VersionStatus.deleted status = DocumentStatus.deleted
document_status VersionStatus.cancelled status = status
document_status VersionStatus.uploaded status = DocumentStatus.processing
document_status VersionStatus.queued status = DocumentStatus.processing
document_status VersionStatus.parsing status = DocumentStatus.processing
document_status VersionStatus.chunking status = DocumentStatus.processing
document_status VersionStatus.embedding status = DocumentStatus.processing
document_status VersionStatus.indexing status = DocumentStatus.processing

module _ {F : Type 0} where
  abbrev pub with_documents : (Document → Bool) → (Document → Document) → Store F → Store F
  with_documents chosen change s = record s { documents = update chosen change s.documents }

  abbrev pub with_versions :
      (DocumentVersion → Bool) → (DocumentVersion → DocumentVersion) → Store F → Store F
  with_versions chosen change s = record s { versions = update chosen change s.versions }

  unfoldable pub get_document : Text → Store F → Result StoreError Document
  get_document id s = first (keep (document_has_id id) s.documents)

  unfoldable pub get_version : Text → Store F → Result StoreError DocumentVersion
  get_version id s = first (keep (version_has_id id) s.versions)

  abbrev pub retire : Text → DocumentStatus → VersionStatus → ℕ → Store F → Store F
  retire id status version_status time s =
      with_versions (λ v. v.document_id == id) (retired_version version_status time)
        (with_documents (document_has_id id) (retired status time) s)

  unfoldable pub mark_deleting : Text → ℕ → Store F → Result StoreError (Store F)
  mark_deleting id now s = do
    document ← get_document id s
    ok (retire id DocumentStatus.deleting VersionStatus.deleting now s)

  unfoldable pub mark_deleted : Text → ℕ → Store F → Result StoreError (Store F)
  mark_deleted id now s = do
    document ← get_document id s
    ok (retire id DocumentStatus.deleted VersionStatus.deleted (time_or document.deleted_at now) s)

  -- The latest job of a version, where there is one, with the stage and status for it.
  abbrev pub with_latest_job :
      Option IngestionJob
      → (JobStage → JobStage)
      → JobStatus
      → Option Text
      → Option Text
      → ℕ
      → Store F
      → Store F
  with_latest_job none stage status code message now s = s
  with_latest_job (some job) stage status code message now s = record s {
    jobs = update_job job.id (stage job.stage) status code message now s.jobs;
  }

  unfoldable pub set_status :
      Text → VersionStatus → Option Text → Option Text → ℕ → Store F → Result StoreError (Store F)
  set_status id status code message now s = do
    version ← get_version id s
    ok (
        with_latest_job (latest_for_version id s.jobs) (stage_by_status status) (job_status status)
          code message now
          (with_documents (document_has_id version.document_id)
            (λ d. record d { status = document_status status d.status })
            (with_versions (version_has_id id)
              (λ v. record v { status = status; error_code = code; error_message = message }) s)))

  abbrev pub version_chunks : Text → Store F → List (Chunk F)
  version_chunks id s = keep (λ c. c.version_id == id) s.chunks

  unfoldable pub publish_version : Text → ℕ → ℕ → Store F → Result StoreError (Store F)
  publish_version id expected now s = do
    version ← get_version id s
    let actual = length (version_chunks id s)
    let embedded = length (keep (λ c. is_some c.embedding) (version_chunks id s))
    raise_if (not (nat_beq actual expected)) count_mismatch
    raise_if (not (nat_beq embedded actual)) missing_vectors
    ok (
        with_latest_job (latest_for_version id s.jobs) (λ stage. JobStage.publish)
          JobStatus.succeeded none none now
          (with_documents (document_has_id version.document_id)
            (λ d. record d { status = DocumentStatus.ready; current_version_id = some id })
            (with_versions (version_has_id id)
              (λ v. record v {
                status = VersionStatus.ready;
                expected_chunk_count = expected;
                indexed_chunk_count = embedded;
                error_code = none;
                error_message = none;
                ready_at = some now;
              })
              s)))
