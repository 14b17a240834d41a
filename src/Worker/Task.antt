-- ===== src/Worker/Task.antt =====
-- `TransactionalIngestionRepository` and `ingest_document` of celery_app.py. Each call commits, and
-- one that raises is rolled back. One time stands for the times of the calls of a task.
use project_rag.Prelude.{
  ℕ, Text, codes, Option, none, some, map, Bool, true, false, ◌||◌, is_some, is_empty, Result, ok,
  raise, if◌then◌else◌,
}
use project_rag.Prelude.Floats.{Floats}
use project_rag.Prelude.Actions.{Action}
use project_rag.Ingestion.Errors.{
  IngestionStatus, uploaded, queued, parsing, chunking, embedding, indexing, ready, rejected,
  needs_ocr, failed_parse, failed_embed, failed_index, cancelled,
}
use project_rag.Ingestion.Models.{Chunk}
use project_rag.Ingestion.Service.Embed.{Failure, expected, unexpected}
use project_rag.Ingestion.Service.Attempt.{
  VersionRecord, Repository, Parts, IngestionResult, ingest,
}
use project_rag.Store.Rows.{VersionStatus, Document, DocumentVersion, Store}
use project_rag.Store.Retrieval.{StoreError}
use project_rag.Store.Changes.{get_document, get_version, set_status, publish_version}
use project_rag.Store.Chunks.{SourceChunk, replace_chunks, save_embeddings}
use project_rag.Store.History.{Platform}

-- `VersionStatus(status)`: the two enumerations share their values.
unfoldable pub version_status : IngestionStatus → VersionStatus
version_status uploaded = VersionStatus.uploaded
version_status queued = VersionStatus.queued
version_status parsing = VersionStatus.parsing
version_status chunking = VersionStatus.chunking
version_status embedding = VersionStatus.embedding
version_status indexing = VersionStatus.indexing
version_status ready = VersionStatus.ready
version_status rejected = VersionStatus.rejected
version_status needs_ocr = VersionStatus.needs_ocr
version_status failed_parse = VersionStatus.failed_parse
version_status failed_embed = VersionStatus.failed_embed
version_status failed_index = VersionStatus.failed_index
version_status cancelled = VersionStatus.cancelled

-- `DocumentVersion.title`: the title of its document, if there is one, or else the name of the file.
abbrev pub version_title : DocumentVersion → Result StoreError Document → Text
version_title v (raise e) = v.original_filename
version_title v (ok d) = elim d.title [
  | none ↦ v.original_filename
  | some title ↦ if is_empty title then v.original_filename else title
]

-- What the service reads of a row, which `get_version` loads with its document.
abbrev pub record_of : {F : Type 0} → Store F → DocumentVersion → VersionRecord
record_of s v = record {
  id = v.id;
  blob_uri = v.blob_uri;
  filename = v.original_filename;
  title = some (version_title v (get_document v.document_id s));
}

abbrev pub source_of : {V : Type 0} → Chunk V → SourceChunk
source_of c = record {
  id = c.id;
  ordinal = c.ordinal;
  text = c.text;
  content_hash = c.content_hash;
}

abbrev pub is_deleting : VersionStatus → Bool
is_deleting VersionStatus.deleting = true
is_deleting VersionStatus.deleted = true
is_deleting _ = false

-- `version.deleted_at is not None or version.status in {DELETING, DELETED}`
abbrev pub was_deleted : DocumentVersion → Bool
was_deleted v = is_some v.deleted_at || is_deleting v.status

module _ {F : Type 0} where
  -- `_write`: errors of the database are none of the service's classes.
  abbrev pub written : Store F → Result StoreError (Store F) → Result Failure (Unit {0}) × Store F
  written s (ok new) = (ok tt, new)
  written s (raise e) = (raise unexpected, s)

  abbrev pub written_with :
      {A : Type 0} → Store F → Result StoreError (A × Store F) → Result Failure (Unit {0}) × Store F
  written_with s (ok done) = (ok tt, done.1)
  written_with s (raise e) = (raise unexpected, s)

  abbrev pub fetched :
      Store F → Result StoreError DocumentVersion → Result Failure (Option VersionRecord) × Store F
  fetched s (ok v) = (ok (some (record_of s v)), s)
  fetched s (raise e) = (raise unexpected, s)

  -- `set_status` of the worker's repository, on the version that was found.
  abbrev pub guarded_status :
      Text
      → VersionStatus
      → Option Text
      → Option Text
      → ℕ
      → Store F
      → Result StoreError DocumentVersion
      → Result Failure (Unit {0}) × Store F
  guarded_status id status code message now s (raise e) = (raise unexpected, s)
  guarded_status id status code message now s (ok v) =
      let refused : Result Failure (Unit {0}) × Store F = (raise unexpected, s) in
      if was_deleted v then refused else written s (set_status id status code message now s)

  unfoldable pub worker_repository : {V : Type 0} → Platform F → ℕ → Repository (Store F) F V
  worker_repository p now = record {
    get_version = λ id s. fetched s (get_version id s);
    set_status = λ id status code message s.
        guarded_status id (version_status status) code message now s (get_version id s);
    replace_chunks =
        λ id chunks s. written_with s (replace_chunks p.lower id (map source_of chunks) s);
    save_embeddings = λ id vectors dimensions s.
        written_with s (save_embeddings p.is_finite p.schema id vectors dimensions s);
    publish_version = λ id expected s. written s (publish_version id expected now s);
  }

  -- `except Exception`: the failure is recorded unless the document was deleted; what raises while
  -- it is recorded is dropped.
  abbrev pub recorded : Store F → Result StoreError (Store F) → Store F
  recorded s (ok new) = new
  recorded s (raise e) = s

  abbrev pub unless_deleted : Text → ℕ → Store F → Result StoreError Document → Store F
  unless_deleted id now s (raise e) = s
  unless_deleted id now s (ok d) =
      if is_some d.deleted_at
      then s
      else recorded s (
          set_status id VersionStatus.failed_index (some (codes "worker_failure"))
            (some (codes "The background ingestion worker failed unexpectedly.")) now s)

  abbrev pub document_of : Store F → Result StoreError DocumentVersion → Result StoreError Document
  document_of s (raise e) = raise e
  document_of s (ok v) = get_document v.document_id s

  unfoldable pub worker_failure : Text → ℕ → Store F → Store F
  worker_failure id now s = unless_deleted id now s (document_of s (get_version id s))

-- What the task returns.
pub data TaskResult : Type 0 where
  task_cancelled : Text → TaskResult
  task_finished : IngestionResult → TaskResult

module _ (fl : Floats) {V : Type 0} (p : Platform fl.Float) (parts : Parts fl.Float V)
    (now : ℕ) where
  open fl use {Float}

  abbrev pub reported :
      Text → Result Failure IngestionResult × Store Float → Result Failure TaskResult × Store Float
  reported id (ok result, s) = (ok (task_finished result), s)
  reported id (raise (expected e), s) = (raise (expected e), s)
  reported id (raise unexpected, s) = (raise unexpected, worker_failure id now s)

  abbrev pub started :
      Text
      → Store Float
      → Result StoreError DocumentVersion
      → Result Failure TaskResult × Store Float
  started id s (raise e) = (raise unexpected, worker_failure id now s)
  started id s (ok v) =
      let skipped : Result Failure TaskResult × Store Float = (ok (task_cancelled id), s) in
      if was_deleted v
      then skipped
      else reported id (ingest fl (worker_repository p now) parts id s)

  unfoldable pub ingest_document : Text → Action (Store Float) Failure TaskResult
  ingest_document id s = started id s (get_version id s)
