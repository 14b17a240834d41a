-- ===== src/Worker/Outcome.antt =====
-- What the task of celery_app.py leaves in the database.
use project_rag.Prelude.{
  ℕ, ◌≡◌, Text, Option, map, is_some, Result, ok, raise, ◌>>=◌, Bool-cases, inl, inr, Returned,
  subst,
}
use project_rag.Prelude.Floats.{Floats}
use project_rag.Ingestion.Service.Embed.{Failure, expected, unexpected}
use project_rag.Ingestion.Service.Attempt.{Parts, IngestionResult, ingest}
use project_rag.Ingestion.Service.Invariants.{Keeps, KeepsState, ingest-Keeps, Gives, ingest-Gives}
use project_rag.Store.Rows.{VersionStatus, Document, DocumentVersion, Store}
use project_rag.Store.Retrieval.{StoreError}
use project_rag.Store.Changes.{get_version, set_status, publish_version}
use project_rag.Store.Chunks.{replace_chunks, save_embeddings}
use project_rag.Store.History.{Change, Platform}
use project_rag.Store.Hidden.{Hidden, Leaves, perform-Hidden}
use project_rag.Store.Published.{Published, publish_version-Published}
use project_rag.Worker.Task.{
  version_status, source_of, was_deleted, written, written_with, fetched, guarded_status,
  worker_repository, recorded, unless_deleted, document_of, worker_failure, TaskResult,
  task_finished, task_cancelled, reported, started, ingest_document,
}

module _ {F : Type 0} (id : Text) where
  written-Hidden :
      (s : Store F) (r : Result StoreError (Store F))
      → Hidden id s
      → Leaves id (λ new. new) r
      → Hidden id (written s r).1
  written-Hidden s (ok new) h k = k
  written-Hidden s (raise e) h k = h

  written_with-Hidden :
      {A : Type 0} (s : Store F) (r : Result StoreError (A × Store F))
      → Hidden id s
      → Leaves id (λ new. new) (r >>= λ done. ok done.1)
      → Hidden id (written_with s r).1
  written_with-Hidden s (ok done) h k = k
  written_with-Hidden s (raise e) h k = h

  fetched-Hidden :
      (s : Store F) (r : Result StoreError DocumentVersion)
      → Hidden id s
      → Hidden id (fetched s r).1
  fetched-Hidden s (ok v) h = h
  fetched-Hidden s (raise e) h = h

  module _ (p : Platform F) (now : ℕ) where
    status-Leaves :
        (other : Text) (next : VersionStatus) (code message : Option Text) (s : Store F)
        → Hidden id s
        → Leaves id (λ new. new) (set_status other next code message now s)
    status-Leaves other next code message s h =
        perform-Hidden p id (Change.status other next code message now) s h

    guarded-Hidden :
        (other : Text) (next : VersionStatus) (code message : Option Text) (s : Store F)
        (r : Result StoreError DocumentVersion)
        → Hidden id s
        → Hidden id (guarded_status other next code message now s r).1
    guarded-Hidden other next code message s (raise e) h = h
    guarded-Hidden other next code message s (ok v) h = elim (Bool-cases (was_deleted v)) [
      | inl e ↦ rw e h
      | inr e ↦ rw e (
          written-Hidden s (set_status other next code message now s) h
            (status-Leaves other next code message s h))
    ]

    worker-Keeps : {V : Type 0} → KeepsState {V = V} (Hidden id) (worker_repository p now)
    unfolding Keeps worker_repository
    worker-Keeps = record {
      fetch_keeps = λ other s h. fetched-Hidden s (get_version other s) h;
      status_keeps = λ other next code message s h.
          guarded-Hidden other (version_status next) code message s (get_version other s) h;
      replace_keeps = λ other chunks s h.
          written_with-Hidden s (replace_chunks p.lower other (map source_of chunks) s) h
            (perform-Hidden p id (Change.replace other (map source_of chunks)) s h);
      save_keeps = λ other vectors n s h.
          written_with-Hidden s (save_embeddings p.is_finite p.schema other vectors n s) h
            (perform-Hidden p id (Change.save other vectors n) s h);
      publish_keeps = λ other n s h.
          written-Hidden s (publish_version other n now s) h
            (perform-Hidden p id (Change.publish other n now) s h);
    }

    recorded-Hidden :
        (s : Store F) (r : Result StoreError (Store F))
        → Hidden id s
        → Leaves id (λ new. new) r
        → Hidden id (recorded s r)
    recorded-Hidden s (ok new) h k = k
    recorded-Hidden s (raise e) h k = h

    unless_deleted-Hidden :
        (other : Text) (s : Store F) (r : Result StoreError Document)
        → Hidden id s
        → Hidden id (unless_deleted other now s r)
    unless_deleted-Hidden other s (raise e) h = h
    unless_deleted-Hidden other s (ok d) h = elim (Bool-cases (is_some d.deleted_at)) [
      | inl e ↦ rw e h
      | inr e ↦
          rw e (recorded-Hidden s _ h (status-Leaves other VersionStatus.failed_index _ _ s h))
    ]

    worker_failure-Hidden :
        (other : Text) (s : Store F) → Hidden id s → Hidden id (worker_failure other now s)
    unfolding worker_failure
    worker_failure-Hidden other s h =
        unless_deleted-Hidden other s (document_of s (get_version other s)) h

module _ (fl : Floats) {V : Type 0} (p : Platform fl.Float) (parts : Parts fl.Float V)
    (now : ℕ) where
  open fl use {Float}

  reported-Hidden :
      (id other : Text) (x : Result Failure IngestionResult × Store Float)
      → Hidden id x.1
      → Hidden id (reported fl p parts now other x).1
  reported-Hidden id other (ok result, s) h = h
  reported-Hidden id other (raise (expected e), s) h = h
  reported-Hidden id other (raise unexpected, s) h = worker_failure-Hidden id p now other s h

  started-Hidden :
      (id other : Text) (s : Store Float) (r : Result StoreError DocumentVersion)
      → Hidden id s
      → Hidden id (started fl p parts now other s r).1
  unfolding Keeps
  started-Hidden id other s (raise e) h = worker_failure-Hidden id p now other s h
  started-Hidden id other s (ok v) h = elim (Bool-cases (was_deleted v)) [
    | inl e ↦ rw e h
    | inr e ↦ rw e (
        reported-Hidden id other (ingest fl (worker_repository p now) parts other s) (
          ingest-Keeps fl (worker_repository p now) parts (Hidden id) (worker-Keeps id p now) other
            s h))
  ]

  -- A document that is marked for deletion is still marked after any task, whichever version the task
  -- ingests and wherever it fails.
  pub ingest_document-Hidden :
      (id version_id : Text) (s : Store Float)
      → Hidden id s
      → Hidden id (ingest_document fl p parts now version_id s).1
  unfolding ingest_document
  ingest_document-Hidden id version_id s h =
      started-Hidden id version_id s (get_version version_id s) h

  written-Gives :
      (id : Text) (n : ℕ) (s : Store Float) (r : Result StoreError (Store Float))
      → Returned (Published id n) r
      → Gives (λ _ t. Published id n t) (written s r)
  written-Gives id n s (ok new) h = h
  written-Gives id n s (raise e) h = tt

  worker-Gives :
      (id : Text) (n : ℕ) (s : Store Float)
      → Gives (λ _ t. Published id n t) ((worker_repository {V = V} p now).publish_version id n s)
  unfolding worker_repository
  worker-Gives id n s =
      written-Gives id n s (publish_version id n now s) (publish_version-Published id n now s)

  -- What a finished task has published.
  abbrev Shown : Text → TaskResult → Store Float → Type 0
  Shown id (task_finished result) t = Published id result.chunk_count t
  Shown id (task_cancelled other) t = Unit

  reported-Gives :
      (id : Text) (x : Result Failure IngestionResult × Store Float)
      → Gives (λ (result : IngestionResult) t. Published id result.chunk_count t) x
      → Gives (Shown id) (reported fl p parts now id x)
  reported-Gives id (ok done, s) h = h
  reported-Gives id (raise (expected f), s) h = tt
  reported-Gives id (raise unexpected, s) h = tt

  started-Gives :
      (id : Text) (s : Store Float) (r : Result StoreError DocumentVersion)
      → Gives (Shown id) (started fl p parts now id s r)
  started-Gives id s (raise e) = tt
  started-Gives id s (ok v) = elim (Bool-cases (was_deleted v)) [
    | inl e ↦ rw e tt
    | inr e ↦ rw e (
        reported-Gives id (ingest fl (worker_repository p now) parts id s)
          (ingest-Gives fl (worker_repository p now) parts (Published id) id (worker-Gives id) s))
  ]

  -- A task that finishes has published its version: the version is ready, it has as many chunks as
  -- the task reports, all counted as indexed, and its document is ready and shows it.
  pub ingest_document-Published :
      (id : Text) (s : Store Float) {result : IngestionResult} {new : Store Float}
      → ingest_document fl p parts now id s ≡ (ok (task_finished result), new)
      → Published id result.chunk_count new
  unfolding ingest_document
  ingest_document-Published id s h =
      subst (Gives (Shown id)) h (started-Gives id s (get_version id s))
