-- ===== src/Store/Jobs.antt =====
-- `IngestionJobRepository` of repositories.py. `checkpoint` and `lease_owner` are passed by no caller
-- and are left out.
use project_rag.Prelude.{
  ℕ, Text, Option, none, some, List, [], ◌∷◌, Bool, true, false, keep, is_some, sort_by, ltb,
  if◌then◌else◌, list_eq, nat_eq, ◌==◌,
}
use project_rag.Store.Rows.{VersionStatus, JobStatus, JobStage, IngestionJob}

-- The rows of a table that a test chooses, changed.
abbrev pub update : {A : Type 0} → (A → Bool) → (A → A) → List A → List A
update chosen change [] = []
update chosen change (row ∷ rows) =
    let rest = update chosen change rows in if chosen row then change row ∷ rest else row ∷ rest

abbrev pub first_row : {A : Type 0} → List A → Option A
first_row [] = none
first_row (row ∷ rows) = some row

-- `create`: the defaults of the columns.
unfoldable pub new_job : Text → Text → ℕ → IngestionJob
new_job id version_id now = record {
  id = id;
  version_id = version_id;
  stage = JobStage.accept;
  status = JobStatus.pending;
  created_at = now;
  heartbeat_at = none;
  error_code = none;
  error_message = none;
  started_at = none;
  finished_at = none;
}

-- The job of the version that was created last.
unfoldable pub latest_for_version : Text → List IngestionJob → Option IngestionJob
latest_for_version version_id jobs =
    first_row
      (sort_by (λ a b. ltb b.created_at a.created_at) (keep (λ j. j.version_id == version_id) jobs))

abbrev pub is_running : JobStatus → Bool
is_running JobStatus.running = true
is_running _ = false

abbrev pub is_finished : JobStatus → Bool
is_finished JobStatus.succeeded = true
is_finished JobStatus.failed = true
is_finished JobStatus.cancelled = true
is_finished _ = false

-- `update`, on the job's row.
unfoldable pub updated_job :
    JobStage → JobStatus → Option Text → Option Text → ℕ → IngestionJob → IngestionJob
updated_job stage status code message now job = record job {
  stage = stage;
  status = status;
  started_at =
      if is_running status
      then (if is_some job.started_at then job.started_at else some now)
      else job.started_at;
  finished_at = if is_finished status then some now else job.finished_at;
  error_code = code;
  error_message = message;
  heartbeat_at = some now;
}

unfoldable pub update_job :
    Text
    → JobStage
    → JobStatus
    → Option Text
    → Option Text
    → ℕ
    → List IngestionJob
    → List IngestionJob
update_job id stage status code message now =
    update (λ j. j.id == id) (updated_job stage status code message now)

-- The status and the stage of the job that go with a status of its version. A status without a
-- stage leaves the job's.
unfoldable pub job_status : VersionStatus → JobStatus
job_status VersionStatus.ready = JobStatus.succeeded
job_status VersionStatus.cancelled = JobStatus.cancelled
job_status VersionStatus.rejected = JobStatus.failed
job_status VersionStatus.needs_ocr = JobStatus.failed
job_status VersionStatus.failed_parse = JobStatus.failed
job_status VersionStatus.failed_embed = JobStatus.failed
job_status VersionStatus.failed_index = JobStatus.failed
job_status VersionStatus.uploaded = JobStatus.running
job_status VersionStatus.queued = JobStatus.running
job_status VersionStatus.parsing = JobStatus.running
job_status VersionStatus.chunking = JobStatus.running
job_status VersionStatus.embedding = JobStatus.running
job_status VersionStatus.indexing = JobStatus.running
job_status VersionStatus.deleting = JobStatus.running
job_status VersionStatus.deleted = JobStatus.running

-- `_STAGE_BY_STATUS`
unfoldable pub stage_by_status : VersionStatus → JobStage → JobStage
stage_by_status VersionStatus.uploaded stage = JobStage.accept
stage_by_status VersionStatus.queued stage = JobStage.accept
stage_by_status VersionStatus.parsing stage = JobStage.parse
stage_by_status VersionStatus.chunking stage = JobStage.chunk
stage_by_status VersionStatus.embedding stage = JobStage.embed
stage_by_status VersionStatus.indexing stage = JobStage.index
stage_by_status VersionStatus.ready stage = JobStage.publish
stage_by_status VersionStatus.deleting stage = JobStage.cleanup
stage_by_status VersionStatus.deleted stage = JobStage.cleanup
stage_by_status VersionStatus.needs_ocr stage = stage
stage_by_status VersionStatus.rejected stage = stage
stage_by_status VersionStatus.failed_parse stage = stage
stage_by_status VersionStatus.failed_embed stage = stage
stage_by_status VersionStatus.failed_index stage = stage
stage_by_status VersionStatus.cancelled stage = stage
