-- ===== src/Store/Uploads.antt =====
-- `find_by_content_hash`, `create_document`, `create_version` and `register_upload` of
-- repositories.py. `lower` is Python's `str.lower`; the ids that the database draws and the time are
-- arguments. A row whose key is taken is refused by the tables' constraints.
use project_rag.Prelude.{
  ℕ, suc, max, Text, codes, Option, none, some, List, [], ◌∷◌, ◌++◌, map, Bool, true, false, not,
  ◌&&◌, ◌||◌, any, every, member, keep, concat, length, nat_beq, ltb, is_some, sort_by, list_eq,
  nat_eq, ◌==◌, Result, ok, raise, raise_if, ◌>>=◌, ◌>>◌, if◌then◌else◌,
}
use project_rag.Store.Rows.{
  DocumentStatus, VersionStatus, Document, DocumentVersion, IngestionJob, Store,
}
use project_rag.Store.Retrieval.{StoreError, duplicate_key, document_required, bad_digest}
use project_rag.Store.Jobs.{first_row, new_job, latest_for_version}
use project_rag.Store.Changes.{get_document, document_has_id, version_has_id, with_documents}

pub record Upload : Type 0 where
  pub tenant_id : Text
  pub collection_id : Text
  pub filename : Text
  pub title : Option Text
  pub tags : List Text
  pub content_hash : Text
  pub blob_uri : Text
  pub mime_type : Text
  pub byte_size : ℕ

pub record DrawnIds : Type 0 where
  pub document_id : Text
  pub version_id : Text
  pub job_id : Text

pub record UploadRegistration : Type 0 where
  pub document : Document
  pub version : DocumentVersion
  pub job : Option IngestionJob
  pub created : Bool

abbrev pub version_is_deleted : VersionStatus → Bool
version_is_deleted VersionStatus.deleted = true
version_is_deleted _ = false

abbrev pub is_hex : ℕ → Bool
is_hex c = member c (codes "0123456789abcdef")

-- A version with the document that it belongs to.
abbrev pub joined : {F : Type 0} → Store F → List (Document × DocumentVersion)
joined s = concat (map (λ v. map (λ d. (d, v)) s.documents) s.versions)

-- The conditions of `find_by_content_hash` on a document and a version; deleted ones do not count.
unfoldable pub has_content : Text → Text → Text → Document × DocumentVersion → Bool
has_content tenant collection digest row =
    row.0.id == row.1.document_id
    && row.0.tenant_id == tenant
    && row.0.collection_id == collection
    && row.1.content_hash == digest
    && not (is_some row.0.deleted_at)
    && not (is_some row.1.deleted_at)
    && not (version_is_deleted row.1.status)

abbrev pub newer : Document × DocumentVersion → Document × DocumentVersion → Bool
newer a b = ltb b.1.created_at a.1.created_at

unfoldable pub find_by_content_hash :
    {F : Type 0}
    → (Text → Text)
    → Text
    → Text
    → Text
    → Store F
    → Option (Document × DocumentVersion)
find_by_content_hash lower tenant collection hash s =
    first_row (sort_by newer (keep (has_content tenant collection (lower hash)) (joined s)))

abbrev pub new_document : Upload → Text → ℕ → Document
new_document u id now = record {
  id = id;
  tenant_id = u.tenant_id;
  collection_id = u.collection_id;
  filename = u.filename;
  title = u.title;
  tags = u.tags;
  status = DocumentStatus.uploaded;
  current_version_id = none;
  created_at = now;
  deleted_at = none;
}

unfoldable pub create_document :
    {F : Type 0} → Upload → Text → ℕ → Store F → Result StoreError (Document × Store F)
create_document u id now s = do
  raise_if (any (document_has_id id) s.documents) duplicate_key
  ok (new_document u id now, record s { documents = s.documents ++ new_document u id now ∷ [] })

-- `func.max(version_number) or 0` over the versions of a document.
abbrev pub last_number : Text → List DocumentVersion → ℕ
last_number id [] = 0
last_number id (v ∷ versions) =
    let rest = last_number id versions in
    if v.document_id == id then max v.version_number rest else rest

abbrev pub new_version : Document → Upload → Text → ℕ → ℕ → Text → ℕ → DocumentVersion
new_version d u digest number generation id now = record {
  id = id;
  document_id = d.id;
  tenant_id = d.tenant_id;
  collection_id = d.collection_id;
  version_number = number;
  content_hash = digest;
  blob_uri = u.blob_uri;
  original_filename = u.filename;
  mime_type = u.mime_type;
  byte_size = u.byte_size;
  index_generation = generation;
  expected_chunk_count = 0;
  indexed_chunk_count = 0;
  status = VersionStatus.uploaded;
  error_code = none;
  error_message = none;
  created_at = now;
  ready_at = none;
  deleted_at = none;
}

-- The primary key and the two unique constraints of the table of versions.
abbrev pub clashes : DocumentVersion → DocumentVersion → Bool
clashes v w =
    version_has_id v.id w
    || w.document_id == v.document_id && nat_beq w.version_number v.version_number
    || (w.document_id == v.document_id
        && w.content_hash == v.content_hash
        && nat_beq w.index_generation v.index_generation)

abbrev pub is_digest : Text → Bool
is_digest digest = nat_beq (length digest) 64 && every is_hex digest

unfoldable pub the_document :
    {F : Type 0} → Option Document → Option Text → Store F → Result StoreError Document
the_document (some d) id s = ok d
the_document none (some id) s = get_document id s
the_document none none s = raise document_required

abbrev pub next_version :
    {F : Type 0} → (Text → Text) → Document → Upload → ℕ → Text → ℕ → Store F → DocumentVersion
next_version lower d u generation id now s =
    new_version d u (lower u.content_hash) (suc (last_number d.id s.versions)) generation id now

-- The store with the version, its document marked as uploaded.
abbrev pub with_version : {F : Type 0} → Document → DocumentVersion → Store F → Store F
with_version d v s =
    with_documents (document_has_id d.id) (λ d. record d { status = DocumentStatus.uploaded })
      (record s { versions = s.versions ++ v ∷ [] })

unfoldable pub create_version :
    {F : Type 0}
    → (Text → Text)
    → Option Document
    → Option Text
    → Upload
    → ℕ
    → Text
    → ℕ
    → Store F
    → Result StoreError (DocumentVersion × Store F)
create_version lower document document_id u generation id now s = do
  d ← the_document document document_id s
  raise_if (not (is_digest (lower u.content_hash))) bad_digest
  let version = next_version lower d u generation id now s
  raise_if (any (clashes version) s.versions) duplicate_key
  ok (version, with_version d version s)

unfoldable pub create_job :
    {F : Type 0} → Text → Text → ℕ → Store F → Result StoreError (IngestionJob × Store F)
create_job version_id id now s = do
  raise_if (any (λ j. j.id == id) s.jobs) duplicate_key
  ok (new_job id version_id now, record s { jobs = s.jobs ++ new_job id version_id now ∷ [] })

abbrev pub registered :
    {F : Type 0}
    → (Text → Text)
    → Upload
    → DrawnIds
    → ℕ
    → Store F
    → Option (Document × DocumentVersion)
    → Result StoreError (UploadRegistration × Store F)
registered lower u ids now s (some (d, v)) =
    ok (
      record { document = d; version = v; job = latest_for_version v.id s.jobs; created = false },
      s,
    )
registered lower u ids now s none = do
  document ← create_document u ids.document_id now s
  version ← create_version lower (some document.0) none u 1 ids.version_id now document.1
  job ← create_job version.0.id ids.job_id now version.1
  ok (
    record { document = document.0; version = version.0; job = some job.0; created = true },
    job.1,
  )

unfoldable pub register_upload :
    {F : Type 0}
    → (Text → Text)
    → Upload
    → DrawnIds
    → ℕ
    → Store F
    → Result StoreError (UploadRegistration × Store F)
register_upload lower u ids now s =
    registered lower u ids now s
      (find_by_content_hash lower u.tenant_id u.collection_id u.content_hash s)
