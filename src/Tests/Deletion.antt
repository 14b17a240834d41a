-- ===== src/Tests/Deletion.antt =====
-- A document that is deleted while its version is published.
use project_rag.Prelude.{
  ℕ, ◌≡◌, ◌↔◌, length, true, refl, codes, none, some, List, [], ◌∷◌, false, All, list_eq, nat_eq,
  ◌==◌, ok, Text, map, leb, ◌&&◌, ◌+◌, if◌then◌else◌, strip, is_space, list_beq,
}
use project_rag.Retrieval.Models.{RetrievalFilters}
use project_rag.Store.Rows.{DocumentStatus, VersionStatus, Document, DocumentVersion, Chunk, Store}
use project_rag.Store.Retrieval.{Row, time_of, retrieval_rows}
use project_rag.Store.Changes.{
  mark_deleting, get_document, get_version, version_chunks, publish_version,
}
use project_rag.Store.Jobs.{new_job}
use project_rag.Store.History.{Change, Platform, run}
use project_rag.Store.Publication.{publish_version_iff, has_vector}
use project_rag.Store.Visibility.{deleted_stays_hidden}

abbrev document : Document
document = record {
  id = codes "d";
  tenant_id = codes "t";
  collection_id = codes "c";
  filename = codes "f.txt";
  title = none;
  tags = [];
  status = DocumentStatus.processing;
  current_version_id = none;
  created_at = 1;
  deleted_at = none;
}

abbrev version : DocumentVersion
version = record {
  id = codes "v";
  document_id = codes "d";
  tenant_id = codes "t";
  collection_id = codes "c";
  version_number = 1;
  content_hash = codes "h";
  blob_uri = codes "local://f.txt";
  original_filename = codes "f.txt";
  mime_type = codes "text/plain";
  byte_size = 4;
  index_generation = 1;
  created_at = 1;
  status = VersionStatus.indexing;
  expected_chunk_count = 1;
  indexed_chunk_count = 1;
  error_code = none;
  error_message = none;
  ready_at = none;
  deleted_at = none;
}

abbrev chunk : Chunk ℕ
chunk = record {
  id = codes "k";
  version_id = codes "v";
  document_id = codes "d";
  tenant_id = codes "t";
  collection_id = codes "c";
  ordinal = 0;
  text = codes "text";
  content_hash = codes "h";
  embedding = some (1 ∷ []);
}

abbrev pub store : Store ℕ
store = record {
  documents = document ∷ [];
  versions = version ∷ [];
  chunks = chunk ∷ [];
  jobs = new_job (codes "j") (codes "v") 1 ∷ [];
}

abbrev filters : RetrievalFilters
filters = record {
  tenant_id = codes "t";
  collection_id = none;
  document_ids = [];
  tags = [];
  created_after = none;
  created_before = none;
}

pub deletes : (new : Store ℕ) × (mark_deleting (codes "d") 5 store ≡ ok new)
unfolding mark_deleting get_document list_beq
deletes = (_, refl)

-- Upper-case letters of ASCII.
abbrev pub lower : Text → Text
lower text = map (λ c. if leb 65 c && leb c 90 then c + 32 else c) text

abbrev pub platform : Platform ℕ
platform = record { lower = lower; is_finite = λ x. true; schema = 1 }

abbrev publication : List (Change ℕ)
publication = Change.publish (codes "v") 1 6 ∷ []

searches :
    (rows : List (Row ℕ)) × (retrieval_rows
        (λ t. some 0)
        (run platform publication deletes.0)
        filters
      ≡ ok rows)
unfolding retrieval_rows time_of strip is_space
searches = (_, refl)

deleted_stays_hidden_example : All (λ r. (r.chunk.document_id == codes "d") ≡ false) searches.0
deleted_stays_hidden_example =
    deleted_stays_hidden (λ t. some 0) platform (codes "d") 5 publication filters store deletes.1
      searches.1

publish_version_iff_example :
    ((new : Store ℕ) × (publish_version (codes "v") 1 6 store ≡ ok new)) ↔ (
      ((v : DocumentVersion) × (get_version (codes "v") store ≡ ok v))
      × (length (version_chunks (codes "v") store) ≡ 1)
      × All (λ c. has_vector (codes "v") 1 6 store c ≡ true) (version_chunks (codes "v") store))
publish_version_iff_example = publish_version_iff (codes "v") 1 6 store
