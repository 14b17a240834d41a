-- ===== src/Store/Retrieval.antt =====
-- `ChunkRepository._retrieval_statement` of repositories.py: the rows that a search may see. Times
-- in the filters are read by the standard library: `parse_time` is a parameter, which gives no time
-- where `fromisoformat` raises.
use project_rag.Prelude.{
  ℕ, Text, Option, none, some, List, map, Bool, true, false, not, ◌&&◌, ◌||◌, is_empty, strip,
  member, every, keep, concat, is_some, leb, list_eq, nat_eq, option_eq, ◌==◌, Result, ok, raise,
  raise_if, ◌>>=◌, ◌>>◌,
}
use project_rag.Retrieval.Models.{RetrievalFilters}
use project_rag.Store.Rows.{
  Document, DocumentVersion, Chunk, Store, document_is_ready, version_is_ready,
}

pub data StoreError : Type 0 where
  tenant_required not_found count_mismatch missing_vectors duplicate_key : StoreError
  document_required bad_digest no_text bad_dimensions duplicate_embedding bad_vector bad_time :
      StoreError

pub record Row (F : Type 0) : Type 0 where
  pub chunk : Chunk F
  pub version : DocumentVersion
  pub document : Document

abbrev pub in_collection : Option Text → Text → Bool
in_collection none collection = true
in_collection (some wanted) collection = collection == wanted

abbrev pub time_read : Option ℕ → Result StoreError (Option ℕ)
time_read none = raise bad_time
time_read (some time) = ok (some time)

-- `_parse_iso_datetime` maps no text and the empty text to no bound.
unfoldable pub time_of : (Text → Option ℕ) → Option Text → Result StoreError (Option ℕ)
time_of parse_time none = ok none
time_of parse_time (some text) = elim (is_empty text) [
  | true ↦ ok none
  | false ↦ time_read (parse_time text)
]

abbrev pub is_after : Option ℕ → ℕ → Bool
is_after none time = true
is_after (some bound) time = leb bound time

abbrev pub is_before : Option ℕ → ℕ → Bool
is_before none time = true
is_before (some bound) time = leb time bound

module _ {F : Type 0} where
  -- The product of the three tables that the joins filter.
  unfoldable pub product : Store F → List (Row F)
  product s = concat (
      map
        (λ c. concat (
          map (λ v. map (λ d. record { chunk = c; version = v; document = d }) s.documents)
            s.versions))
        s.chunks)

  -- The conditions of the joins and those that hold for every search.
  unfoldable pub is_visible : Text → Row F → Bool
  is_visible tenant r =
      r.version.id == r.chunk.version_id
      && r.document.id == r.chunk.document_id
      && r.chunk.tenant_id == tenant
      && r.document.tenant_id == tenant
      && not (is_some r.document.deleted_at)
      && document_is_ready r.document.status
      && r.document.current_version_id == some r.chunk.version_id
      && version_is_ready r.version.status
      && is_some r.chunk.embedding

  -- The conditions that the filters add.
  unfoldable pub passes : Option ℕ → Option ℕ → RetrievalFilters → Row F → Bool
  passes after before f r =
      in_collection f.collection_id r.chunk.collection_id
      && (is_empty f.document_ids || member r.chunk.document_id f.document_ids)
      && (is_empty f.tags || every (λ t. member t r.document.tags) f.tags)
      && is_after after r.document.created_at
      && is_before before r.document.created_at

  unfoldable pub retrieval_rows :
      (Text → Option ℕ) → Store F → RetrievalFilters → Result StoreError (List (Row F))
  unfolding product
  retrieval_rows parse_time s f = do
    raise_if (is_empty (strip f.tenant_id)) tenant_required
    after ← time_of parse_time f.created_after
    before ← time_of parse_time f.created_before
    ok (keep (λ r. is_visible f.tenant_id r && passes after before f r) (product s))
