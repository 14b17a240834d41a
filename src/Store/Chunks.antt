-- ===== src/Store/Chunks.antt =====
-- `delete_for_version`, `replace_for_version` and `save_embeddings` of repositories.py, as
-- `IngestionRepository` calls them. The chunks come from the chunker and carry their ids, which are
-- UUIDs, and hashes; `lower` is Python's `str.lower`, `is_finite` and `dimensions` are of floats.
use project_rag.Prelude.{
  ℕ, ◌+◌, Text, none, some, List, [], ◌∷◌, ◌++◌, Bool, not, ◌&&◌, ◌||◌, any, every, member, keep,
  length, nat_beq, is_empty, strip, list_eq, nat_eq, ◌==◌, Result, ok, raise_if, ◌>>=◌, ◌>>◌,
}
use project_rag.Store.Rows.{DocumentVersion, Chunk, Store}
use project_rag.Store.Retrieval.{
  StoreError, not_found, duplicate_key, no_text, bad_dimensions, duplicate_embedding, bad_vector,
}
use project_rag.Store.Jobs.{update}
use project_rag.Store.Changes.{get_version, version_has_id, with_versions}

-- What `replace_for_version` reads of a chunk.
pub record SourceChunk : Type 0 where
  pub id : Text
  pub ordinal : ℕ
  pub text : Text
  pub content_hash : Text

module _ {F : Type 0} where
  abbrev pub chunk_of_version : Text → Chunk F → Bool
  chunk_of_version id c = c.version_id == id

  unfoldable pub delete_for_version : Text → Store F → Store F
  delete_for_version id s = record s { chunks = keep (λ c. not (chunk_of_version id c)) s.chunks }

  unfoldable pub chunk_row :
      (Text → Text) → DocumentVersion → SourceChunk → Result StoreError (Chunk F)
  chunk_row lower v source = do
    raise_if (is_empty (strip source.text)) no_text
    ok (record {
      id = source.id;
      version_id = v.id;
      document_id = v.document_id;
      tenant_id = v.tenant_id;
      collection_id = v.collection_id;
      ordinal = source.ordinal;
      text = strip source.text;
      content_hash = lower source.content_hash;
      embedding = none;
    })

  unfoldable pub chunk_rows :
      (Text → Text) → DocumentVersion → List SourceChunk → Result StoreError (List (Chunk F))
  chunk_rows lower v [] = ok []
  chunk_rows lower v (source ∷ sources) = do
    row ← chunk_row lower v source
    rows ← chunk_rows lower v sources
    ok (row ∷ rows)

  -- The primary key, and the unique constraint on the version and the ordinal.
  abbrev pub clashes_with : Chunk F → Chunk F → Bool
  clashes_with c other =
      other.id == c.id || other.version_id == c.version_id && nat_beq other.ordinal c.ordinal

  unfoldable pub insert_chunks :
      List (Chunk F) → List (Chunk F) → Result StoreError (List (Chunk F))
  insert_chunks [] table = ok table
  insert_chunks (c ∷ rows) table = do
    raise_if (any (clashes_with c) table) duplicate_key
    insert_chunks rows (table ++ c ∷ [])

  unfoldable pub replace_chunks :
      (Text → Text)
      → Text
      → List SourceChunk
      → Store F
      → Result StoreError (List (Chunk F) × Store F)
  replace_chunks lower version_id sources s = do
    v ← get_version version_id s
    rows ← chunk_rows lower v sources
    table ← insert_chunks rows (delete_for_version v.id s).chunks
    ok (
      rows,
      with_versions (version_has_id v.id) (λ v. record v { expected_chunk_count = length rows })
          (record s { chunks = table }),
    )

  abbrev pub is_target : Text → Text → Chunk F → Bool
  is_target version_id id c = c.id == id && c.version_id == version_id

  -- The loop of `save_embeddings`, with the ids that it has seen and the rows that it has changed.
  unfoldable pub write_vectors :
      (F → Bool)
      → Text
      → ℕ
      → List Text
      → ℕ
      → List (Text × List F)
      → List (Chunk F)
      → Result StoreError (ℕ × List (Chunk F))
  write_vectors is_finite version_id dimensions seen updated [] table = ok (updated, table)
  write_vectors is_finite version_id dimensions seen updated ((id, vector) ∷ pairs) table = do
    raise_if (member id seen) duplicate_embedding
    raise_if (not (nat_beq (length vector) dimensions)) bad_vector
    raise_if (not (every is_finite vector)) bad_vector
    raise_if (not (any (is_target version_id id) table)) not_found
    write_vectors is_finite version_id dimensions (id ∷ seen)
        (updated + length (keep (is_target version_id id) table)) pairs
        (update (is_target version_id id) (λ c. record c { embedding = some vector }) table)

  -- `schema` is `EMBEDDING_DIMENSIONS`.
  unfoldable pub save_embeddings :
      (F → Bool) → ℕ → Text → List (Text × List F) → ℕ → Store F → Result StoreError (ℕ × Store F)
  save_embeddings is_finite schema version_id pairs dimensions s = do
    raise_if (not (nat_beq dimensions schema)) bad_dimensions
    written ← write_vectors is_finite version_id dimensions [] 0 pairs s.chunks
    ok (
      written.0,
      with_versions (version_has_id version_id) (λ v. record v { indexed_chunk_count = written.0 })
          (record s { chunks = written.1 }),
    )
