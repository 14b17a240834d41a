-- ===== src/Ingestion/Service/Attempt.antt =====
-- `ingest`, `_set_status`, `_record_failure` and `_failure_for` of service.py. The repository is an
-- interface over its state; blob store, parsers, normalizer and chunker are what the service is
-- given. A call that raises may have changed the state.
use project_rag.Prelude.{
  ℕ, Text, codes, Option, none, some, List, Bool, is_empty, length, path_stem, if◌then◌else◌,
  Result, ok, raise,
}
use project_rag.Prelude.Floats.{Floats}
use project_rag.Prelude.Actions.{Action, ◌>>=◌, ◌>>◌, pure, lift, fail_if}
use project_rag.Ingestion.Errors.{
  IngestionStatus, parsing, chunking, embedding, indexing, ready, failed_parse, failed_embed,
  failed_index, IngestionError, document_parse, empty_document, indexing_error, status_of, code_of,
}
use project_rag.Ingestion.Models.{Block, Chunk}
use project_rag.Ingestion.Service.Embed.{Failure, expected, unexpected, embed}

-- What the service reads of a version. A blob URI that is missing is the empty text.
pub record VersionRecord : Type 0 where
  pub id : Text
  pub blob_uri : Text
  pub filename : Text
  pub title : Option Text

pub record Repository (S F V : Type 0) : Type 0 where
  pub get_version : Text → Action S Failure (Option VersionRecord)
  pub set_status : Text → IngestionStatus → Option Text → Option Text → Action S Failure (Unit {0})
  pub replace_chunks : Text → List (Chunk V) → Action S Failure (Unit {0})
  pub save_embeddings : Text → List (Text × List F) → ℕ → Action S Failure (Unit {0})
  pub publish_version : Text → ℕ → Action S Failure (Unit {0})

-- The other parts that the service is built from.
pub record Parts (F V : Type 0) : Type 0 where
  pub get_bytes : Text → Result Failure (List ℕ)
  pub parse : List ℕ → Text → Result Failure (List (Block V))
  pub normalize : List (Block V) → List (Block V)
  pub chunk : List (Block V) → Text → Text → Result Failure (List (Chunk V))
  pub embed_texts : List Text → Result Failure (List (List F))
  pub dimensions : Option ℕ
  pub batch_size : ℕ
  pub batch_token_limit : ℕ
  -- `str(exc)[:2000]`
  pub message_of : Failure → Text

pub record IngestionResult : Type 0 where
  pub version_id : Text
  pub status : IngestionStatus
  pub chunk_count : ℕ
  pub embedding_dimensions : ℕ

-- An exception of the attempt, and the phase in which it was raised.
pub record Failed : Type 0 where
  pub failure : Failure
  pub phase : IngestionStatus

-- `_failure_for`
unfoldable pub failure_for : Failure → IngestionStatus → IngestionStatus × Text
failure_for (expected error) phase = (status_of error, code_of error)
failure_for unexpected embedding = (failed_embed, codes "embedding_failed")
failure_for unexpected indexing = (failed_index, codes "indexing_failed")
failure_for unexpected _ = (failed_parse, codes "document_parse_failed")

-- `title or Path(filename).stem`
abbrev pub title_of : VersionRecord → Text
title_of v = elim v.title [
  | none ↦ path_stem v.filename
  | some t ↦ if is_empty t then path_stem v.filename else t
]

-- `except IngestionError: raise`, and every other exception as an `IndexingError`
abbrev pub as_indexing_error : Failure → Failure
as_indexing_error (expected e) = expected e
as_indexing_error unexpected = expected indexing_error

module _ {S : Type 0} where
  abbrev pub raised_during :
      {A : Type 0} → IngestionStatus → Result Failure A × S → Result Failed A × S
  raised_during phase (ok a, s) = (ok a, s)
  raised_during phase (raise e, s) = (raise (record { failure = e; phase = phase }), s)

  -- A call made in a phase.
  abbrev pub during : {A : Type 0} → IngestionStatus → Action S Failure A → Action S Failed A
  during phase m s = raised_during phase (m s)

  abbrev pub indexed : {A : Type 0} → Result Failure A × S → Result Failure A × S
  indexed (ok a, s) = (ok a, s)
  indexed (raise e, s) = (raise (as_indexing_error e), s)

  abbrev pub fail : {A : Type 0} → IngestionStatus → IngestionError → Action S Failed A
  fail phase e = lift (raise (record { failure = expected e; phase = phase }))

  abbrev pub known : Option VersionRecord → Action S Failed VersionRecord
  known none = fail parsing document_parse
  known (some v) = pure v

module _ (fl : Floats) {S V : Type 0} (r : Repository S fl.Float V) (p : Parts fl.Float V) where
  open fl use {Float}

  -- `_set_status`
  abbrev pub set_phase : Text → IngestionStatus → Action S Failed (Unit {0})
  set_phase id phase = during phase (r.set_status id phase none none)

  abbrev pub refuse_if : Bool → IngestionStatus → IngestionError → Action S Failed (Unit {0})
  refuse_if test phase e = fail_if test (record { failure = expected e; phase = phase })

  abbrev pub write : Action S Failure (Unit {0}) → Action S Failed (Unit {0})
  write m s = raised_during indexing (indexed (m s))

  -- The body of the `try`.
  unfoldable pub attempt : Text → Action S Failed IngestionResult
  attempt id = do
    found ← during parsing (r.get_version id)
    version ← known found
    refuse_if (is_empty version.blob_uri) parsing document_parse
    set_phase id parsing
    raw ← during parsing (lift (p.get_bytes version.blob_uri))
    parsed ← during parsing (lift (p.parse raw version.filename))
    let blocks = p.normalize parsed
    refuse_if (is_empty blocks) parsing empty_document
    set_phase id chunking
    chunks ← during chunking (lift (p.chunk blocks version.id (title_of version)))
    refuse_if (is_empty chunks) chunking empty_document
    set_phase id embedding
    embedded ←
        during embedding
          (lift (embed fl p.embed_texts p.batch_size p.batch_token_limit p.dimensions chunks))
    set_phase id indexing
    write (r.replace_chunks id chunks)
    write (r.save_embeddings id embedded.0 embedded.1)
    write (r.publish_version id (length chunks))
    pure (record {
      version_id = version.id;
      status = ready;
      chunk_count = length chunks;
      embedding_dimensions = embedded.1;
    })

  -- `_record_failure`: an exception of its own is dropped.
  unfoldable pub record_failure : Text → Failed → S → S
  record_failure id e s =
      let (status, code) = failure_for e.failure e.phase in
      (r.set_status id status (some code) (some (p.message_of e.failure)) s).1

  abbrev pub concluded :
      Text → Result Failed IngestionResult × S → Result Failure IngestionResult × S
  concluded id (ok result, s) = (ok result, s)
  concluded id (raise e, s) = (raise e.failure, record_failure id e s)

  unfoldable pub ingest : Text → Action S Failure IngestionResult
  ingest id s = concluded id (attempt id s)
