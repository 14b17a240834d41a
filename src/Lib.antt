-- ===== src/Lib.antt =====
-- Verification of a retrieval-augmented generation service: documents are parsed into blocks, cut
-- into chunks, embedded and published (ingestion), and a question is answered from the published
-- chunks with citations (retrieval). The database lies between the two. The program is in src/rag.
--
-- The parts and their files:
--
--   Prelude: Python's lists, texts (lists of code points), dictionaries (association lists in the
--   order of insertion), stable sort, exceptions (Result), and floats (a record of operations).
--   Ingestion.Errors, Ingestion.Models: src/rag/ingestion/errors.py, models.py and identifiers.py.
--   Ingestion.Chunking: src/rag/ingestion/chunking.py. Config is Chunker.__init__, Split is
--   _split_block and what it calls, Pack is _pack_group, _overlap_tail and _suffix, Assemble is chunk
--   and deduplicate_chunks. Search, Parts, Overlap, Drafts, Coverage and Chunks prove.
--   Ingestion.Normalization: src/rag/ingestion/normalization.py. Clean is normalize_text, Margins is
--   Normalizer; Kept proves.
--   Ingestion.Batches: _embedding_batches of src/rag/ingestion/service.py.
--   Ingestion.Service: the rest of src/rag/ingestion/service.py. Embed is _embed, Attempt is ingest with
--   _set_status, _record_failure and _failure_for; Vectors, Protocol and Invariants prove.
--   Retrieval.Models: src/rag/retrieval/models.py.
--   Retrieval.Fusion: src/rag/retrieval/fusion.py. Rrf is reciprocal_rank_fusion, Dedupe is
--   deduplicate_ranked_candidates, Rerank is attach_rerank_scores; Places, RrfRanks, RrfLaws and
--   Rerank.Blend prove.
--   Retrieval.Diversity: src/rag/retrieval/diversity.py; Caps proves.
--   Retrieval.Context: src/rag/retrieval/context.py; Cutting and Budget prove.
--   Retrieval.Citations: src/rag/retrieval/citations.py, and Retrieval.Digits the digits
--   that it reads; Labels, Members, Grounding and TooLong prove.
--   Retrieval.Service: src/rag/retrieval/service.py. Config holds RetrievalConfig and the providers,
--   Search is search, Answer is answer; Pipeline and Grounded prove.
--   Retrieval.ExactCount: src/rag/retrieval/exact_count.py. Request is parse_exact_count_request and
--   _literal_pattern, Count is count_exact_occurrences, _evidence_excerpt and the selection of
--   evidence, Answer is format_exact_count_answer; Totals and Sources prove.
--   Store: src/rag/repositories.py over the tables of src/rag/models.py, which are Rows. Uploads is
--   register_upload and what it calls, Chunks is replace_for_version and save_embeddings, Jobs is
--   IngestionJobRepository, Changes is set_status, publish_version, mark_deleting and mark_deleted,
--   Retrieval is _retrieval_statement, History is a sequence of calls of which those that raise are
--   rolled back. Updates, Hidden, Visibility, Publication, Published, Registration, Numbering and
--   Indexing prove.
--   Blobs: src/rag/blob_store.py. Keys is _safe_key, safe_filename and build_blob_key, Local is
--   LocalBlobStore; Paths, Disks, RoundTrip and Built prove.
--   Worker: src/rag/worker/celery_app.py. Task is TransactionalIngestionRepository and ingest_document,
--   which run ingest on the store; Outcome proves.
--   Tests: runs on concrete inputs.
--
-- How the parts interact: search runs the two searches of the repository, fuses, deduplicates, reranks
-- and selects; answer builds the context from what search returns, calls the generator at most twice
-- and accepts a result by its citations. An upload is registered as a version;
-- ingest reads, chunks and embeds it and calls the repository, and its chunks are searched once
-- publish_version has made the version current.
--
-- Parameters, for code that is not in the repository: floats and their comparison (IsOrdered where
-- an order is proved), Unicode normal forms, hashes, UUIDs and repr (Platform), the tokenizer
-- (IsCounter where counts are compared), the sentence splitter, the module re (Regex), and the
-- embedder, searches, reranker and generator (Providers), which return or raise. For ingest, blob
-- store, parsers, normalizer and chunker are parameters (Parts), and the repository is an interface
-- over a state of its own (Repository). UUIDs that the database draws and times are arguments, and so
-- is when the file system refuses a write. An embedding model is taken to return lists of floats, so
-- that the checks of _embed for booleans, other types and values that are no list have no case here.
--
-- Fuel: the loop of _pack_group runs on fuel, and pack_fuel is shown to be enough where the overlap
-- is below min_tokens; without that the loop need not end. The selection of diversity.py runs on the
-- number of candidates, and the spans of a token on its length; both are enough.
--
-- Not modelled: the HTTP API, storage on S3, model adapters, settings and timings, which are input and
-- output; and the parsers, which call libraries. Of the database,
-- the lengths of columns, the foreign keys and the ranking of the two searches are not modelled.
pub mod Prelude
pub mod Ingestion
pub mod Retrieval
pub mod Store
pub mod Worker
pub mod Blobs
pub mod Tests
