-- ===== src/Tests/Worker.antt =====
-- The background task on a small store.
use project_rag.Prelude.{
  ℕ, ◌≡◌, refl, codes, none, some, List, [], ◌∷◌, map, length, ok, list_beq, strip, is_space,
  sort_by,
}
use project_rag.Ingestion.Batches.{embedding_batches}
use project_rag.Ingestion.Models.{Chunk}
use project_rag.Ingestion.Service.Embed.{embed, embed_one, embed_pairs, embed_batches}
use project_rag.Ingestion.Service.Attempt.{Parts, IngestionResult, attempt, ingest}
use project_rag.Store.Rows.{Store}
use project_rag.Store.Jobs.{
  new_job, latest_for_version, stage_by_status, job_status, update_job, updated_job,
}
use project_rag.Store.Changes.{get_version, set_status, publish_version, document_status}
use project_rag.Store.Chunks.{
  chunk_row, chunk_rows, insert_chunks, delete_for_version, replace_chunks, write_vectors,
  save_embeddings,
}
use project_rag.Store.Hidden.{Hidden, mark_deleting-Hidden}
use project_rag.Store.Published.{Published}
use project_rag.Worker.Task.{version_status, worker_repository, task_finished, ingest_document}
use project_rag.Worker.Outcome.{ingest_document-Hidden, ingest_document-Published}
use project_rag.Tests.Chunking.{two_blocks}
use project_rag.Tests.Deletion.{store, platform, deletes}
use project_rag.Tests.Retrieval.{numbers}

abbrev one_chunk : List (Chunk ℕ)
one_chunk =
    record {
      id = codes "a";
      version_id = codes "v";
      ordinal = 0;
      text = codes "one";
      embedding_text = codes "one";
      token_count = 1;
      content_hash = codes "h";
      block_type = none;
      page_start = none;
      page_end = none;
      section_path = [];
      provenance = [];
    }
    ∷ []

abbrev parts : Parts ℕ ℕ
parts = record {
  get_bytes = λ uri. ok (codes "text");
  parse = λ bytes filename. ok two_blocks;
  normalize = λ blocks. blocks;
  chunk = λ blocks id title. ok one_chunk;
  embed_texts = λ texts. ok (map (λ t. length t ∷ []) texts);
  dimensions = some 1;
  batch_size = 2;
  batch_token_limit = 10;
  message_of = λ failure. codes "failed";
}

finishes :
    (x : IngestionResult × Store ℕ) × (ingest_document numbers platform parts 9 (codes "v") store
      ≡ (ok (task_finished x.0), x.1))
unfolding ingest_document ingest attempt worker_repository version_status get_version set_status
    publish_version replace_chunks chunk_rows chunk_row insert_chunks delete_for_version
    save_embeddings write_vectors embed embed_batches embed_pairs embed_one embedding_batches
    list_beq strip is_space latest_for_version stage_by_status job_status update_job updated_job
    document_status sort_by new_job
finishes = (_, refl)

ingest_document-Published_example : Published (codes "v") finishes.0.0.chunk_count finishes.0.1
ingest_document-Published_example =
    ingest_document-Published numbers platform parts 9 (codes "v") store finishes.1

ingest_document-Hidden_example :
    Hidden (codes "d") (ingest_document numbers platform parts 9 (codes "v") deletes.0).1
ingest_document-Hidden_example =
    ingest_document-Hidden numbers platform parts 9 (codes "d") (codes "v") deletes.0
      (mark_deleting-Hidden (codes "d") 5 store deletes.1)
