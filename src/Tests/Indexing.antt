-- ===== src/Tests/Indexing.antt =====
-- A version that is embedded, ingested and indexed.
use project_rag.Prelude.{
  ℕ, ◌≡◌, ◌+◌, refl, codes, none, some, Text, List, [], ◌∷◌, map, All, length, member, list_eq,
  nat_eq, ok, raise, Result, list_beq, strip, is_space, true, arith,
}
use project_rag.Prelude.Actions.{pure}
use project_rag.Ingestion.Batches.{embedding_batches}
use project_rag.Ingestion.Service.Embed.{
  Failure, unexpected, embed, embed_one, embed_pairs, embed_batches,
}
use project_rag.Ingestion.Service.Attempt.{Repository, Parts, ingest}
use project_rag.Ingestion.Service.Protocol.{logged, Ended, ingest-Ended}
use project_rag.Ingestion.Service.Vectors.{IsVector, Agrees, embed_lem}
use project_rag.Store.Rows.{Chunk, Store}
use project_rag.Store.Changes.{get_version, publish_version}
use project_rag.Store.Chunks.{
  SourceChunk, chunk_row, chunk_rows, insert_chunks, delete_for_version, replace_chunks,
  write_vectors, save_embeddings,
}
use project_rag.Store.Indexing.{publish_after_save}
use project_rag.Tests.Chunking.{three_chunks, two_blocks}
use project_rag.Tests.Deletion.{lower, store}
use project_rag.Tests.Retrieval.{numbers}

abbrev sources : List SourceChunk
sources =
    record { id = codes "a"; ordinal = 0; text = codes " one "; content_hash = codes "A" }
    ∷ record { id = codes "b"; ordinal = 1; text = codes "two"; content_hash = codes "b" }
    ∷ []

abbrev pairs : List (Text × List ℕ)
pairs = (codes "a", 1 ∷ []) ∷ (codes "b", 2 ∷ []) ∷ []

replaces : (r : List (Chunk ℕ) × Store ℕ) × (replace_chunks lower (codes "v") sources store ≡ ok r)
unfolding replace_chunks get_version chunk_rows chunk_row insert_chunks delete_for_version list_beq
    strip is_space
replaces = (_, refl)

saves : (r : ℕ × Store ℕ) × (save_embeddings (λ x. true) 1 (codes "v") pairs 1 replaces.0.1 ≡ ok r)
unfolding replaces save_embeddings write_vectors list_beq
saves = (_, refl)

with_vectors : All (λ c. member c.id (map (λ p. p.0) pairs) ≡ true) replaces.0.0
unfolding replaces list_beq
with_vectors = (refl, (refl, tt))

publish_after_save_example :
    (new : Store ℕ) × (publish_version (codes "v") (length replaces.0.0) 7 saves.0.1 ≡ ok new)
publish_after_save_example =
    publish_after_save lower (λ x. true) 1 (codes "v") sources pairs 1 7 store replaces.1 saves.1
      with_vectors

abbrev embed_texts : List Text → Result Failure (List (List ℕ))
embed_texts texts = ok (map (λ t. length t ∷ 1 ∷ []) texts)

embeds : (r : List (Text × List ℕ) × ℕ) × (embed numbers embed_texts 2 10 none three_chunks ≡ ok r)
unfolding embed embed_batches embed_pairs embed_one embedding_batches
embeds = (_, refl)

embed_lem_example :
    (map (λ v. v.0) embeds.0.0 ≡ map (λ c. c.id) three_chunks)
    × All (IsVector numbers embeds.0.1) embeds.0.0
    × Agrees none embeds.0.1
embed_lem_example = embed_lem numbers embed_texts 2 10 none three_chunks (omega arith) embeds.1

-- A repository that counts its calls, whose publication raises.
abbrev counting : Repository ℕ ℕ ℕ
counting = record {
  get_version = λ id. pure (
      some (record {
        id = id;
        blob_uri = codes "local://f.txt";
        filename = codes "f.txt";
        title = none;
      }));
  set_status = λ id status code message n. (ok tt, n + 1);
  replace_chunks = λ id chunks n. (ok tt, n + 1);
  save_embeddings = λ id vectors dimensions n. (ok tt, n + 1);
  publish_version = λ id expected n. (raise unexpected, n + 1);
}

abbrev parts : Parts ℕ ℕ
parts = record {
  get_bytes = λ uri. ok (codes "text");
  parse = λ bytes filename. ok two_blocks;
  normalize = λ blocks. blocks;
  chunk = λ blocks id title. ok three_chunks;
  embed_texts = embed_texts;
  dimensions = some 2;
  batch_size = 2;
  batch_token_limit = 10;
  message_of = λ failure. codes "failed";
}

ingest-Ended_example :
    Ended numbers counting parts (ingest numbers (logged counting) parts (codes "v") (0, []))
ingest-Ended_example = ingest-Ended numbers counting parts (codes "v") 0
