-- ===== src/Ingestion/Service/Embed.antt =====
-- `_embed` of service.py: the vectors of all chunks, checked. The provider's call for a batch of
-- texts is a parameter; it returns lists of floats, or raises an ingestion error or another
-- exception. What the interface of the model rules out is left out: results that are no list, and
-- components that are Booleans or no numbers, which _embed also refuses.
use project_rag.Prelude.{
  ℕ, Text, Option, none, some, List, [], ◌∷◌, ◌++◌, map, Bool, false, not, any, is_empty, length,
  nat_beq, Result, ok, raise, raise_if, ◌>>=◌, ◌>>◌,
}
use project_rag.Prelude.Floats.{Floats}
use project_rag.Ingestion.Errors.{IngestionError, embedding_error, embedding_validation}
use project_rag.Ingestion.Models.{Chunk}
use project_rag.Ingestion.Batches.{embedding_batches}

-- An exception: the class of the service's own errors, or another class. The message is not kept.
pub data Failure : Type 0 where
  expected : IngestionError → Failure
  unexpected : Failure

abbrev pub invalid : Failure
invalid = expected embedding_validation

-- What has been embedded so far, and the dimension if it is known.
pub record Embedded (F : Type 0) : Type 0 where
  pub vectors : List (Text × List F)
  pub dimensions : Option ℕ

abbrev pub expected_dimension : {F : Type 0} → Option ℕ → List F → ℕ
expected_dimension none vector = length vector
expected_dimension (some n) vector = n

-- `except IngestionError: raise`, and every other exception as an `EmbeddingError`
abbrev pub as_embedding_error : {A : Type 0} → Result Failure A → Result Failure A
as_embedding_error (ok a) = ok a
as_embedding_error (raise (expected e)) = raise (expected e)
as_embedding_error (raise unexpected) = raise (expected embedding_error)

abbrev pub finished :
    {F : Type 0} → Option ℕ → List (Text × List F) → Result Failure (List (Text × List F) × ℕ)
finished none vectors = raise invalid
finished (some n) vectors = ok (vectors, n)

abbrev pub is_zero_dimension : Option ℕ → Bool
is_zero_dimension none = false
is_zero_dimension (some n) = nat_beq n 0

module _ (fl : Floats) {V : Type 0} where
  open fl use {Float, is_finite}

  -- One chunk of a batch and its vector.
  unfoldable pub embed_one : Embedded Float → Chunk V → List Float → Result Failure (Embedded Float)
  embed_one done chunk vector = do
    raise_if (is_empty vector) invalid
    raise_if (not (nat_beq (length vector) (expected_dimension done.dimensions vector))) invalid
    raise_if (any (λ x. not (is_finite x)) vector) invalid
    ok (record {
      vectors = done.vectors ++ (chunk.id, vector) ∷ [];
      dimensions = some (expected_dimension done.dimensions vector);
    })

  -- `zip` of a batch and its vectors, which are as many.
  unfoldable pub embed_pairs :
      Embedded Float → List (Chunk V) → List (List Float) → Result Failure (Embedded Float)
  embed_pairs done (chunk ∷ chunks) (vector ∷ vectors) =
      embed_one done chunk vector >>= λ next. embed_pairs next chunks vectors
  embed_pairs done [] vectors = ok done
  embed_pairs done (chunk ∷ chunks) [] = ok done

  module _ (embed_texts : List Text → Result Failure (List (List Float))) (size limit : ℕ) where
    unfoldable pub embed_batches :
        Embedded Float → List (List (Chunk V)) → Result Failure (Embedded Float)
    embed_batches done [] = ok done
    embed_batches done (batch ∷ batches) = do
      vectors ← as_embedding_error (embed_texts (map (λ c. c.embedding_text) batch))
      raise_if (not (nat_beq (length vectors) (length batch))) invalid
      next ← embed_pairs done batch vectors
      embed_batches next batches

    unfoldable pub embed : Option ℕ → List (Chunk V) → Result Failure (List (Text × List Float) × ℕ)
    embed configured chunks = do
      raise_if (is_zero_dimension configured) invalid
      done ←
          embed_batches (record { vectors = []; dimensions = configured })
            (embedding_batches size limit chunks)
      finished done.dimensions done.vectors
