-- ===== src/Ingestion/Batches.antt =====
-- src/rag/ingestion/service.py, `_embedding_batches`: chunks in order, cut into requests that
-- respect a count limit and a token limit.
use project_rag.Prelude.{
  ℕ, ◌+◌, ◌≤◌, ◌<◌, ◌≡◌, refl, ◌≢◌, ◌⊎◌, inl, inr, Bool, true, false, not, ◌&&◌, ◌||◌, List, [],
  ◌∷◌, ◌++◌, append_assoc, length, length-append, is_empty, concat, All, ltb, leb, if◌then◌else◌,
  arith, Bool-cases, ◌∙◌, ap,
}
use project_rag.Ingestion.Models.{Chunk}

module _ {V : Type 0} (size limit : ℕ) where
  abbrev would_exceed : List (Chunk V) → ℕ → Chunk V → Bool
  would_exceed current tokens chunk =
      leb size (length current)
      || (not (is_empty current) && ltb limit (tokens + chunk.token_count))

  -- The loop, with `batches` as the batches still to come.
  unfoldable pub batches_from : List (Chunk V) → ℕ → List (Chunk V) → List (List (Chunk V))
  batches_from current tokens [] = if is_empty current then [] else current ∷ []
  batches_from current tokens (chunk ∷ rest) =
      let extended = batches_from (current ++ chunk ∷ []) (tokens + chunk.token_count) rest in
      let fresh = batches_from (chunk ∷ []) chunk.token_count rest in
      if would_exceed current tokens chunk then current ∷ fresh else extended

  unfoldable pub embedding_batches : List (Chunk V) → List (List (Chunk V))
  unfolding batches_from
  embedding_batches = batches_from [] 0

abbrev pub tokens_of : {V : Type 0} → List (Chunk V) → ℕ
tokens_of [] = 0
tokens_of (c ∷ cs) = c.token_count + tokens_of cs

tokens_of-snoc :
    {V : Type 0} (xs : List (Chunk V)) (c : Chunk V)
    → tokens_of (xs ++ c ∷ []) ≡ tokens_of xs + c.token_count
tokens_of-snoc [] c = omega arith
tokens_of-snoc (x ∷ xs) c = omega (arith, tokens_of-snoc xs c)

-- A request that may be sent: not empty, not too long, and within the token limit unless it is one
-- chunk that is over the limit by itself.
abbrev pub IsBatch : {V : Type 0} → ℕ → ℕ → List (Chunk V) → Type 0
IsBatch size limit b = (0 < length b) × (length b ≤ size) × ((tokens_of b ≤ limit) ⊎ (length b ≡ 1))

module _ {V : Type 0} (size limit : ℕ) (positive : 0 < size) where
  concat-batches_from :
      (current : List (Chunk V)) (tokens : ℕ) (chunks : List (Chunk V))
      → concat (batches_from size limit current tokens chunks) ≡ current ++ chunks
  unfolding batches_from
  concat-batches_from [] tokens [] = refl
  concat-batches_from (c ∷ cs) tokens [] = refl
  concat-batches_from current tokens (chunk ∷ rest) =
      elim (Bool-cases (would_exceed size limit current tokens chunk)) [
        | inl cut ↦
            rw cut (ap (◌++◌ current) (concat-batches_from (chunk ∷ []) chunk.token_count rest))
        | inr fits ↦ rw fits (
            concat-batches_from (current ++ chunk ∷ []) (tokens + chunk.token_count) rest
            ∙ append_assoc current (chunk ∷ []) rest)
      ]

  grown :
      (b : List (Chunk V))
      → (length b ≡ 0) ⊎ IsBatch size limit b
      → length b ≢ 0
      → IsBatch size limit b
  grown b (inl none_yet) some_now = absurd (some_now none_yet)
  grown b (inr h) some_now = h

  single : (c : Chunk V) → IsBatch size limit (c ∷ [])
  single c = (omega arith, omega arith, inr refl)

  closed-IsBatch :
      (current : List (Chunk V)) (tokens : ℕ) (chunk : Chunk V)
      → (length current ≡ 0) ⊎ IsBatch size limit current
      → would_exceed size limit current tokens chunk ≡ true
      → IsBatch size limit current
  closed-IsBatch [] tokens chunk h cut = absurd (ground arith)
  closed-IsBatch (c ∷ cs) tokens chunk h cut = grown (c ∷ cs) h (omega arith)

  extended-IsBatch :
      (current : List (Chunk V)) (tokens : ℕ) (chunk : Chunk V)
      → tokens ≡ tokens_of current
      → would_exceed size limit current tokens chunk ≡ false
      → IsBatch size limit (current ++ chunk ∷ [])
  extended-IsBatch [] tokens chunk e fits = single chunk
  extended-IsBatch (c ∷ cs) tokens chunk e fits = (
    omega arith,
    ground (arith, length-append cs (chunk ∷ [])),
    inl (ground (arith, tokens_of-snoc cs chunk)),
  )

  batches_from-IsBatch :
      (current : List (Chunk V)) (tokens : ℕ) (chunks : List (Chunk V))
      → tokens ≡ tokens_of current
      → (length current ≡ 0) ⊎ IsBatch size limit current
      → All (IsBatch size limit) (batches_from size limit current tokens chunks)
  unfolding batches_from
  batches_from-IsBatch [] tokens [] e h = tt
  batches_from-IsBatch (c ∷ cs) tokens [] e h = (grown (c ∷ cs) h (omega arith), tt)
  batches_from-IsBatch current tokens (chunk ∷ rest) e h =
      elim (Bool-cases (would_exceed size limit current tokens chunk)) [
        | inl cut ↦ rw cut (
          closed-IsBatch current tokens chunk h cut,
          batches_from-IsBatch (chunk ∷ []) chunk.token_count rest (omega arith)
              (inr (single chunk)),
        )
        | inr fits ↦ rw fits (
            batches_from-IsBatch (current ++ chunk ∷ []) (tokens + chunk.token_count) rest
              (omega (arith, tokens_of-snoc current chunk))
              (inr (extended-IsBatch current tokens chunk e fits)))
      ]

  -- For a positive batch size, the batches hold all chunks in their order, and every batch has at
  -- least one chunk, at most the size limit, and at most the token limit unless it is one chunk.
  pub embedding_batches_lem :
      (chunks : List (Chunk V))
      → (concat (embedding_batches size limit chunks) ≡ chunks)
        × All (IsBatch size limit) (embedding_batches size limit chunks)
  unfolding embedding_batches
  embedding_batches_lem chunks =
      (concat-batches_from [] 0 chunks, batches_from-IsBatch [] 0 chunks refl (inl refl))
