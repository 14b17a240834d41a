-- ===== src/Ingestion/Chunking/Chunks.antt =====
-- `chunk` of chunking.py, end to end: it ends, no source text is lost, and what the chunks are.
use project_rag.Prelude.{
  ℕ, suc, ◌≤◌, ◌<◌, ◌≡◌, refl, ap, ◌∙◌, sym, Text, none, some, List, [], ◌∷◌, ◌++◌, append_assoc,
  false, not, ok, raise, strip, is_empty, ltb, nat_beq, concat, All, keep, sort_by, arith,
  Bool-cases, inl, inr, list_eq, nat_eq, ◌==◌,
}
use project_rag.Ingestion.Models.{Platform, Block, Chunk, content_hash, deterministic_chunk_id}
use project_rag.Ingestion.Chunking.Config.{Chunker, Piece, IsCounter, IsConfigured}
use project_rag.Ingestion.Chunking.Split.{Raises}
use project_rag.Ingestion.Chunking.Pack.{tokens_of}
use project_rag.Ingestion.Chunking.Drafts.{IsDraft, fresh}
use project_rag.Ingestion.Chunking.Assemble.{
  Run, group_from, group_sections, split_blocks, drafts_of, chunk_of, chunks_from, chunk, finish,
}
use project_rag.Ingestion.Chunking.Coverage.{Ends, Drafts, drafts_of-Drafts}

-- Chunk numbers rise.
abbrev pub Ascending : {V : Type 0} → ℕ → List (Chunk V) → Type 0
Ascending from [] = Unit
Ascending from (made ∷ chunks) = (from ≤ made.ordinal) × Ascending (suc made.ordinal) chunks

module _ (p : Platform) where
  concat-group_from :
      (current : List (Block p.Value)) (last : Block p.Value) (blocks : List (Block p.Value))
      → concat (group_from p current last blocks) ≡ current ++ blocks
  unfolding group_from
  concat-group_from current last [] = refl
  concat-group_from current last (block ∷ blocks) =
      elim (Bool-cases (not (last.section_path == block.section_path))) [
        | inl other ↦ rw other (ap (◌++◌ current) (concat-group_from (block ∷ []) block blocks))
        | inr same ↦ rw same (
            concat-group_from (current ++ block ∷ []) block blocks
            ∙ append_assoc current (block ∷ []) blocks)
      ]

  pub concat-group_sections :
      (blocks : List (Block p.Value)) → concat (group_sections p blocks) ≡ blocks
  unfolding group_sections
  concat-group_sections [] = refl
  concat-group_sections (block ∷ blocks) = concat-group_from (block ∷ []) block blocks

  -- Sorted by their order, without the blank ones.
  abbrev pub source_blocks : List (Block p.Value) → List (Block p.Value)
  source_blocks blocks =
      keep (λ b. not (is_empty (strip b.text))) (sort_by (λ a b. ltb a.order b.order) blocks)

  module _ (sentences : Text → List Text) (c : Chunker) where
    abbrev pub IsChunk : Text → Chunk p.Value → Type 0
    IsChunk version_id made =
        (0 < made.token_count)
        × (made.token_count ≤ c.max_tokens)
        × (made.token_count ≡ c.count_tokens made.text)
        × (made.id ≡ deterministic_chunk_id p version_id made.ordinal (content_hash p made.text))

    abbrev pub Chunked : Text → ℕ → List (Chunk p.Value) → Type 0
    Chunked version_id from chunks = All (IsChunk version_id) chunks × Ascending from chunks

    Ascending-weaken :
        (from : ℕ) (chunks : List (Chunk p.Value))
        → Ascending (suc from) chunks
        → Ascending from chunks
    Ascending-weaken from [] h = tt
    Ascending-weaken from (made ∷ chunks) h = (omega arith, h.1)

    abbrev pub Made : Text → ℕ → Raises (List (Chunk p.Value)) → Type 0
    Made version_id from r =
        (chunks : List (Chunk p.Value)) × (r ≡ ok chunks) × Chunked version_id from chunks

    chunk_of-IsChunk :
        (version_id title : Text) (ordinal : ℕ) (pieces : List (Piece p.Value))
        → IsDraft c pieces
        → nat_beq (tokens_of c pieces) 0 ≡ false
        → IsChunk version_id (chunk_of p sentences c version_id title ordinal pieces)
    unfolding chunk_of
    chunk_of-IsChunk version_id title ordinal pieces d some_text = (ground arith, d.1, refl, refl)

    chunk_of-Ascending :
        (version_id title : Text) (ordinal : ℕ) (pieces : List (Piece p.Value))
        (chunks : List (Chunk p.Value))
        → Ascending (suc ordinal) chunks
        → Ascending ordinal (chunk_of p sentences c version_id title ordinal pieces ∷ chunks)
    unfolding chunk_of
    chunk_of-Ascending version_id title ordinal pieces chunks h = (omega arith, h)

    within :
        (pieces : List (Piece p.Value))
        → IsDraft c pieces
        → ltb c.max_tokens (tokens_of c pieces) ≡ false
    within pieces d = ground arith

    -- Drafts that fit make chunks, and no error.
    chunks_from-Made :
        (version_id title : Text) (ordinal : ℕ) (drafts : List (List (Piece p.Value)))
        → All (IsDraft c) drafts
        → Made version_id ordinal (chunks_from p sentences c version_id title ordinal drafts)
    unfolding chunks_from
    chunks_from-Made version_id title ordinal [] h = ([], refl, (tt, tt))
    chunks_from-Made version_id title ordinal (pieces ∷ drafts) h =
        let (chunks, e, sound) = chunks_from-Made version_id title (suc ordinal) drafts h.1 in
        elim (Bool-cases (nat_beq (tokens_of c pieces) 0)) [
          | inl nothing ↦ rw nothing (chunks, e, (sound.0, Ascending-weaken ordinal chunks sound.1))
          | inr some_text ↦
              rw (some_text, within pieces h.0)
                (
                  chunk_of p sentences c version_id title ordinal pieces ∷ chunks,
                  rw e,
                  (
                    (chunk_of-IsChunk version_id title ordinal pieces h.0 some_text, sound.0),
                    chunk_of-Ascending version_id title ordinal pieces chunks sound.1,
                  ),
                )
        ]

    -- The chunks of a document: what each is, and that their drafts hold every piece of the blocks.
    abbrev pub Whole : List (Block p.Value) → Text → Text → List (Chunk p.Value) → Type 0
    Whole blocks version_id title chunks =
        Chunked version_id 0 chunks
        × ((drafts : List (List (Piece p.Value))) × (split_blocks p sentences c
                (source_blocks blocks)
              ≡ ok (fresh (concat drafts)))
            × (chunks_from p sentences c version_id title 0 drafts ≡ ok chunks))

    module _ (counter : IsCounter c.count_tokens) (config : IsConfigured c)
        (small : c.overlap_tokens < c.min_tokens) where
      finish-Ends :
          (blocks : List (Block p.Value)) (version_id title : Text)
          (run : Run (List (List (Piece p.Value))))
          → Ends c
              (Drafts p sentences c counter config small (group_sections p (source_blocks blocks)))
              run
          → Ends c (Whole blocks version_id title) (finish p sentences c version_id title run)
      finish-Ends blocks version_id title none h = h
      finish-Ends blocks version_id title (some (raise e)) h = h
      finish-Ends blocks version_id title (some (ok drafts)) h =
          let (chunks, e, sound) = chunks_from-Made version_id title 0 drafts h.0 in
          rw e (
            sound,
            (
              drafts,
              ap (split_blocks p sentences c) (sym (concat-group_sections (source_blocks blocks)))
                  ∙ h.1,
              e,
            ),
          )

      -- For a tokenizer as described, a checked configuration whose overlap is below the minimum,
      -- and a version id: chunking ends. Either it raises `ChunkingError`, and some character
      -- alone is over the target, or every chunk has between one and `max_tokens` tokens, as
      -- counted on its text, and the id of its number and content, the numbers rise, and the
      -- drafts behind the chunks hold every piece of the blocks in order, each once beside the
      -- overlap.
      pub chunk-Ends :
          (blocks : List (Block p.Value)) (version_id title : Text)
          → is_empty version_id ≡ false
          → Ends c (Whole blocks version_id title) (chunk p sentences c blocks version_id title)
      unfolding chunk
      chunk-Ends blocks version_id title named = rw named (
          finish-Ends blocks version_id title
            (drafts_of p sentences c (group_sections p (source_blocks blocks)))
            (drafts_of-Drafts p sentences c counter config small
              (group_sections p (source_blocks blocks))))
