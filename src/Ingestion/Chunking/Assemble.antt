-- ===== src/Ingestion/Chunking/Assemble.antt =====
-- `chunk` of chunking.py: groups of one section, drafts of each group, and a chunk for each draft
-- that has tokens. The loop of `_pack_group` may not end, so the whole is an `Option`.
use project_rag.Prelude.{
  ℕ, suc, Text, codes, Option, none, some, List, [], ◌∷◌, ◌++◌, not, ◌&&◌, ok, raise, ◌>>=◌, strip,
  join, is_empty, ltb, nat_beq, if◌then◌else◌, keep, sort_by, ◌==◌, list_eq, nat_eq, min, max,
  every, any,
}
use project_rag.Ingestion.Errors.{chunking_error}
use project_rag.Ingestion.Models.{
  BlockKind, kind_beq, Platform, Block, Chunk, content_hash, deterministic_chunk_id,
}
use project_rag.Ingestion.Chunking.Config.{Chunker, Piece, join_pieces}
use project_rag.Ingestion.Chunking.Split.{Raises, split_block}
use project_rag.Ingestion.Chunking.Pack.{pack_group}

-- The value of a run that ended, or `none`.
abbrev pub Run : Type 0 → Type 0
Run A = Option (Raises A)

-- `min(pages)` and `max(pages)` of the pages that are known.
abbrev fold_page : (ℕ → ℕ → ℕ) → Option ℕ → Option ℕ → Option ℕ
fold_page f none later = later
fold_page f (some p) none = some p
fold_page f (some p) (some q) = some (f p q)

unfoldable pub page_bound : {V : Type 0} → (ℕ → ℕ → ℕ) → List (Piece V) → Option ℕ
page_bound f [] = none
page_bound f (p ∷ ps) = fold_page f p.page (page_bound f ps)

-- The one kind of the pieces, or `none` for "mixed".
unfoldable pub common_kind : {V : Type 0} → List (Piece V) → Option BlockKind
common_kind [] = none
common_kind (p ∷ ps) = if every (λ q. kind_beq p.kind q.kind) ps then some p.kind else none

unfoldable pub embedding_text : Text → List Text → Text → Text
embedding_text document_title section_path text =
    let title =
      if is_empty (strip document_title)
      then []
      else (codes "Document: " ++ strip document_title) ∷ [] in
    let section =
      if is_empty section_path
      then []
      else (codes "Section: " ++ join (codes " > ") section_path) ∷ [] in
    if is_empty (title ++ section)
    then text
    else join (10 ∷ []) (title ++ section) ++ (10 ∷ 10 ∷ text)

module _ (p : Platform) where
  -- `_provenance`: each source once, in the order of its first piece.
  unfoldable pub provenance_from :
      List (ℕ × Text) → List (Piece p.Value) → List (ℕ × Option ℕ × List (Text × p.Value))
  provenance_from seen [] = []
  provenance_from seen (piece ∷ pieces) =
      let key = p.repr_sorted piece.locator in
      let known = provenance_from seen pieces in
      let new = provenance_from ((piece.block_order, key) ∷ seen) pieces in
      if any (λ (order, text). nat_beq order piece.block_order && text == key) seen
      then known
      else (piece.block_order, piece.page, piece.locator) ∷ new

  -- Blocks of one section that follow one another; `current` is the last group, `last` its last
  -- block.
  unfoldable pub group_from :
      List (Block p.Value) → Block p.Value → List (Block p.Value) → List (List (Block p.Value))
  group_from current last [] = current ∷ []
  group_from current last (block ∷ blocks) =
      let same = group_from (current ++ block ∷ []) block blocks in
      let next = group_from (block ∷ []) block blocks in
      if not (last.section_path == block.section_path) then current ∷ next else same

  unfoldable pub group_sections : List (Block p.Value) → List (List (Block p.Value))
  unfolding group_from
  group_sections [] = []
  group_sections (block ∷ blocks) = group_from (block ∷ []) block blocks

  module _ (sentences : Text → List Text) (c : Chunker) where
    unfoldable pub split_blocks : List (Block p.Value) → Raises (List (Piece p.Value))
    split_blocks [] = ok []
    split_blocks (block ∷ blocks) = split_block p sentences c block >>= λ pieces.
        split_blocks blocks >>= λ more. ok (pieces ++ more)

    abbrev pub prepend : {A : Type 0} → List A → Run (List A) → Run (List A)
    prepend first none = none
    prepend first (some rest) = some (rest >>= λ more. ok (first ++ more))

    abbrev pub packed :
        Option (List (List (Piece p.Value)))
        → Run (List (List (Piece p.Value)))
        → Run (List (List (Piece p.Value)))
    packed none rest = none
    packed (some drafts) rest = prepend drafts rest

    unfoldable pub drafts_of : List (List (Block p.Value)) → Run (List (List (Piece p.Value)))
    drafts_of [] = some (ok [])
    drafts_of (group ∷ groups) =
        let rest = drafts_of groups in
        elim (split_blocks group) [
          | raise e ↦ some (raise e)
          | ok pieces ↦ packed (pack_group c pieces) rest
        ]

    abbrev section_of : List (Piece p.Value) → List Text
    section_of [] = []
    section_of (piece ∷ pieces) = piece.section_path

    unfoldable pub chunk_of : Text → Text → ℕ → List (Piece p.Value) → Chunk p.Value
    chunk_of version_id title ordinal pieces =
        let text = join_pieces pieces in
        record {
          id = deterministic_chunk_id p version_id ordinal (content_hash p text);
          version_id = version_id;
          ordinal = ordinal;
          text = text;
          embedding_text = embedding_text title (section_of pieces) text;
          token_count = c.count_tokens text;
          content_hash = content_hash p text;
          block_type = common_kind pieces;
          page_start = page_bound min pieces;
          page_end = page_bound max pieces;
          section_path = section_of pieces;
          provenance = provenance_from [] pieces;
        }

    -- The loop over `enumerate(drafts)`.
    unfoldable pub chunks_from :
        Text → Text → ℕ → List (List (Piece p.Value)) → Raises (List (Chunk p.Value))
    chunks_from version_id title ordinal [] = ok []
    chunks_from version_id title ordinal (pieces ∷ drafts) =
        let rest = chunks_from version_id title (suc ordinal) drafts in
        let made = chunk_of version_id title ordinal pieces in
        if nat_beq (c.count_tokens (join_pieces pieces)) 0
        then rest
        else if ltb c.max_tokens (c.count_tokens (join_pieces pieces))
        then raise chunking_error
        else (rest >>= λ more. ok (made ∷ more))

    abbrev pub finish : Text → Text → Run (List (List (Piece p.Value))) → Run (List (Chunk p.Value))
    finish version_id title none = none
    finish version_id title (some drafts) = some (drafts >>= chunks_from version_id title 0)

    unfoldable pub chunk : List (Block p.Value) → Text → Text → Run (List (Chunk p.Value))
    chunk blocks version_id title =
        let ordered =
          keep (λ b. not (is_empty (strip b.text))) (sort_by (λ a b. ltb a.order b.order) blocks) in
        if is_empty version_id
        then some (raise chunking_error)
        else finish version_id title (drafts_of (group_sections ordered))

-- `deduplicate_chunks`: the first chunk of each content hash.
unfoldable pub deduplicate_from : {V : Type 0} → List Text → List (Chunk V) → List (Chunk V)
deduplicate_from seen [] = []
deduplicate_from seen (chunk ∷ chunks) =
    let known = deduplicate_from seen chunks in
    let new = deduplicate_from (chunk.content_hash ∷ seen) chunks in
    if any (λ h. h == chunk.content_hash) seen then known else chunk ∷ new

unfoldable pub deduplicate_chunks : {V : Type 0} → List (Chunk V) → List (Chunk V)
unfolding deduplicate_from
deduplicate_chunks = deduplicate_from []
