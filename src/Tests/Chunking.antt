-- ===== src/Tests/Chunking.antt =====
-- The chunking and the batches on small documents.
use project_rag.Prelude.{
  ℕ, ◌≡◌, ◌≤◌, refl, Text, codes, none, some, List, [], ◌∷◌, true, false, All, arith, concat, strip,
  join, is_space,
}
use project_rag.Ingestion.Models.{Platform, heading, paragraph, Block, Chunk}
use project_rag.Ingestion.Batches.{embedding_batches, embedding_batches_lem, IsBatch}
use project_rag.Ingestion.Chunking.Config.{Chunker, IsConfigured, Piece, text_total, join_pieces}
use project_rag.Ingestion.Chunking.Split.{split_long_span, pack_text_units}
use project_rag.Ingestion.Chunking.Parts.{
  Ensures, Spans, split_long_span-Spans, AllFit, pack_text_units-AllFit,
}
use project_rag.Ingestion.Chunking.Pack.{
  tokens_of, carried, joins, overlap_tail, pack_from, pack_group,
}
use project_rag.Ingestion.Chunking.Overlap.{overlap_tail-budget, texts}
use project_rag.Ingestion.Chunking.Drafts.{Packed, pack_group-Packed, pack_from-stuck}
use project_rag.Ingestion.Chunking.Assemble.{chunk}
use project_rag.Ingestion.Chunking.Coverage.{Ends}
use project_rag.Ingestion.Chunking.Chunks.{chunk-Ends, Whole}
use project_rag.Tests.Counter.{marks, marks-IsCounter}

abbrev small_chunker : Chunker
small_chunker = record {
  target_tokens = 4;
  max_tokens = 6;
  min_tokens = 3;
  overlap_tokens = 2;
  count_tokens = marks;
}

small-IsConfigured : IsConfigured small_chunker
small-IsConfigured = record {
  min_positive = omega arith;
  min-le-target = omega arith;
  target-le-max = omega arith;
  overlap-lt-target = omega arith;
}

abbrev plain_platform : Platform
plain_platform = record {
  Value = ℕ;
  number = λ n. n;
  repr_sorted = λ locator. [];
  nfc = λ t. t;
  sha256 = λ t. t;
  uuid5 = λ t. t;
}

abbrev pub two_blocks : List (Block ℕ)
two_blocks =
    record {
      kind = heading;
      text = codes "abc";
      order = 1;
      page = some 1;
      section_path = [];
      source_locator = [];
    }
    ∷ record {
      kind = paragraph;
      text = codes "de fghi jk";
      order = 2;
      page = some 1;
      section_path = [];
      source_locator = [];
    }
    ∷ []

abbrev one_sentence : Text → List Text
one_sentence t = t ∷ []

chunk-Ends_example :
    Ends small_chunker
      (Whole plain_platform one_sentence small_chunker two_blocks (codes "v1") [])
      (chunk plain_platform one_sentence small_chunker two_blocks (codes "v1") [])
chunk-Ends_example =
    chunk-Ends plain_platform one_sentence small_chunker marks-IsCounter small-IsConfigured
      (omega arith) two_blocks (codes "v1") [] refl

abbrev piece_of : Text → Piece ℕ
piece_of text = record {
  text = text;
  kind = paragraph;
  page = none;
  section_path = [];
  block_order = 0;
  locator = [];
  is_overlap = false;
}

abbrev three_pieces : List (Piece ℕ)
three_pieces = piece_of (codes "abc") ∷ piece_of (codes "de") ∷ piece_of (codes "fghi") ∷ []

three_pieces-fit : All (λ p. tokens_of small_chunker (p ∷ []) ≤ 6) three_pieces
unfolding join_pieces strip join is_space
three_pieces-fit = (omega arith, (omega arith, (omega arith, tt)))

pack_group-Packed_example :
    Packed small_chunker three_pieces (pack_group small_chunker three_pieces)
pack_group-Packed_example =
    pack_group-Packed small_chunker marks-IsCounter small-IsConfigured (omega arith) three_pieces
      three_pieces-fit

-- Valid for the constructor: the overlap is below the target, but not below the minimum.
abbrev stuck_chunker : Chunker
stuck_chunker = record {
  target_tokens = 4;
  max_tokens = 6;
  min_tokens = 2;
  overlap_tokens = 3;
  count_tokens = marks;
}

abbrev draft : List (Piece ℕ)
draft = record (piece_of (codes "abc")) { is_overlap = true } ∷ []

draft-same : carried stuck_chunker draft (piece_of (codes "def")) ≡ draft
unfolding carried overlap_tail is_space join_pieces strip join
draft-same = refl

draft-out : joins stuck_chunker draft (piece_of (codes "def")) ≡ false
unfolding joins join_pieces strip join
draft-out = refl

pack_from-stuck_example : pack_from stuck_chunker 1000 draft (piece_of (codes "def") ∷ []) ≡ none
pack_from-stuck_example =
    pack_from-stuck stuck_chunker draft (piece_of (codes "def")) [] draft-same (λ e. cc) draft-out
      1000

split_long_span-Spans_example :
    Ensures marks 2 (Spans marks 2 (codes "abcde")) (split_long_span marks 2 (codes "abcde"))
split_long_span-Spans_example = split_long_span-Spans marks 2 (codes "abcde")

abbrev units : List Text
units = codes "abc" ∷ codes "d" ∷ codes "ef" ∷ []

pack_text_units-AllFit_example :
    Ensures marks 4 (AllFit marks 4) (pack_text_units marks 4 (λ t. t) (codes " ") units)
pack_text_units-AllFit_example =
    pack_text_units-AllFit marks 4 marks-IsCounter.strip-le (λ t. t) (codes " ") units

overlap_tail-budget_example :
    text_total marks (texts small_chunker marks-IsCounter (overlap_tail small_chunker three_pieces))
    ≤ 2
overlap_tail-budget_example = overlap_tail-budget small_chunker marks-IsCounter three_pieces

abbrev chunk_of_tokens : ℕ → Chunk ℕ
chunk_of_tokens n = record {
  id = [];
  version_id = [];
  ordinal = 0;
  text = [];
  embedding_text = [];
  token_count = n;
  content_hash = [];
  block_type = none;
  page_start = none;
  page_end = none;
  section_path = [];
  provenance = [];
}

abbrev pub three_chunks : List (Chunk ℕ)
three_chunks = chunk_of_tokens 5 ∷ chunk_of_tokens 9 ∷ chunk_of_tokens 20 ∷ []

embedding_batches_lem_example :
    (concat (embedding_batches 2 10 three_chunks) ≡ three_chunks)
    × All (IsBatch 2 10) (embedding_batches 2 10 three_chunks)
embedding_batches_lem_example = embedding_batches_lem 2 10 (omega arith) three_chunks
