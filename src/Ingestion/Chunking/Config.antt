-- ===== src/Ingestion/Chunking/Config.antt =====
-- `Chunker.__init__` and `_Piece` of chunking.py. `count_tokens` is the injected tokenizer; the
-- record `IsCounter` says what a tokenizer has to promise where a theorem needs it.
use project_rag.Prelude.{
  ℕ, ◌+◌, ◌≤◌, ◌<◌, Text, Option, List, [], ◌∷◌, Bool, not, ◌&&◌, Result, ok, raise_if, ◌>>◌, map,
  strip, join, keep, is_empty, leb, ltb,
}
use project_rag.Ingestion.Models.{BlockKind}

pub record Chunker : Type 0 where
  pub target_tokens : ℕ
  pub max_tokens : ℕ
  pub min_tokens : ℕ
  pub overlap_tokens : ℕ
  pub count_tokens : Text → ℕ

-- `ValueError` of the constructor.
pub data ConfigError : Type 0 where
  bad_sizes bad_overlap : ConfigError

unfoldable pub new_chunker : ℕ → ℕ → ℕ → ℕ → (Text → ℕ) → Result ConfigError Chunker
new_chunker target_tokens max_tokens min_tokens overlap_tokens count_tokens = do
  raise_if (not (ltb 0 min_tokens && leb min_tokens target_tokens && leb target_tokens max_tokens))
      bad_sizes
  raise_if (not (ltb overlap_tokens target_tokens)) bad_overlap
  ok (record {
    target_tokens = target_tokens;
    max_tokens = max_tokens;
    min_tokens = min_tokens;
    overlap_tokens = overlap_tokens;
    count_tokens = count_tokens;
  })

-- What the constructor has checked.
pub record IsConfigured (c : Chunker) : Type 0 where
  pub min_positive : 0 < c.min_tokens
  pub min-le-target : c.min_tokens ≤ c.target_tokens
  pub target-le-max : c.target_tokens ≤ c.max_tokens
  pub overlap-lt-target : c.overlap_tokens < c.target_tokens

pub record Piece (V : Type 0) : Type 0 where
  pub text : Text
  pub kind : BlockKind
  pub page : Option ℕ
  pub section_path : List Text
  pub block_order : ℕ
  pub locator : List (Text × V)
  pub is_overlap : Bool

-- `_join_pieces`
unfoldable pub join_texts : List Text → Text
join_texts texts = strip (join (10 ∷ 10 ∷ []) (keep (λ t. not (is_empty t)) (map strip texts)))

unfoldable pub join_pieces : {V : Type 0} → List (Piece V) → Text
unfolding join_texts
join_pieces pieces = join_texts (map (λ p. p.text) pieces)

abbrev pub text_total : (Text → ℕ) → List Text → ℕ
text_total count [] = 0
text_total count (t ∷ ts) = count t + text_total count ts

-- A tokenizer that never counts more after white space at the ends is stripped, and counts a join
-- at most as its parts.
pub record IsCounter (count : Text → ℕ) : Type 0 where
  pub strip-le : (t : Text) → count (strip t) ≤ count t
  pub join-le : (ts : List Text) → count (join_texts ts) ≤ text_total count ts
