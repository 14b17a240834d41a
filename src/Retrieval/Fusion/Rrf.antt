-- ===== src/Retrieval/Fusion/Rrf.antt =====
-- `reciprocal_rank_fusion` and `_unique_by_chunk` of fusion.py. A `dict` is an association list in
-- the order of insertion.
use project_rag.Prelude.{
  ℕ, ◌+◌, Text, Option, none, some, List, [], ◌∷◌, map, Bool, not, ◌||◌, member, take, sort_by,
  text_lt, ltb, nat_beq, if◌then◌else◌, list_eq, nat_eq, Result, ok, raise_if, ◌>>◌, dict_get,
  dict_set, dict_default, ◌^◌,
}
use project_rag.Prelude.Floats.{Floats, le}
use project_rag.Retrieval.Models.{SearchCandidate, RankedCandidate, chunk_id_of}

pub data FusionError : Type 0 where
  negative_weight no_weight bad_rank_constant bad_threshold count_mismatch bad_rerank_weight :
      FusionError

module _ {F J : Type 0} where
  -- Each chunk id once, with its effective rank.
  unfoldable pub unique_from :
      List Text → ℕ → List (SearchCandidate F J) → List (ℕ × SearchCandidate F J)
  unique_from seen rank [] = []
  unique_from seen rank (c ∷ cs) =
      let known = unique_from seen rank cs in
      let new = unique_from (c.chunk_id ∷ seen) (rank + 1) cs in
      if member c.chunk_id seen then known else (rank + 1, c) ∷ new

  unfoldable pub unique_by_chunk : List (SearchCandidate F J) → List (ℕ × SearchCandidate F J)
  unfolding unique_from
  unique_by_chunk = unique_from [] 0

-- The five dictionaries of the function.
pub record Tables (F J : Type 0) : Type 0 where
  pub by_id : List (Text × SearchCandidate F J)
  pub dense_ranks : List (Text × ℕ)
  pub lexical_ranks : List (Text × ℕ)
  pub dense_scores : List (Text × F)
  pub lexical_scores : List (Text × F)

module _ {F J : Type 0} where
  abbrev pub dense_step : Tables F J → ℕ → SearchCandidate F J → Tables F J
  dense_step t rank c = record t {
    by_id = dict_set c.chunk_id c t.by_id;
    dense_ranks = dict_set c.chunk_id rank t.dense_ranks;
    dense_scores = dict_set c.chunk_id c.score t.dense_scores;
  }

  abbrev pub lexical_step : Tables F J → ℕ → SearchCandidate F J → Tables F J
  lexical_step t rank c = record t {
    by_id = dict_default c.chunk_id c t.by_id;
    lexical_ranks = dict_set c.chunk_id rank t.lexical_ranks;
    lexical_scores = dict_set c.chunk_id c.score t.lexical_scores;
  }

  unfoldable pub add_dense : Tables F J → List (ℕ × SearchCandidate F J) → Tables F J
  add_dense t [] = t
  add_dense t ((rank, c) ∷ rest) = add_dense (dense_step t rank c) rest

  unfoldable pub add_lexical : Tables F J → List (ℕ × SearchCandidate F J) → Tables F J
  add_lexical t [] = t
  add_lexical t ((rank, c) ∷ rest) = add_lexical (lexical_step t rank c) rest

  abbrev pub empty_tables : Tables F J
  empty_tables = record {
    by_id = [];
    dense_ranks = [];
    lexical_ranks = [];
    dense_scores = [];
    lexical_scores = [];
  }

  unfoldable pub tables_of : List (SearchCandidate F J) → List (SearchCandidate F J) → Tables F J
  tables_of dense lexical =
      add_lexical (add_dense empty_tables (unique_by_chunk dense)) (unique_by_chunk lexical)

-- `rank or 10**9`: zero counts as missing.
abbrev pub rank_or_last : Option ℕ → ℕ
rank_or_last none = 10 ^ 9
rank_or_last (some rank) = if nat_beq rank 0 then 10 ^ 9 else rank

-- `items[:limit]`, or all.
abbrev pub cut_to : {A : Type 0} → Option ℕ → List A → List A
cut_to none xs = xs
cut_to (some n) xs = take n xs

module _ (fl : Floats) where
  open fl use {Float, literal, add, div}

  abbrev pub add_share : Float → Float → Float → Option ℕ → Float
  add_share score weight constant none = score
  add_share score weight constant (some rank) =
      add score (div weight (add constant (literal rank 1)))

module _ (fl : Floats) {J : Type 0} where
  open fl use {Float, literal, add, eq, lt}

  unfoldable pub fuse_one :
      Float
      → Float
      → Float
      → Tables Float J
      → Text × SearchCandidate Float J
      → RankedCandidate Float J
  fuse_one dense_weight lexical_weight constant t (id, c) =
      let dense_rank = dict_get id t.dense_ranks in
      let lexical_rank = dict_get id t.lexical_ranks in
      let score =
        add_share fl (add_share fl (literal 0 1) dense_weight constant dense_rank) lexical_weight
          constant lexical_rank in
      record {
        candidate = c;
        fusion_score = score;
        final_score = score;
        dense_rank = dense_rank;
        lexical_rank = lexical_rank;
        dense_score = dict_get id t.dense_scores;
        lexical_score = dict_get id t.lexical_scores;
        rerank_score = none;
      }

  -- `key(a) < key(b)` for the key (-fusion_score, dense rank, lexical rank, chunk id).
  unfoldable pub tie_before : RankedCandidate Float J → RankedCandidate Float J → Bool
  tie_before a b =
      if not (nat_beq (rank_or_last a.dense_rank) (rank_or_last b.dense_rank))
      then ltb (rank_or_last a.dense_rank) (rank_or_last b.dense_rank)
      else if not (nat_beq (rank_or_last a.lexical_rank) (rank_or_last b.lexical_rank))
      then ltb (rank_or_last a.lexical_rank) (rank_or_last b.lexical_rank)
      else text_lt (chunk_id_of a) (chunk_id_of b)

  unfoldable pub fused_before : RankedCandidate Float J → RankedCandidate Float J → Bool
  fused_before a b =
      if not (eq a.fusion_score b.fusion_score)
      then lt b.fusion_score a.fusion_score
      else tie_before a b

  unfoldable pub all_fused :
      Float
      → Float
      → Float
      → List (SearchCandidate Float J)
      → List (SearchCandidate Float J)
      → List (RankedCandidate Float J)
  all_fused dense_weight lexical_weight constant dense lexical =
      let t = tables_of dense lexical in
      map (fuse_one dense_weight lexical_weight constant t) t.by_id

  unfoldable pub reciprocal_rank_fusion :
      List (SearchCandidate Float J)
      → List (SearchCandidate Float J)
      → Float
      → Float
      → Float
      → Option ℕ
      → Result FusionError (List (RankedCandidate Float J))
  reciprocal_rank_fusion dense lexical dense_weight lexical_weight constant limit = do
    raise_if (lt dense_weight (literal 0 1) || lt lexical_weight (literal 0 1)) negative_weight
    raise_if (le fl (add dense_weight lexical_weight) (literal 0 1)) no_weight
    raise_if (le fl constant (literal 0 1)) bad_rank_constant
    ok (
        cut_to limit
          (sort_by fused_before (all_fused dense_weight lexical_weight constant dense lexical)))
