-- ===== src/Retrieval/Fusion/Rerank.antt =====
-- `attach_rerank_scores` and `_minmax` of fusion.py.
pub mod Blend
use project_rag.Prelude.{
  some, List, [], ◌∷◌, map, Bool, not, ◌&&◌, is_empty, length, if◌then◌else◌, nat_beq, sort_by,
  text_lt, list_eq, nat_eq, Result, ok, raise_if, ◌>>◌,
}
use project_rag.Prelude.Floats.{Floats, le}
use project_rag.Retrieval.Models.{RankedCandidate, chunk_id_of}
use project_rag.Retrieval.Fusion.Rrf.{FusionError, count_mismatch, bad_rerank_weight}

module _ (fl : Floats) where
  open fl use {Float, literal, lt, eq, add, sub, mul, div}

  -- Python's `min` and `max` of a list that is not empty.
  unfoldable pub least : Float → List Float → Float
  least low [] = low
  least low (v ∷ vs) = least (if lt v low then v else low) vs

  unfoldable pub greatest : Float → List Float → Float
  greatest high [] = high
  greatest high (v ∷ vs) = greatest (if lt high v then v else high) vs

  unfoldable pub minmax : List Float → List Float
  minmax [] = []
  minmax (v ∷ vs) =
      let low = least v vs in
      let high = greatest v vs in
      if eq high low
      then map (λ _. literal 1 1) (v ∷ vs)
      else map (λ value. div (sub value low) (sub high low)) (v ∷ vs)

module _ (fl : Floats) {J : Type 0} where
  open fl use {Float, literal, lt, eq, add, sub, mul}

  abbrev pub rescore :
      Float → RankedCandidate Float J → Float → Float → Float → RankedCandidate Float J
  rescore weight r raw fused reranked = record r {
    rerank_score = some raw;
    final_score = add (mul (sub (literal 1 1) weight) fused) (mul weight reranked);
  }

  -- `zip` of the four lists, which have one length.
  unfoldable pub rescore_all :
      Float
      → List (RankedCandidate Float J)
      → List Float
      → List Float
      → List Float
      → List (RankedCandidate Float J)
  rescore_all weight (r ∷ rs) (raw ∷ raws) (f ∷ fs) (s ∷ ss) =
      rescore weight r raw f s ∷ rescore_all weight rs raws fs ss
  rescore_all weight [] raws fs ss = []
  rescore_all weight (r ∷ rs) [] fs ss = []
  rescore_all weight (r ∷ rs) (raw ∷ raws) [] ss = []
  rescore_all weight (r ∷ rs) (raw ∷ raws) (f ∷ fs) [] = []

  -- `key(a) < key(b)` for the key (-final_score, chunk id).
  unfoldable pub final_before : RankedCandidate Float J → RankedCandidate Float J → Bool
  final_before a b =
      if not (eq a.final_score b.final_score)
      then lt b.final_score a.final_score
      else text_lt (chunk_id_of a) (chunk_id_of b)

  unfoldable pub rescored_of :
      Float → List (RankedCandidate Float J) → List Float → List (RankedCandidate Float J)
  rescored_of weight rs scores =
      rescore_all weight rs scores (minmax fl (map (λ r. r.fusion_score) rs)) (minmax fl scores)

  unfoldable pub attach_rerank_scores :
      List (RankedCandidate Float J)
      → List Float
      → Float
      → Result FusionError (List (RankedCandidate Float J))
  attach_rerank_scores rs scores weight = do
    raise_if (not (nat_beq (length rs) (length scores))) count_mismatch
    raise_if (not (le fl (literal 0 1) weight && le fl weight (literal 1 1))) bad_rerank_weight
    ok (if is_empty rs then [] else sort_by final_before (rescored_of weight rs scores))
