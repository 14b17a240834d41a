-- ===== src/Retrieval/Fusion/RrfLaws.antt =====
-- What `reciprocal_rank_fusion` of fusion.py promises: the candidates, their ranks and the order.
use mathlib.Core.List.{Perm}
use project_rag.Prelude.{
  ℕ, ◌<◌, ◌≡◌, refl, ◌⊎◌, inl, inr, Text, Option, none, some, List, [], ◌∷◌, map, true, false, All,
  sort_by, sort_by-perm, sort_by-All, sort_by-IsSortedBy, IsSortedBy-Pairwise, Pairwise, text_lt,
  Bool-cases, dict_get, text_lt_asymm, text_lt_cotrans, list_eq, nat_eq, ok, arith,
}
use project_rag.Prelude.Floats.{Floats, IsOrdered, lt_asymm}
use project_rag.Retrieval.Models.{SearchCandidate, RankedCandidate, chunk_id_of}
use project_rag.Retrieval.Fusion.Rrf.{
  Tables, tables_of, rank_or_last, add_share, fuse_one, tie_before, fused_before, cut_to, all_fused,
  reciprocal_rank_fusion,
}

Nat-cases : (m n : ℕ) → (m < n) ⊎ ((m ≡ n) ⊎ (n < m))
Nat-cases m n = omega arith

module _ (fl : Floats) (dw lw constant : fl.Float) where
  -- One share for each list that has the chunk, `weight / (constant + rank)`, added up from zero.
  pub rrf_score : Option ℕ → Option ℕ → fl.Float
  rrf_score none none = fl.literal 0 1
  rrf_score (some d) none = fl.add (fl.literal 0 1) (fl.div dw (fl.add constant (fl.literal d 1)))
  rrf_score none (some l) = fl.add (fl.literal 0 1) (fl.div lw (fl.add constant (fl.literal l 1)))
  rrf_score (some d) (some l) =
      fl.add (fl.add (fl.literal 0 1) (fl.div dw (fl.add constant (fl.literal d 1))))
        (fl.div lw (fl.add constant (fl.literal l 1)))

  score_eq :
      (d l : Option ℕ)
      → add_share fl (add_share fl (fl.literal 0 1) dw constant d) lw constant l ≡ rrf_score d l
  unfolding rrf_score
  score_eq none none = refl
  score_eq (some d) none = refl
  score_eq none (some l) = refl
  score_eq (some d) (some l) = refl

module _ (fl : Floats) {J : Type 0} (o : IsOrdered fl) where
  tie_asymm :
      (a b : RankedCandidate fl.Float J) → tie_before fl a b ≡ true → tie_before fl b a ≡ false
  unfolding tie_before
  tie_asymm a b h = ground (arith, text_lt_asymm (chunk_id_of a) (chunk_id_of b))

  tie_cotrans :
      (a b c : RankedCandidate fl.Float J)
      → tie_before fl a b ≡ false
      → tie_before fl b c ≡ false
      → tie_before fl a c ≡ false
  unfolding tie_before
  tie_cotrans a b c h k =
      ground (arith, text_lt_cotrans (chunk_id_of a) (chunk_id_of b) (chunk_id_of c))

  fused_asymm :
      (a b : RankedCandidate fl.Float J) → fused_before fl a b ≡ true → fused_before fl b a ≡ false
  unfolding fused_before
  fused_asymm a b h = ground (
    arith,
    o.eq_lt a.fusion_score b.fusion_score,
    o.eq_lt b.fusion_score a.fusion_score,
    lt_asymm fl o b.fusion_score a.fusion_score,
    tie_asymm a b,
  )

  fused_cotrans :
      (a b c : RankedCandidate fl.Float J)
      → fused_before fl a b ≡ false
      → fused_before fl b c ≡ false
      → fused_before fl a c ≡ false
  unfolding fused_before
  fused_cotrans a b c h k =
      let x = a.fusion_score in
      let y = b.fusion_score in
      let z = c.fusion_score in
      ground (
        arith,
        o.eq_lt x y,
        o.eq_lt y z,
        o.eq_lt x z,
        o.lt_cotrans z y x,
        o.lt_cotrans x y z,
        o.lt_cotrans y z x,
        o.lt_cotrans z x y,
        o.lt_cotrans x z y,
        o.lt_cotrans y x z,
        tie_cotrans a b c,
      )

  -- The first may stand before the second: it has the better score, or the same score and a lower
  -- dense rank, or also the same dense rank and a lower lexical rank, or also the same lexical rank
  -- and a chunk id that does not come later.
  pub RrfBefore : RankedCandidate fl.Float J → RankedCandidate fl.Float J → Type 0
  RrfBefore a b =
      (fl.lt b.fusion_score a.fusion_score ≡ true)
      ⊎ ((fl.eq a.fusion_score b.fusion_score ≡ true)
          × ((rank_or_last a.dense_rank < rank_or_last b.dense_rank)
              ⊎ ((rank_or_last a.dense_rank ≡ rank_or_last b.dense_rank)
                  × ((rank_or_last a.lexical_rank < rank_or_last b.lexical_rank)
                      ⊎ ((rank_or_last a.lexical_rank ≡ rank_or_last b.lexical_rank)
                          × (text_lt (chunk_id_of b) (chunk_id_of a) ≡ false))))))

  RrfBefore-of-fused :
      (a b : RankedCandidate fl.Float J) → fused_before fl b a ≡ false → RrfBefore a b
  unfolding fused_before tie_before RrfBefore
  RrfBefore-of-fused a b h =
      let x = a.fusion_score in
      let y = b.fusion_score in
      elim (Bool-cases (fl.eq y x)) [
        | inr e ↦ inl (ground (arith, h, e, o.eq_lt y x))
        | inl e ↦ inr (
          ground (arith, e, o.eq_lt y x, o.eq_lt x y),
          elim (Nat-cases (rank_or_last a.dense_rank) (rank_or_last b.dense_rank)) [
            | inl d ↦ inl d
            | inr (inr d) ↦ absurd (ground (arith, h, e, d))
            | inr (inl d) ↦ inr (
              d,
              elim (Nat-cases (rank_or_last a.lexical_rank) (rank_or_last b.lexical_rank)) [
                | inl l ↦ inl l
                | inr (inr l) ↦ absurd (ground (arith, h, e, d, l))
                | inr (inl l) ↦ inr (l, ground (arith, h, e, d, l))
              ],
            )
          ],
        )
      ]

  module _ (dw lw constant : fl.Float) where
    -- A candidate that no reranker has seen has the score of its ranks.
    abbrev pub IsRrfScored : RankedCandidate fl.Float J → Type 0
    IsRrfScored r =
        (r.fusion_score ≡ rrf_score fl dw lw constant r.dense_rank r.lexical_rank)
        × (r.final_score ≡ r.fusion_score)
        × (r.rerank_score ≡ none)

    fused-IsRrfScored :
        (t : Tables fl.Float J) (entries : List (Text × SearchCandidate fl.Float J))
        → All IsRrfScored (map (fuse_one fl dw lw constant t) entries)
    unfolding fuse_one
    fused-IsRrfScored t [] = tt
    fused-IsRrfScored t ((id, c) ∷ entries) = (
      (
        score_eq fl dw lw constant (dict_get id t.dense_ranks) (dict_get id t.lexical_ranks),
        refl,
        refl,
      ),
      fused-IsRrfScored t entries,
    )

  -- The whole ranking holds the fused candidates, each scored by its ranks: a share
  -- `weight / (constant + rank)` for each list that has the chunk. Nobody stands behind one with a
  -- lower score, or with the same score and a worse dense rank, then lexical rank, then chunk id; a
  -- missing rank counts as 10^9. The result is the beginning of the ranking up to the limit.
  pub rrf_ranking :
      (dense lexical : List (SearchCandidate fl.Float J)) (dw lw constant : fl.Float)
      (limit : Option ℕ) {fused : List (RankedCandidate fl.Float J)}
      → reciprocal_rank_fusion fl dense lexical dw lw constant limit ≡ ok fused
      → (ranking : List (RankedCandidate fl.Float J)) × (fused ≡ cut_to limit ranking)
        × Perm ranking (all_fused fl dw lw constant dense lexical)
        × All (IsRrfScored dw lw constant) ranking
        × Pairwise RrfBefore ranking
  unfolding reciprocal_rank_fusion
  rrf_ranking dense lexical dw lw constant limit h =
      let unsorted = all_fused fl dw lw constant dense lexical in
      let ranking = sort_by (fused_before fl) unsorted in
      (
        ranking,
        ground arith,
        sort_by-perm (fused_before fl) unsorted,
        sort_by-All (fused_before fl) (IsRrfScored dw lw constant) unsorted
            (unfold all_fused in fused-IsRrfScored dw lw constant (tables_of dense lexical) _),
        IsSortedBy-Pairwise (fused_before fl) RrfBefore RrfBefore-of-fused ranking
            (sort_by-IsSortedBy (fused_before fl) fused_asymm fused_cotrans unsorted),
      )
