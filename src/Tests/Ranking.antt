-- ===== src/Tests/Ranking.antt =====
-- Fusion, deduplication, reranking and diversity on three candidates.
use mathlib.Core.List.{Perm, Sublist}
use project_rag.Prelude.{
  ℕ, ◌≡◌, refl, Text, some, List, [], ◌∷◌, map, Bool, ◌||◌, member, Distinct, All, Pairwise,
  sort_by, arith, list_eq, nat_eq, dict_keys, ok,
}
use project_rag.Retrieval.Models.{SearchCandidate, RankedCandidate, ranked_eq}
use project_rag.Retrieval.Fusion.Rrf.{
  reciprocal_rank_fusion, all_fused, fused_before, cut_to, fuse_one, tables_of,
}
use project_rag.Retrieval.Fusion.RrfLaws.{IsRrfScored, RrfBefore, rrf_ranking}
use project_rag.Retrieval.Fusion.Places.{ids}
use project_rag.Retrieval.Fusion.RrfRanks.{rrf_entries, HasRanks}
use project_rag.Retrieval.Fusion.Dedupe.{
  deduplicate_ranked_candidates, deduplicate_ranked_candidates_lem, first_of_clash,
}
use project_rag.Retrieval.Fusion.Rerank.{attach_rerank_scores}
use project_rag.Retrieval.Fusion.Rerank.Blend.{blended, FinalBefore, rerank_keeps}
use project_rag.Retrieval.Diversity.{select_diverse_candidates}
use project_rag.Retrieval.Diversity.Caps.{Selected, select_diverse-Selected}
use project_rag.Tests.Retrieval.{numbers, numbers-IsOrdered, a, b, c, three_ranked}

abbrev dense : List (SearchCandidate ℕ ℕ)
dense = a ∷ b ∷ a ∷ []

abbrev lexical : List (SearchCandidate ℕ ℕ)
lexical = c ∷ a ∷ []

abbrev best_two : List (RankedCandidate ℕ ℕ)
best_two = cut_to (some 2) (sort_by (fused_before numbers) (all_fused numbers 3 2 60 dense lexical))

fuses : reciprocal_rank_fusion numbers dense lexical 3 2 60 (some 2) ≡ ok best_two
unfolding reciprocal_rank_fusion
fuses = refl

rrf_ranking_example :
    (ranking : List (RankedCandidate ℕ ℕ)) × (best_two ≡ cut_to (some 2) ranking)
    × Perm ranking (all_fused numbers 3 2 60 dense lexical)
    × All (IsRrfScored numbers numbers-IsOrdered 3 2 60) ranking
    × Pairwise (RrfBefore numbers numbers-IsOrdered) ranking
rrf_ranking_example = rrf_ranking numbers numbers-IsOrdered dense lexical 3 2 60 (some 2) fuses

rrf_entries_example :
    Distinct (dict_keys (tables_of dense lexical).by_id)
    × ((id : Text)
        → member id (dict_keys (tables_of dense lexical).by_id)
          ≡ (member id (ids dense) || member id (ids lexical)))
    × All
        (λ e.
          HasRanks numbers 3 2 60 dense lexical e.0
            (fuse_one numbers 3 2 60 (tables_of dense lexical) e))
        (tables_of dense lexical).by_id
rrf_entries_example = rrf_entries numbers 3 2 60 dense lexical

abbrev one_word : Text → List Text
one_word t = t ∷ []

deduplicate_ranked_candidates_lem_example :
    (deduplicate_ranked_candidates numbers (λ t. t) one_word 1 three_ranked
      ≡ ok (first_of_clash numbers (λ t. t) one_word 1 [] three_ranked))
    × Sublist (first_of_clash numbers (λ t. t) one_word 1 [] three_ranked) three_ranked
deduplicate_ranked_candidates_lem_example =
    deduplicate_ranked_candidates_lem numbers (λ t. t) one_word 1 three_ranked refl

rerank_keeps_example :
    (ranked : List (RankedCandidate ℕ ℕ)) × (attach_rerank_scores numbers three_ranked
        (1 ∷ 7 ∷ 4 ∷ [])
        1
      ≡ ok ranked)
    × Perm ranked (
        blended numbers 1
          (map (λ r. r.fusion_score) three_ranked)
          (1 ∷ 7 ∷ 4 ∷ [])
          three_ranked
          (1 ∷ 7 ∷ 4 ∷ []))
    × Perm (map (λ r. r.candidate) ranked) (map (λ r. r.candidate) three_ranked)
    × Pairwise (FinalBefore numbers numbers-IsOrdered) ranked
rerank_keeps_example =
    rerank_keeps numbers numbers-IsOrdered three_ranked (1 ∷ 7 ∷ 4 ∷ []) 1 refl refl

select_diverse-Selected_example :
    (result : List (RankedCandidate ℕ ℕ)) × (used : Bool) × (select_diverse_candidates numbers 1 2
        three_ranked 3 1
      ≡ ok (result, used))
    × Selected numbers 1 2 3 three_ranked [] result
select_diverse-Selected_example =
    select_diverse-Selected numbers 1 2 three_ranked 3 1 (omega arith) (omega arith) (omega arith)
      refl
