-- ===== src/Retrieval/Service/Pipeline/Stages.antt =====
-- A property of all candidates through each stage of the ranking: fusion, deduplication, reranking
-- and the choice of diverse sources.
use project_rag.Prelude.{
  ℕ, zero, suc, ◌≡◌, Text, Option, none, some, List, [], ◌∷◌, ◌++◌, map, Bool, not, ◌||◌, is_empty,
  keep, All, All-keep, All-append, any, list_eq, nat_eq, Eq, Result, ok, raise, Result-cases,
  Bool-cases, List-cases, inl, inr, arith, sort_by, sort_by-All, if◌then◌else◌, leb, length, subst,
}
use project_rag.Prelude.Floats.{Floats}
use project_rag.Retrieval.Models.{SearchCandidate, RankedCandidate}
use project_rag.Retrieval.Fusion.Rrf.{
  unique_by_chunk, add_dense, empty_tables, tables_of, fuse_one, all_fused, fused_before, cut_to,
  reciprocal_rank_fusion,
}
use project_rag.Retrieval.Fusion.Dedupe.{
  deduplicate_from, is_duplicate, hash_of, passage_of, tokens_of,
}
use project_rag.Retrieval.Fusion.Rerank.{
  rescore_all, rescored_of, final_before, attach_rerank_scores,
}
use project_rag.Retrieval.Service.Search.{rescored, apply_scores, rerank_stage, found}
use project_rag.Retrieval.Diversity.{below, mmr_below, choose, remove, is_eligible, select_from}
use project_rag.Retrieval.Service.Pipeline.Filed.{
  add_dense-All, add_lexical-All, best_by-All, cut_to-All, map-All, remove-All, unique_from-All,
}

module _ (fl : Floats) {J : Type 0} (P : SearchCandidate fl.Float J → Type 0) where
  open fl use {Float}

  abbrev pub RankedP : RankedCandidate Float J → Type 0
  RankedP r = P r.candidate

  pub fusion-All :
      (dense lexical : List (SearchCandidate Float J)) (dw lw constant : Float) (limit : Option ℕ)
      {fused : List (RankedCandidate Float J)}
      → reciprocal_rank_fusion fl dense lexical dw lw constant limit ≡ ok fused
      → All P dense
      → All P lexical
      → All RankedP fused
  unfolding reciprocal_rank_fusion all_fused tables_of fuse_one unique_by_chunk
  fusion-All dense lexical dw lw constant limit {fused} e h k =
      let t = tables_of dense lexical in
      let holds =
        add_lexical-All P (add_dense empty_tables (unique_by_chunk dense)) (unique_by_chunk lexical)
          (add_dense-All P empty_tables (unique_by_chunk dense) tt (unique_from-All P [] 0 dense h))
          (unique_from-All P [] 0 lexical k) in
      subst (All RankedP) (fused_of e) (
        cut_to-All P limit _ (
          sort_by-All (fused_before fl) RankedP (all_fused fl dw lw constant dense lexical)
            (map-All P (fuse_one fl dw lw constant t) (λ x p. p) t.by_id holds)))
    where
      fused_of :
          reciprocal_rank_fusion fl dense lexical dw lw constant limit ≡ ok fused
          → cut_to limit (sort_by (fused_before fl) (all_fused fl dw lw constant dense lexical))
            ≡ fused
      fused_of e = ground arith

  pub dedupe-All :
      (normalize : Text → Text) (word_tokens : Text → List Text) (threshold : Float)
      (hashes texts : List Text) (token_sets : List (List Text))
      (rs : List (RankedCandidate Float J))
      → All RankedP rs
      → All RankedP (deduplicate_from fl normalize word_tokens threshold hashes texts token_sets rs)
  unfolding deduplicate_from
  dedupe-All normalize word_tokens threshold hashes texts token_sets [] h = tt
  dedupe-All normalize word_tokens threshold hashes texts token_sets (r ∷ rs) h =
      elim (Bool-cases
        (is_duplicate fl normalize word_tokens threshold hashes texts token_sets r)) [
          | inl e ↦ rw e (dedupe-All normalize word_tokens threshold hashes texts token_sets rs h.1)
          | inr e ↦ rw e (
            h.0,
            dedupe-All normalize word_tokens threshold (hash_of r.candidate.content_hash ++ hashes)
                (passage_of fl normalize word_tokens threshold r ∷ texts)
                (tokens_of fl normalize word_tokens threshold r ∷ token_sets) rs h.1,
          )
        ]

  pub rescore_all-All :
      (weight : Float) (rs : List (RankedCandidate Float J)) (raws fs ss : List Float)
      → All RankedP rs
      → All RankedP (rescore_all fl weight rs raws fs ss)
  unfolding rescore_all
  rescore_all-All weight [] raws fs ss h = tt
  rescore_all-All weight (r ∷ rs) [] fs ss h = tt
  rescore_all-All weight (r ∷ rs) (raw ∷ raws) [] ss h = tt
  rescore_all-All weight (r ∷ rs) (raw ∷ raws) (f ∷ fs) [] h = tt
  rescore_all-All weight (r ∷ rs) (raw ∷ raws) (f ∷ fs) (s ∷ ss) h =
      (h.0, rescore_all-All weight rs raws fs ss h.1)

  pub reranked_of :
      (weight : Float) (rs new : List (RankedCandidate Float J)) (scores : List Float)
      → attach_rerank_scores fl rs scores weight ≡ ok new
      → (if is_empty rs then [] else sort_by (final_before fl) (rescored_of fl weight rs scores))
        ≡ new
  unfolding attach_rerank_scores
  reranked_of weight rs new scores e = ground arith

  pub rescored-All :
      (weight : Float) (rs : List (RankedCandidate Float J)) (scores : List Float)
      → All RankedP rs
      → All RankedP (rescored fl rs (attach_rerank_scores fl rs scores weight)).ranking
  unfolding rescored_of
  rescored-All weight rs scores h = elim (Result-cases (attach_rerank_scores fl rs scores weight)) [
    | inl (e, raised) ↦ rw raised h
    | inr (new, returned) ↦ rw returned (
        subst (All RankedP) (reranked_of weight rs new scores returned)
          (elim (Bool-cases (is_empty rs)) [
            | inl e ↦ rw e tt
            | inr e ↦ rw e (
                sort_by-All (final_before fl) RankedP (rescored_of fl weight rs scores)
                  (rescore_all-All weight rs scores _ _ h))
          ]))
  ]

  pub apply_scores-All :
      (weight : Float) (rs : List (RankedCandidate Float J)) (r : Result Text (List Float))
      → All RankedP rs
      → All RankedP (apply_scores fl weight rs r).ranking
  apply_scores-All weight rs (raise e) h = h
  apply_scores-All weight rs (ok scores) h =
      elim (Bool-cases (any (λ s. not (fl.is_finite s)) scores)) [
        | inl e ↦ rw e h
        | inr e ↦ rw e (rescored-All weight rs scores h)
      ]

  pub rerank_stage-All :
      (rerank : Option (Text → List (SearchCandidate Float J) → Result Text (List Float)))
      (weight : Float) (query : Text) (rs : List (RankedCandidate Float J))
      → All RankedP rs
      → All RankedP (rerank_stage fl rerank weight query rs).ranking
  unfolding rerank_stage
  rerank_stage-All none weight query rs h = h
  rerank_stage-All (some rerank) weight query [] h = h
  rerank_stage-All (some rerank) weight query (r ∷ rs) h =
      apply_scores-All weight (r ∷ rs) (rerank query (map (λ x. x.candidate) (r ∷ rs))) h

module _ (fl : Floats) {J : Type 0} (P : SearchCandidate fl.Float J → Type 0)
    (max_per_document max_per_section : ℕ) ⦃e : Eq (RankedCandidate fl.Float J)⦄ where
  open fl use {Float}

  pub choose-All :
      (available : Bool) (lambda : Float) (selected : List (RankedCandidate Float J))
      (x : RankedCandidate Float J) (xs : List (RankedCandidate Float J))
      → All (RankedP fl P) (x ∷ xs)
      → P (choose fl available lambda selected x xs).candidate
  choose-All available lambda selected x xs h =
      elim (Bool-cases (is_empty selected || not available)) [
        | inl e ↦ rw e (best_by-All P (below fl) x xs h)
        | inr e ↦ rw e (best_by-All P (mmr_below fl selected lambda) x xs h)
      ]

  pub select_from-All :
      (available : Bool) (lambda : Float) (limit fuel : ℕ)
      (remaining selected : List (RankedCandidate Float J))
      → All (RankedP fl P) remaining
      → All (RankedP fl P) selected
      → All (RankedP fl P) (
          select_from fl max_per_document max_per_section available lambda limit fuel remaining
            selected)
  unfolding select_from
  select_from-All available lambda limit zero remaining selected h k = k
  select_from-All available lambda limit (suc fuel) remaining selected h k =
      let eligible = is_eligible fl max_per_document max_per_section selected in
      elim (Bool-cases (is_empty remaining || leb limit (length selected))) [
        | inl full ↦ rw full k
        | inr space ↦ rw space (elim (List-cases (keep eligible remaining)) [
          | inl nothing ↦ rw nothing k
          | inr (x, xs, found) ↦ rw found (
              let chosen = choose fl available lambda selected x xs in
              select_from-All available lambda limit fuel (remove chosen remaining)
                (selected ++ (chosen ∷ [])) (remove-All P chosen remaining h)
                (All-append (RankedP fl P) selected (chosen ∷ []) k (
                  choose-All available lambda selected x xs (
                      subst (All (RankedP fl P)) found
                        (All-keep (RankedP fl P) eligible remaining h)),
                  tt,
                )))
        ])
      ]
