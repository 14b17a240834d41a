-- ===== src/Retrieval/Service/Search.antt =====
-- `RetrievalService.search` of service.py.
use project_rag.Prelude.{
  Text, codes, Option, none, some, List, [], ◌∷◌, ◌++◌, map, Bool, true, false, not, ◌&&◌, any,
  is_empty, length, if◌then◌else◌, Eq, Result, ok, raise, raise_if, ◌>>=◌, ◌>>◌,
}
use project_rag.Prelude.Floats.{Floats}
use project_rag.Retrieval.Models.{
  RetrievalFilters, SearchCandidate, RankedCandidate, RetrievalResult, ranked_eq,
}
use project_rag.Retrieval.Fusion.Rrf.{FusionError, reciprocal_rank_fusion}
use project_rag.Retrieval.Fusion.Dedupe.{deduplicate_ranked_candidates}
use project_rag.Retrieval.Fusion.Rerank.{attach_rerank_scores}
use project_rag.Retrieval.Diversity.{select_diverse_candidates}
use project_rag.Retrieval.Service.Config.{
  RetrievalConfig, ServiceError, empty_question, both_searches_failed, non_finite_score,
  embedding_failed, fusion_failed, diversity_failed, Providers, normalize_query,
  validate_query_embedding, embedding_identifier,
}

-- The exception of a stage as one of the service.
abbrev pub raised_as : {E A : Type 0} → (E → ServiceError) → Result E A → Result ServiceError A
raised_as wrap (ok a) = ok a
raised_as wrap (raise e) = raise (wrap e)

-- `_unpack_search_result`: the candidates, and the warning that a failure leaves.
abbrev pub found : {A : Type 0} → Result Text (List A) → List A
found (ok xs) = xs
found (raise e) = []

abbrev pub search_warning : {A : Type 0} → Text → Result Text A → List Text
search_warning channel (ok a) = []
search_warning channel (raise e) = (channel ++ codes "_search_failed:" ++ e) ∷ []

abbrev pub failed : {A : Type 0} → Result Text A → Bool
failed (ok a) = false
failed (raise e) = true

-- What the optional reranking stage leaves: the ranking, whether it was used, and its warnings.
pub record Reranked (F J : Type 0) : Type 0 where
  pub ranking : List (RankedCandidate F J)
  pub used : Bool
  pub warnings : List Text

module _ (fl : Floats) {J : Type 0} where
  open fl use {Float, is_finite}

  abbrev pub unused : List (RankedCandidate Float J) → List Text → Reranked Float J
  unused ranked warnings = record { ranking = ranked; used = false; warnings = warnings }

  abbrev pub rescored :
      List (RankedCandidate Float J)
      → Result FusionError (List (RankedCandidate Float J))
      → Reranked Float J
  rescored ranked (ok new) = record { ranking = new; used = true; warnings = [] }
  rescored ranked (raise e) = unused ranked (codes "reranker_failed:ValueError" ∷ [])

  -- The scores of the reranker; every exception of the stage leaves the ranking as it is.
  abbrev pub apply_scores :
      Float → List (RankedCandidate Float J) → Result Text (List Float) → Reranked Float J
  apply_scores weight ranked (raise e) = unused ranked ((codes "reranker_failed:" ++ e) ∷ [])
  apply_scores weight ranked (ok scores) =
      if any (λ s. not (is_finite s)) scores
      then unused ranked (codes "reranker_failed:ValueError" ∷ [])
      else rescored ranked (attach_rerank_scores fl ranked scores weight)

  unfoldable pub rerank_stage :
      Option (Text → List (SearchCandidate Float J) → Result Text (List Float))
      → Float
      → Text
      → List (RankedCandidate Float J)
      → Reranked Float J
  rerank_stage none weight query ranked = unused ranked []
  rerank_stage (some rerank) weight query ranked =
      if is_empty ranked
      then unused ranked []
      else apply_scores weight ranked (rerank query (map (λ r. r.candidate) ranked))

module _ (fl : Floats) {J : Type 0} (p : Providers fl J) (config : RetrievalConfig fl.Float) where
  open fl use {Float, is_finite}

  -- `_validate_candidates`
  abbrev pub has_bad_score : List (SearchCandidate Float J) → Bool
  has_bad_score cs = any (λ c. not (is_finite c.score)) cs

  module _ ⦃e : Eq (RankedCandidate Float J)⦄ where
    -- From the results of the two searches to the ranking and its diagnostics.
    unfoldable pub rank :
        Text
        → Text
        → List (SearchCandidate Float J)
        → List (SearchCandidate Float J)
        → List Text
        → Result ServiceError (RetrievalResult Float J)
    rank question query dense lexical warnings = do
      fused ← raised_as fusion_failed (
          reciprocal_rank_fusion fl dense lexical config.dense_weight config.lexical_weight
            config.rrf_rank_constant (some config.fusion_limit))
      unique ← raised_as fusion_failed (
          deduplicate_ranked_candidates fl p.dedupe_normal p.word_tokens
            config.near_duplicate_threshold fused)
      let reranked = rerank_stage fl p.rerank config.rerank_weight query unique
      chosen ← raised_as diversity_failed (
          select_diverse_candidates fl config.max_per_document config.max_per_section
            reranked.ranking config.source_limit config.mmr_lambda)
      ok (record {
        question = question;
        candidates = chosen.0;
        diagnostics = record {
          normalized_query = query;
          embedding_provider = embedding_identifier p;
          dense_candidates = length dense;
          lexical_candidates = length lexical;
          fused_candidates = length fused;
          deduplicated_candidates = length unique;
          selected_candidates = length chosen.0;
          context_estimated_tokens = 0;
          context_truncated = false;
          reranker_used = reranked.used;
          diversity_used = chosen.1;
          invalid_citations = [];
          generation_attempts = 0;
          warnings = warnings ++ reranked.warnings;
        };
      })

    unfoldable pub search : Text → RetrievalFilters → Result ServiceError (RetrievalResult Float J)
    search question filters = do
      let query = normalize_query p.nfc question
      raise_if (is_empty query) empty_question
      vector ← raised_as embedding_failed (p.embed_query query)
      vector ← validate_query_embedding fl vector p.dimensions
      let dense = p.dense_search vector config.dense_limit filters
      let lexical = p.lexical_search query config.lexical_limit filters
      raise_if (failed dense && failed lexical) both_searches_failed
      raise_if (has_bad_score (found dense)) non_finite_score
      raise_if (has_bad_score (found lexical)) non_finite_score
      rank question query (found dense) (found lexical)
          (search_warning (codes "dense") dense ++ search_warning (codes "lexical") lexical)
