-- ===== src/Retrieval/Service/Pipeline.antt =====
-- What `RetrievalService.search` of service.py returns comes from the repository's two searches.
pub mod Filed
pub mod Stages
use project_rag.Prelude.{
  ℕ, zero, suc, ◌+◌, ◌≡◌, refl, Text, Option, none, some, List, [], ◌∷◌, ◌++◌, map, Bool, true,
  false, not, ◌&&◌, ◌||◌, is_empty, member, keep, All, All-keep, All-take, All-append, any, list_eq,
  nat_eq, ◌==◌, Eq, Result, ok, raise, raise_if, ◌>>=◌, >>=-eq-ok, Result-cases, Bool-cases,
  List-cases, inl, inr, arith, dict_set, dict_default, sort_by, sort_by-All, if◌then◌else◌, leb,
  ltb, length, subst,
}
use project_rag.Prelude.Floats.{Floats}
use project_rag.Retrieval.Models.{
  SearchCandidate, RankedCandidate, RetrievalResult, RetrievalFilters,
}
use project_rag.Retrieval.Fusion.Rrf.{
  unique_from, unique_by_chunk, Tables, dense_step, lexical_step, add_dense, add_lexical,
  empty_tables, tables_of, fuse_one, all_fused, fused_before, cut_to, reciprocal_rank_fusion,
}
use project_rag.Retrieval.Fusion.Dedupe.{
  deduplicate_ranked_candidates, deduplicate_from, is_duplicate, hash_of, passage_of, tokens_of,
}
use project_rag.Retrieval.Fusion.Rerank.{
  rescore_all, rescored_of, final_before, attach_rerank_scores,
}
use project_rag.Retrieval.Service.Search.{
  Reranked, rescored, apply_scores, rerank_stage, rank, search, search_warning, raised_as, found,
  failed, has_bad_score,
}
use project_rag.Retrieval.Service.Config.{
  RetrievalConfig, Providers, ServiceError, fusion_failed, diversity_failed, embedding_failed,
  empty_question, non_finite_score, both_searches_failed, normalize_query, validate_query_embedding,
}
use project_rag.Prelude.Floats.{le}
use project_rag.Retrieval.Diversity.{
  best_by, below, mmr_below, choose, remove, is_eligible, DiversityError, select_from,
  select_diverse_candidates,
}
use project_rag.Retrieval.Diversity.Caps.{best_by-holds}
use project_rag.Retrieval.Service.Pipeline.Stages.{
  RankedP, apply_scores-All, choose-All, dedupe-All, fusion-All, rerank_stage-All, reranked_of,
  rescore_all-All, rescored-All, select_from-All,
}

module _ (fl : Floats) {J : Type 0} (p : Providers fl J) (config : RetrievalConfig fl.Float)
    (P : SearchCandidate fl.Float J → Type 0) ⦃e : Eq (RankedCandidate fl.Float J)⦄ where
  open fl use {Float}

  unique-All :
      (fused : List (RankedCandidate Float J)) {unique : List (RankedCandidate Float J)}
      → deduplicate_ranked_candidates fl p.dedupe_normal p.word_tokens
          config.near_duplicate_threshold fused
        ≡ ok unique
      → All (RankedP fl P) fused
      → All (RankedP fl P) unique
  unfolding deduplicate_ranked_candidates
  unique-All fused {unique} h k = subst (All (RankedP fl P)) (unique_of h) (
      dedupe-All fl P p.dedupe_normal p.word_tokens config.near_duplicate_threshold [] [] [] fused
        k)
    where
      unique_of :
          deduplicate_ranked_candidates fl p.dedupe_normal p.word_tokens
              config.near_duplicate_threshold fused
            ≡ ok unique
          → deduplicate_from fl p.dedupe_normal p.word_tokens config.near_duplicate_threshold [] []
              [] fused
            ≡ unique
      unique_of h = ground arith

  abbrev FoundP : Result ServiceError (RetrievalResult Float J) → Type 0
  FoundP (raise e) = Unit
  FoundP (ok r) = All (RankedP fl P) r.candidates

  -- What is selected, if anything is.
  abbrev ChosenP : Result DiversityError (List (RankedCandidate Float J) × Bool) → Type 0
  ChosenP (raise e) = Unit
  ChosenP (ok chosen) = All (RankedP fl P) chosen.0

  chosen-All :
      (rs : List (RankedCandidate Float J))
      → All (RankedP fl P) rs
      → ChosenP (
          select_diverse_candidates fl config.max_per_document config.max_per_section rs
            config.source_limit config.mmr_lambda)
  unfolding select_diverse_candidates
  chosen-All rs k =
      let zero_limit = ltb config.source_limit 1 in
      let lambda_ok =
        le fl (fl.literal 0 1) config.mmr_lambda && le fl config.mmr_lambda (fl.literal 1 1) in
      let caps_bad = ltb config.max_per_document 1 || ltb config.max_per_section 1 in
      elim (Bool-cases zero_limit) [
        | inl a ↦ rw a tt
        | inr a ↦ rw a (elim (Bool-cases lambda_ok) [
          | inr b ↦ rw b tt
          | inl b ↦ rw b (elim (Bool-cases caps_bad) [
            | inl c ↦ rw c tt
            | inr c ↦ rw c (
                select_from-All fl P config.max_per_document config.max_per_section _
                  config.mmr_lambda config.source_limit (length rs) rs [] k tt)
          ])
        ])
      ]

  raised_as-eq-ok :
      {E A : Type 0} (wrap : E → ServiceError) (m : Result E A) {a : A}
      → raised_as wrap m ≡ ok a
      → m ≡ ok a
  raised_as-eq-ok wrap (ok b) h = ground arith
  raised_as-eq-ok wrap (raise b) h = cc

  rank-All :
      (question query : Text) (dense lexical : List (SearchCandidate Float J))
      (warnings : List Text) {r : RetrievalResult Float J}
      → rank fl p config question query dense lexical warnings ≡ ok r
      → All P dense
      → All P lexical
      → All (RankedP fl P) r.candidates
  unfolding rank
  rank-All question query dense lexical warnings {r} h k l =
      let (fused, h1, h) = >>=-eq-ok _ _ h in
      let (unique, h2, h) = >>=-eq-ok _ _ h in
      let (chosen, h3, h) = >>=-eq-ok _ _ h in
      let fused_holds =
        fusion-All fl P dense lexical config.dense_weight config.lexical_weight
          config.rrf_rank_constant (some config.fusion_limit) (raised_as-eq-ok fusion_failed _ h1) k
          l in
      let unique_holds = unique-All fused (raised_as-eq-ok fusion_failed _ h2) fused_holds in
      let chosen_holds =
        chosen-All _
          (rerank_stage-All fl P p.rerank config.rerank_weight query unique unique_holds) in
      subst (λ (x : Result ServiceError (RetrievalResult Float J)). FoundP x) h
        (subst ChosenP (raised_as-eq-ok diversity_failed _ h3) chosen_holds)

  rank-FoundP :
      (question query : Text) (dense lexical : List (SearchCandidate Float J))
      (warnings : List Text)
      → All P dense
      → All P lexical
      → FoundP (rank fl p config question query dense lexical warnings)
  rank-FoundP question query dense lexical warnings k l =
      elim (Result-cases (rank fl p config question query dense lexical warnings)) [
        | inl (e, raised) ↦ rw raised tt
        | inr (r, returned) ↦
            rw returned (rank-All question query dense lexical warnings returned k l)
      ]

  FoundP-bind :
      {A : Type 0} (m : Result ServiceError A)
      (f : A → Result ServiceError (RetrievalResult Float J))
      → ((a : A) → FoundP (f a))
      → FoundP (m >>= f)
  FoundP-bind (ok a) f h = h a
  FoundP-bind (raise e) f h = tt

  found-All :
      (m : Result Text (List (SearchCandidate Float J)))
      → ((cs : List (SearchCandidate Float J)) → m ≡ ok cs → All P cs)
      → All P (found m)
  found-All (ok cs) h = h cs refl
  found-All (raise e) h = tt

  -- Where the repository's two searches return only candidates with a property (such as the
  -- tenant of the filters), all that `search` returns has it: fusion, deduplication, reranking and
  -- diversity add nothing, and a search that fails adds nothing.
  pub search-All :
      (question : Text) (filters : RetrievalFilters) {r : RetrievalResult Float J}
      → ((vector : List Float) (limit : ℕ) (cs : List (SearchCandidate Float J))
          → p.dense_search vector limit filters ≡ ok cs
          → All P cs)
      → ((query : Text) (limit : ℕ) (cs : List (SearchCandidate Float J))
          → p.lexical_search query limit filters ≡ ok cs
          → All P cs)
      → search fl p config question filters ≡ ok r
      → All (RankedP fl P) r.candidates
  unfolding search
  search-All question filters {r} dense lexical h =
      subst (λ (x : Result ServiceError (RetrievalResult Float J)). FoundP x) h
        (FoundP-bind (raise_if (is_empty (normalize_query p.nfc question)) empty_question) _ (λ _.
          FoundP-bind (raised_as embedding_failed (p.embed_query (normalize_query p.nfc question)))
            _
            (λ vector. FoundP-bind (validate_query_embedding fl vector p.dimensions) _ (λ checked.
              let d = p.dense_search checked config.dense_limit filters in
              let l =
                p.lexical_search (normalize_query p.nfc question) config.lexical_limit filters in
              FoundP-bind (raise_if (failed d && failed l) both_searches_failed) _ (λ _.
                FoundP-bind (raise_if (has_bad_score fl p config (found d)) non_finite_score) _
                  (λ _.
                    FoundP-bind (raise_if (has_bad_score fl p config (found l)) non_finite_score) _
                      (λ _.
                        rank-FoundP question (normalize_query p.nfc question) (found d) (found l) _
                          (found-All d (dense checked config.dense_limit))
                          (found-All l
                            (lexical (normalize_query p.nfc question) config.lexical_limit)))))))))
