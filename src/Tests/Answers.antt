-- ===== src/Tests/Answers.antt =====
-- Citations, the context and the service on small inputs.
use project_rag.Prelude.{
  ℕ, ◌≡◌, ◌≤◌, ◌↔◌, refl, Text, codes, none, some, List, [], ◌∷◌, true, member, Distinct, All,
  subst, join, words, list_eq, nat_eq, Result, ok, raise, decimal, strip, strip_of, lstrip_of,
  rstrip_of,
}
use project_rag.Retrieval.Models.{SearchCandidate, RetrievalFilters, RetrievalResult, ranked_eq}
use project_rag.Retrieval.Digits.{is_decimal, decimal_value}
use project_rag.Retrieval.Citations.{
  CitationValidation, valid, validate_citations, normalize_all, normalize_source_id, source_number,
  inline_labels, label_at, read_digits,
}
use project_rag.Retrieval.Citations.Grounding.{IsInText, IsSound, valid_iff, cited_exact}
use project_rag.Retrieval.Context.{ContextBuilder, build, estimate_tokens}
use project_rag.Retrieval.Context.Budget.{Excerpts, build-Excerpts}
use project_rag.Retrieval.Service.Config.{
  RetrievalConfig, Providers, ServiceError, normalize_query, validate_query_embedding,
}
use project_rag.Retrieval.Fusion.Rrf.{reciprocal_rank_fusion}
use project_rag.Retrieval.Fusion.Dedupe.{deduplicate_ranked_candidates}
use project_rag.Retrieval.Diversity.{select_diverse_candidates}
use project_rag.Retrieval.Service.Search.{search, rank}
use project_rag.Retrieval.Service.Answer.{answer}
use project_rag.Retrieval.Service.Grounded.{Ends, answer-IsSafe}
use project_rag.Retrieval.Service.Pipeline.{search-All}
use project_rag.Tests.Retrieval.{numbers, a, b, three_ranked, a_generated}

abbrev labels : List Text
labels = codes "S1" ∷ codes "S2" ∷ []

declares : normalize_all a_generated.cited_source_ids ≡ ok (codes "S1" ∷ [])
unfolding normalize_all normalize_source_id source_number is_decimal decimal_value decimal strip
    strip_of lstrip_of rstrip_of
declares = refl

valid_iff_example :
    (v : CitationValidation) × (validate_citations a_generated labels true ≡ ok v)
    × ((valid v ≡ true) ↔ IsSound a_generated labels true (codes "S1" ∷ []))
valid_iff_example = valid_iff a_generated labels true declares

validates : (v : CitationValidation) × (validate_citations a_generated labels true ≡ ok v)
unfolding validate_citations normalize_all normalize_source_id source_number is_decimal
    decimal_value decimal strip strip_of lstrip_of rstrip_of
validates = (_, refl)

cited_exact_example :
    Distinct validates.0.cited_source_ids
    × ((label : Text)
        → (member label validates.0.cited_source_ids ≡ true)
          ↔ (IsInText a_generated.answer label × (member label labels ≡ true)))
cited_exact_example = cited_exact a_generated labels true validates.1

-- A digit of another script makes a label too, and it is found as it is written.
wide_digit : inline_labels (b'[' ∷ b'S' ∷ 65297 ∷ b']' ∷ []) ≡ (65297 ∷ []) ∷ []
unfolding inline_labels label_at read_digits is_decimal
wide_digit = refl

abbrev builder : ContextBuilder
builder = record { max_tokens = 100; min_passage_tokens = 2 }

build-Excerpts_example :
    ((build builder three_ranked).estimated_tokens ≤ 100)
    × ((build builder three_ranked).estimated_tokens
        ≡ estimate_tokens (build builder three_ranked).text)
    × Excerpts builder 1 three_ranked (build builder three_ranked).sources
build-Excerpts_example = build-Excerpts builder three_ranked

-- The dense search finds two candidates, the lexical search fails, and the generator cites S1.
abbrev providers : Providers numbers ℕ
providers = record {
  nfc = λ t. t;
  dedupe_normal = λ t. t;
  word_tokens = λ t. t ∷ [];
  embed_query = λ q. ok (1 ∷ []);
  dimensions = some 1;
  provider_name = codes "p";
  model_name = codes "m";
  dense_search = λ v n f. ok (a ∷ b ∷ []);
  lexical_search = λ q n f. raise (codes "OperationalError");
  rerank = none;
  generate = λ n request. ok a_generated;
}

abbrev config : RetrievalConfig ℕ
config = record {
  dense_limit = 4;
  lexical_limit = 4;
  fusion_limit = 4;
  source_limit = 2;
  dense_weight = 1;
  lexical_weight = 1;
  rrf_rank_constant = 60;
  rerank_weight = 1;
  mmr_lambda = 1;
  max_per_document = 2;
  max_per_section = 2;
  near_duplicate_threshold = 1;
  max_context_tokens = 100;
  min_context_passage_tokens = 2;
  minimum_top_score = none;
  require_citations = true;
  retry_invalid_citations = true;
}

abbrev filters : RetrievalFilters
filters = record {
  tenant_id = codes "t";
  collection_id = none;
  document_ids = [];
  tags = [];
  created_after = none;
  created_before = none;
}

abbrev two_found : Result ServiceError (RetrievalResult ℕ ℕ)
two_found = search numbers providers config (codes "why") filters

searches : (r : RetrievalResult ℕ ℕ) × (two_found ≡ ok r)
unfolding search normalize_query join words validate_query_embedding rank reciprocal_rank_fusion
    deduplicate_ranked_candidates select_diverse_candidates
searches = (_, refl)

abbrev IsFirstDocument : SearchCandidate ℕ ℕ → Type 0
IsFirstDocument r = r.document_id ≡ codes "d1"

abbrev OkAll : Result Text (List (SearchCandidate ℕ ℕ)) → Type 0
OkAll (ok cs) = All IsFirstDocument cs
OkAll (raise e) = Unit

dense_found :
    (cs : List (SearchCandidate ℕ ℕ))
    → providers.dense_search [] 0 filters ≡ ok cs
    → All IsFirstDocument cs
dense_found cs e = subst OkAll e (refl, (refl, tt))

answer-IsSafe_example :
    Ends numbers providers config builder
      (build builder searches.0.candidates)
      2
      (answer numbers providers config builder (codes "why") filters [])
answer-IsSafe_example =
    answer-IsSafe numbers providers config builder (codes "why") filters [] searches.1

search-All_example : All (λ r. IsFirstDocument r.candidate) searches.0.candidates
search-All_example =
    search-All numbers providers config IsFirstDocument (codes "why") filters
      (λ vector limit cs e. dense_found cs e) (λ query limit cs e. cc) searches.1
