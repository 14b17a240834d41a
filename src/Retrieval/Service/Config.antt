-- ===== src/Retrieval/Service/Config.antt =====
-- `RetrievalConfig` of service.py, and the providers of the service as parameters: the embedder,
-- the repository, the reranker and the generator are called through interfaces.py and return or
-- raise; a raised exception is modelled by the name of its class. Clocks are not modelled.
use project_rag.Prelude.{
  ℕ, Text, codes, Option, none, some, List, [], ◌∷◌, ◌++◌, Bool, false, not, ◌&&◌, ◌||◌, any, ltb,
  is_empty, join, words, decimal, length, nat_beq, Result, ok, raise_if, ◌>>◌,
}
use project_rag.Prelude.Floats.{Floats, le}
use project_rag.Retrieval.Models.{
  RetrievalFilters, SearchCandidate, GenerationRequest, GenerationResult,
}
use project_rag.Retrieval.Citations.{CitationError}
use project_rag.Retrieval.Fusion.Rrf.{FusionError}
use project_rag.Retrieval.Diversity.{DiversityError}

pub record RetrievalConfig (F : Type 0) : Type 0 where
  pub dense_limit : ℕ
  pub lexical_limit : ℕ
  pub fusion_limit : ℕ
  pub source_limit : ℕ
  pub dense_weight : F
  pub lexical_weight : F
  pub rrf_rank_constant : F
  pub rerank_weight : F
  pub mmr_lambda : F
  pub max_per_document : ℕ
  pub max_per_section : ℕ
  pub near_duplicate_threshold : F
  pub max_context_tokens : ℕ
  pub min_context_passage_tokens : ℕ
  pub minimum_top_score : Option F
  pub require_citations : Bool
  pub retry_invalid_citations : Bool

pub data ServiceError : Type 0 where
  bad_limits bad_fraction negative_weight no_weight bad_rank_constant : ServiceError
  empty_question empty_query_vector wrong_dimensions non_finite_vector : ServiceError
  both_searches_failed non_finite_score : ServiceError
  embedding_failed : Text → ServiceError
  fusion_failed : FusionError → ServiceError
  diversity_failed : DiversityError → ServiceError
  citation_failed : CitationError → ServiceError

-- `RetrievalConfig.__post_init__`
unfoldable pub check_config :
    (fl : Floats) → RetrievalConfig fl.Float → Result ServiceError (RetrievalConfig fl.Float)
check_config fl c =
    let fraction = λ (v : fl.Float). le fl (fl.literal 0 1) v && le fl v (fl.literal 1 1) in
    do
      raise_if
          (any (λ v. ltb v 1)
            (c.dense_limit ∷ c.lexical_limit ∷ c.fusion_limit ∷ c.source_limit ∷ c.max_per_document
              ∷ c.max_per_section ∷ c.max_context_tokens ∷ c.min_context_passage_tokens ∷ []))
          bad_limits
      raise_if
          (not (
            fraction c.rerank_weight
            && fraction c.mmr_lambda
            && fraction c.near_duplicate_threshold))
          bad_fraction
      raise_if (fl.lt c.dense_weight (fl.literal 0 1) || fl.lt c.lexical_weight (fl.literal 0 1))
          negative_weight
      raise_if (le fl (fl.add c.dense_weight c.lexical_weight) (fl.literal 0 1)) no_weight
      raise_if (le fl c.rrf_rank_constant (fl.literal 0 1)) bad_rank_constant
      ok c

pub record Providers (fl : Floats) (J : Type 0) : Type 0 where
  -- `unicodedata.normalize("NFC", …)`, and the normal form and tokens of fusion.py.
  pub nfc : Text → Text
  pub dedupe_normal : Text → Text
  pub word_tokens : Text → List Text
  pub embed_query : Text → Result Text (List fl.Float)
  pub dimensions : Option ℕ
  pub provider_name : Text
  pub model_name : Text
  pub dense_search :
      List fl.Float → ℕ → RetrievalFilters → Result Text (List (SearchCandidate fl.Float J))
  pub lexical_search : Text → ℕ → RetrievalFilters → Result Text (List (SearchCandidate fl.Float J))
  pub rerank : Option (Text → List (SearchCandidate fl.Float J) → Result Text (List fl.Float))
  -- The result of the generator's n-th call for the question.
  pub generate : ℕ → GenerationRequest fl.Float J → Result Text (GenerationResult fl.Float J)

-- `re.sub(r"\s+", " ", …).strip()` of the NFC form
unfoldable pub normalize_query : (Text → Text) → Text → Text
normalize_query nfc query = join (codes " ") (words (nfc query))

abbrev is_other_length : ℕ → Option ℕ → Bool
is_other_length n none = false
is_other_length n (some expected) = not (nat_beq n expected)

unfoldable pub validate_query_embedding :
    (fl : Floats) → List fl.Float → Option ℕ → Result ServiceError (List fl.Float)
validate_query_embedding fl vector expected = do
  raise_if (is_empty vector) empty_query_vector
  raise_if (is_other_length (length vector) expected) wrong_dimensions
  raise_if (any (λ v. not (fl.is_finite v)) vector) non_finite_vector
  ok vector

abbrev dimensions_suffix : Option ℕ → Text
dimensions_suffix none = []
dimensions_suffix (some n) = codes ":" ++ decimal n

unfoldable pub embedding_identifier : {fl : Floats} {J : Type 0} → Providers fl J → Text
embedding_identifier p =
    p.provider_name ++ codes ":" ++ p.model_name ++ dimensions_suffix p.dimensions
