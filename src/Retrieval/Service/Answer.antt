-- ===== src/Retrieval/Service/Answer.antt =====
-- `RetrievalService.answer` of service.py: abstention, generation and its retry.
use project_rag.Prelude.{
  ℕ, zero, suc, ◌+◌, ◌-◌, Text, codes, Option, none, some, List, [], ◌∷◌, ◌++◌, Bool, true, false,
  not, ◌&&◌, is_empty, length, drop, strip, join, if◌then◌else◌, Eq, Result, ok, raise, ◌>>=◌,
}
use project_rag.Prelude.Floats.{Floats}
use project_rag.Retrieval.Models.{
  RetrievalFilters, RankedCandidate, SourceExcerpt, ChatMessage, GenerationRequest,
  GenerationResult, RetrievalDiagnostics, RetrievalResult, AnswerResult, allowed_source_ids,
}
use project_rag.Retrieval.Citations.{
  CitationError, CitationValidation, valid, validate_citations, ordered_unique,
}
use project_rag.Retrieval.Context.{ContextBuilder, ContextBundle, build}
use project_rag.Retrieval.Service.Config.{
  RetrievalConfig, ServiceError, citation_failed, Providers, normalize_query,
}
use project_rag.Retrieval.Service.Search.{search}

abbrev invalid_issue : List Text → List Text
invalid_issue [] = []
invalid_issue (id ∷ ids) =
    (codes "It used source labels that were not supplied: "
      ++ join (codes ", ") (id ∷ ids)
      ++ codes ".")
    ∷ []

unfoldable pub validation_feedback : CitationValidation → List Text → Bool → Text
validation_feedback v allowed output_missing = join (codes " ") (
    (if output_missing then codes "The previous answer was empty." ∷ [] else [])
    ++ invalid_issue v.invalid_source_ids
    ++ (if v.has_required_citation
        then []
        else codes "It did not include an inline [S#] citation." ∷ [])
    ++ (codes "Regenerate using only these labels: " ++ join (codes ", ") allowed ++ codes ".")
      ∷ [])

abbrev pub abstention_text : Text
abstention_text =
    codes
      "I couldn't find enough reliable information in the uploaded documents to answer that question."

abbrev pub unsafe_text : Text
unsafe_text = codes "The generated response could not be tied safely to the supplied sources."

module _ (fl : Floats) where
  open fl use {Float, literal, lt}

  -- `min(1.0, max(0.0, value))`
  abbrev pub clamp : Option Float → Option Float
  clamp none = none
  clamp (some value) =
      let raised = if lt (literal 0 1) value then value else literal 0 1 in
      some (if lt raised (literal 1 1) then raised else literal 1 1)

module _ (fl : Floats) {J : Type 0} where
  open fl use {Float, literal, lt}

  unfoldable pub abstention :
      Text
      → RetrievalDiagnostics
      → Text
      → List (SourceExcerpt Float J)
      → List Text
      → AnswerResult Float J
  abstention question diagnostics reason sources missing = record {
    question = question;
    answer = abstention_text;
    sources = sources;
    cited_source_ids = [];
    confidence = some (literal 0 1);
    missing_information = missing;
    abstained = true;
    abstention_reason = some reason;
    diagnostics = diagnostics;
  }

  unfoldable pub answer_from_generation :
      Text
      → GenerationResult Float J
      → CitationValidation
      → List (SourceExcerpt Float J)
      → RetrievalDiagnostics
      → AnswerResult Float J
  answer_from_generation question result v sources diagnostics = record {
    question = question;
    answer = strip result.answer;
    sources = sources;
    cited_source_ids = v.cited_source_ids;
    confidence = clamp fl result.confidence;
    missing_information = result.missing_information;
    abstained = result.abstained;
    abstention_reason = if result.abstained then some (codes "generator_abstained") else none;
    diagnostics = diagnostics;
  }

  -- `minimum_top_score` is set and the best candidate is below it.
  abbrev pub below_threshold : Option Float → List (RankedCandidate Float J) → Bool
  below_threshold none candidates = false
  below_threshold (some least) [] = false
  below_threshold (some least) (top ∷ candidates) = lt top.final_score least

-- `conversation[-6:]`
abbrev pub last_six : List ChatMessage → List ChatMessage
last_six messages = drop (length messages - 6) messages

module _ (fl : Floats) {J : Type 0} (p : Providers fl J) (config : RetrievalConfig fl.Float)
    (builder : ContextBuilder) where
  open fl use {Float}

  abbrev pub request_of :
      Text → List ChatMessage → ContextBundle Float J → Option Text → GenerationRequest Float J
  request_of question conversation context feedback = record {
    question = normalize_query p.nfc question;
    context = context.text;
    sources = context.sources;
    conversation = last_six conversation;
    validation_feedback = feedback;
  }

  abbrev pub validation_of :
      ContextBundle Float J → GenerationResult Float J → Result CitationError CitationValidation
  validation_of context result =
      validate_citations result (allowed_source_ids context.sources) config.require_citations

  -- What a result is accepted by.
  abbrev pub is_accepted : CitationValidation → GenerationResult Float J → Bool
  is_accepted v result = valid v && not (is_empty (strip result.answer))

  -- The loop over the attempts: how many are left, the next one's number, and the loop's state. The
  -- generator's error is caught; that of the validation is not.
  unfoldable pub attempt_from :
      Text
      → List ChatMessage
      → ContextBundle Float J
      → RetrievalDiagnostics
      → ℕ
      → ℕ
      → Option Text
      → List Text
      → Result ServiceError (AnswerResult Float J)
  attempt_from question conversation context diagnostics zero attempt feedback invalid = ok (
      abstention fl question
        (record diagnostics {
          generation_attempts = attempt - 1;
          invalid_citations = ordered_unique invalid;
        })
        (codes "invalid_or_missing_citations") context.sources (unsafe_text ∷ []))
  attempt_from question conversation context diagnostics (suc left) attempt feedback invalid =
      elim (p.generate attempt (request_of question conversation context feedback)) [
        | raise e ↦ ok (
            abstention fl question
              (record diagnostics {
                generation_attempts = attempt;
                warnings = diagnostics.warnings ++ (codes "generation_failed:" ++ e) ∷ [];
              })
              (codes "generation_error") context.sources [])
        | ok result ↦ elim (validation_of context result) [
          | raise e ↦ raise (citation_failed e)
          | ok v ↦
              let retried =
                attempt_from question conversation context diagnostics left (attempt + 1)
                  (some (
                    validation_feedback v (allowed_source_ids context.sources)
                      (is_empty (strip result.answer))))
                  (invalid ++ v.invalid_source_ids) in
              if is_accepted v result
              then ok (
                  answer_from_generation fl question result v context.sources (record diagnostics {
                    generation_attempts = attempt;
                    invalid_citations = ordered_unique (invalid ++ v.invalid_source_ids);
                  }))
              else retried
        ]
      ]

  abbrev pub attempts : ℕ
  attempts = if config.retry_invalid_citations then 2 else 1

  -- From the retrieved candidates to the answer.
  unfoldable pub respond :
      Text → List ChatMessage → RetrievalResult Float J → Result ServiceError (AnswerResult Float J)
  respond question conversation retrieval =
      let context = build builder retrieval.candidates in
      let diagnostics = record retrieval.diagnostics {
        selected_candidates = length context.sources;
        context_estimated_tokens = context.estimated_tokens;
        context_truncated = context.truncated;
      } in
      if is_empty retrieval.candidates
      then ok (abstention fl question retrieval.diagnostics (codes "no_relevant_sources") [] [])
      else if below_threshold fl config.minimum_top_score retrieval.candidates
      then ok
          (abstention fl question retrieval.diagnostics (codes "relevance_below_threshold") [] [])
      else if is_empty context.sources
      then ok (abstention fl question diagnostics (codes "context_budget_too_small") [] [])
      else attempt_from question conversation context diagnostics attempts 1 none []

  module _ ⦃e : Eq (RankedCandidate Float J)⦄ where
    unfoldable pub answer :
        Text → RetrievalFilters → List ChatMessage → Result ServiceError (AnswerResult Float J)
    answer question filters conversation = do
      retrieval ← search fl p config question filters
      respond question conversation retrieval
