-- ===== src/Retrieval/Service/Grounded.antt =====
-- What `RetrievalService.answer` of service.py promises: an answer is tied to its sources or it is
-- an abstention, whatever the generator does.
use project_rag.Prelude.{
  ℕ, zero, suc, ◌+◌, ◌≡◌, ◌≤◌, ◌↔◌, refl, ◌⊎◌, inl, inr, Text, Option, none, some, List, [], true,
  false, is_empty, strip, member, IsIn, list_eq, nat_eq, Eq, Result, Result-cases, ok, raise,
  Bool-cases, arith,
}
use project_rag.Prelude.Floats.{Floats}
use project_rag.Retrieval.Models.{
  RetrievalFilters, RankedCandidate, ChatMessage, GenerationRequest, GenerationResult,
  SourceExcerpt, RetrievalDiagnostics, RetrievalResult, AnswerResult, allowed_source_ids,
}
use project_rag.Retrieval.Citations.{
  CitationError, label_too_long, CitationValidation, normalize_all, validate_citations,
}
use project_rag.Retrieval.Citations.Grounding.{
  IsInText, IsSound, cited_exact, validate_citations-IsSound,
}
use project_rag.Retrieval.Citations.TooLong.{IsTooLong, validate_citations-raise}
use project_rag.Retrieval.Context.{ContextBuilder, ContextBundle, build}
use project_rag.Retrieval.Service.Config.{RetrievalConfig, ServiceError, citation_failed, Providers}
use project_rag.Retrieval.Service.Search.{search}
use project_rag.Retrieval.Service.Answer.{
  abstention, abstention_text, answer_from_generation, below_threshold, request_of, validation_of,
  is_accepted, attempt_from, attempts, respond, answer,
}

module _ (fl : Floats) {J : Type 0} (p : Providers fl J) (config : RetrievalConfig fl.Float)
    (builder : ContextBuilder) where
  open fl use {Float}

  -- The fixed text, no citation, and a reason.
  pub IsAbstention : AnswerResult Float J → Type 0
  IsAbstention a =
      (a.abstained ≡ true)
      × (a.answer ≡ abstention_text)
      × (a.cited_source_ids ≡ [])
      × ((reason : Text) × (a.abstention_reason ≡ some reason))

  -- A call of the generator for these sources, at one of the attempts.
  abbrev pub IsGenerated :
      ContextBundle Float J → ℕ → ℕ → GenerationRequest Float J → GenerationResult Float J → Type 0
  IsGenerated context last attempt request result =
      (p.generate attempt request ≡ ok result)
      × (request.sources ≡ context.sources)
      × (attempt ≤ last)

  -- The generator's result at one of the attempts, for these sources, with only their labels.
  pub IsGrounded : ContextBundle Float J → ℕ → AnswerResult Float J → Type 0
  IsGrounded context last a =
      (attempt : ℕ) × (request : GenerationRequest Float J) × (result : GenerationResult Float J)
      × (declared : List Text) × IsGenerated context last attempt request result
      × (normalize_all result.cited_source_ids ≡ ok declared)
      × (a.sources ≡ context.sources)
      × (a.diagnostics.generation_attempts ≡ attempt)
      × (a.answer ≡ strip result.answer)
      × (is_empty a.answer ≡ false)
      × (a.abstained ≡ result.abstained)
      × IsSound result (allowed_source_ids a.sources) config.require_citations declared
      × ((label : Text)
          → (member label a.cited_source_ids ≡ true)
            ↔ (IsInText result.answer label × (member label (allowed_source_ids a.sources) ≡ true)))

  accepted-IsGrounded :
      (question : Text) (context : ContextBundle Float J) (diagnostics : RetrievalDiagnostics)
      (attempt last : ℕ) (request : GenerationRequest Float J) (result : GenerationResult Float J)
      (v : CitationValidation) (invalid : List Text)
      → IsGenerated context last attempt request result
      → validation_of fl p config builder context result ≡ ok v
      → is_accepted fl p config builder v result ≡ true
      → IsGrounded context last (
          answer_from_generation fl question result v context.sources
            (record diagnostics { generation_attempts = attempt; invalid_citations = invalid }))
  unfolding IsGrounded answer_from_generation
  accepted-IsGrounded question context diagnostics attempt last request result v invalid g h fine =
      let allowed = allowed_source_ids context.sources in
      let (declared, normal, sound) =
        validate_citations-IsSound result allowed config.require_citations h
          (ground (arith, fine)) in
      (
        attempt,
        request,
        result,
        declared,
        g,
        normal,
        refl,
        refl,
        refl,
        ground (arith, fine),
        refl,
        sound,
        (cited_exact result allowed config.require_citations h).1,
      )

  -- Abstention or grounding, after at most `last` attempts.
  pub IsSafe : ContextBundle Float J → ℕ → AnswerResult Float J → Type 0
  IsSafe context last a = IsAbstention a ⊎ IsGrounded context last a

  -- At one of the attempts the generator declares a label that is too long.
  pub IsOverlong : ContextBundle Float J → ℕ → Type 0
  IsOverlong context last =
      (attempt : ℕ) × (request : GenerationRequest Float J) × (result : GenerationResult Float J)
      × (value : Text) × IsGenerated context last attempt request result
      × IsIn value result.cited_source_ids
      × IsTooLong value

  -- An answer is safe, and what is raised is the error of a label that is too long.
  pub Ends : ContextBundle Float J → ℕ → Result ServiceError (AnswerResult Float J) → Type 0
  Ends context last (ok a) = IsSafe context last a
  Ends context last (raise e) = (e ≡ citation_failed label_too_long) × IsOverlong context last

  only_error : (e : CitationError) → citation_failed e ≡ citation_failed label_too_long
  only_error label_too_long = refl

  attempt_from-Ends :
      (question : Text) (conversation : List ChatMessage) (context : ContextBundle Float J)
      (diagnostics : RetrievalDiagnostics) (left attempt last : ℕ) (feedback : Option Text)
      (invalid : List Text)
      → attempt + left ≤ suc last
      → Ends context last (
          attempt_from fl p config builder question conversation context diagnostics left attempt
            feedback invalid)
  unfolding attempt_from Ends IsSafe IsAbstention abstention IsOverlong
  attempt_from-Ends question conversation context diagnostics zero attempt last feedback invalid h =
      inl (refl, refl, refl, (_, refl))
  attempt_from-Ends question conversation context diagnostics (suc left) attempt last feedback
        invalid h =
      let request = request_of fl p config builder question conversation context feedback in
      let allowed = allowed_source_ids context.sources in
      elim (Result-cases (p.generate attempt request)) [
        | inl (e, raised) ↦ rw (raised, attempt_from) (inl (refl, refl, refl, (_, refl)))
        | inr (result, returned) ↦
            let last_allows : attempt ≤ last = omega (arith, h) in
            elim (Result-cases (validate_citations result allowed config.require_citations)) [
              | inl (e, raised) ↦
                  let (value, declared, long) =
                    validate_citations-raise result allowed config.require_citations raised in
                  rw (returned, raised, attempt_from)
                    (
                      only_error e,
                      (
                        attempt,
                        request,
                        result,
                        value,
                        (returned, refl, last_allows),
                        declared,
                        long,
                      ),
                    )
              | inr (v, validated) ↦
                  rw (returned, validated, attempt_from)
                    (elim (Bool-cases (is_accepted fl p config builder v result)) [
                      | inl accepted ↦ rw accepted (
                          inr (
                            accepted-IsGrounded question context diagnostics attempt last request
                              result v _ (returned, refl, last_allows) validated accepted))
                      | inr refused ↦ rw refused (
                          attempt_from-Ends question conversation context diagnostics left
                            (attempt + 1) last _ _ (omega (arith, h)))
                    ])
            ]
      ]

  abstention-IsAbstention :
      (question : Text) (diagnostics : RetrievalDiagnostics) (reason : Text)
      (sources : List (SourceExcerpt Float J)) (missing : List Text)
      → IsAbstention (abstention fl question diagnostics reason sources missing)
  unfolding IsAbstention abstention
  abstention-IsAbstention question diagnostics reason sources missing =
      (refl, refl, refl, (reason, refl))

  respond-Ends :
      (question : Text) (conversation : List ChatMessage) (r : RetrievalResult Float J)
      → Ends
          (build builder r.candidates)
          (attempts fl p config builder)
          (respond fl p config builder question conversation r)
  unfolding respond Ends IsSafe
  respond-Ends question conversation r = elim (Bool-cases (is_empty r.candidates)) [
    | inl e ↦ rw e (inl (abstention-IsAbstention question _ _ [] []))
    | inr e ↦ rw e (elim (Bool-cases (below_threshold fl config.minimum_top_score r.candidates)) [
      | inl f ↦ rw f (inl (abstention-IsAbstention question _ _ [] []))
      | inr f ↦ rw f (elim (Bool-cases (is_empty (build builder r.candidates).sources)) [
        | inl g ↦ rw g (inl (abstention-IsAbstention question _ _ [] []))
        | inr g ↦ rw g (
            attempt_from-Ends question conversation (build builder r.candidates) _
              (attempts fl p config builder) 1 (attempts fl p config builder) none [] (omega arith))
      ])
    ])
  ]

  module _ ⦃e : Eq (RankedCandidate Float J)⦄ where
    -- If the search succeeds, `answer` returns the fixed abstention without citations, also where the
    -- generator raises, or the stripped, not empty text of the generator's result at one of its at
    -- most two attempts (one without retry), given the sources of the context built from the
    -- retrieved candidates. Every label that such a result uses, in its text or in its declared list,
    -- names one of the sources; an allowed label stands in the text if citations are required and the
    -- result does not abstain; and the labels reported as cited are the allowed ones in the text.
    -- `answer` raises only where the generator's result at one of the attempts declares a label of
    -- more than 4300 digits.
    pub answer-IsSafe :
        (question : Text) (filters : RetrievalFilters) (conversation : List ChatMessage)
        {r : RetrievalResult Float J}
        → search fl p config question filters ≡ ok r
        → Ends
            (build builder r.candidates)
            (attempts fl p config builder)
            (answer fl p config builder question filters conversation)
    unfolding answer
    answer-IsSafe question filters conversation {r} h = rw h (respond-Ends question conversation r)
