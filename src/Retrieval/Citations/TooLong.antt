-- ===== src/Retrieval/Citations/TooLong.antt =====
-- When `validate_citations` of citations.py raises: a declared label has more digits than `int` reads.
use project_rag.Prelude.{
  ◌≡◌, refl, Text, List, [], ◌∷◌, Bool, true, false, arith, inl, inr, ap, ◌∙◌, sym, ok, raise,
  decimal, raise_if, ◌>>◌, IsIn, some, ◌<◌, length, ltb, strip, Option-cases, Result-cases,
}
use project_rag.Retrieval.Digits.{decimal_value}
use project_rag.Retrieval.Models.{GenerationResult}
use project_rag.Retrieval.Citations.{
  CitationError, label_too_long, source_number, normal_label, normalize_source_id, normalize_all,
  validate_citations,
}

-- `int` refuses the digits of a declared label.
pub IsTooLong : Text → Type 0
IsTooLong value =
    (digits : Text) × (source_number (strip value) ≡ some digits) × (4300 < length digits)

raise_if-raise :
    {E A : Type 0} (test : Bool) (error : E) (a : A) {e : E}
    → (raise_if test error >> ok a) ≡ raise e
    → test ≡ true
raise_if-raise true error a h = refl
raise_if-raise false error a h = cc

normalize_source_id-raise :
    (value : Text) {e : CitationError} → normalize_source_id value ≡ raise e → IsTooLong value
unfolding normalize_source_id IsTooLong
normalize_source_id-raise value {e} h = elim (Option-cases (source_number (strip value))) [
  | inl k ↦ absurd (cc (ap (normal_label (strip value)) (sym k) ∙ h))
  | inr (digits, k) ↦
      let long =
        raise_if-raise (ltb 4300 (length digits)) label_too_long
          (b'S' ∷ decimal (decimal_value 0 digits)) (ap (normal_label (strip value)) (sym k) ∙ h) in
      (digits, k, ground (arith, long))
]

pub normalize_all-raise :
    (values : List Text) {e : CitationError}
    → normalize_all values ≡ raise e
    → (value : Text) × IsIn value values × IsTooLong value
unfolding normalize_all
normalize_all-raise [] h = cc
normalize_all-raise (value ∷ values) {e} h = elim (Result-cases (normalize_source_id value)) [
  | inl (f, k) ↦ (value, inl refl, normalize_source_id-raise value k)
  | inr (label, k) ↦ elim (Result-cases (normalize_all values)) [
    | inl (f, l) ↦
        let (long, here, digits) = normalize_all-raise values l in (long, inr here, digits)
    | inr (labels, l) ↦ absurd (ground (arith, h, k, l))
  ]
]

pub validate_citations-raise :
    {F J : Type 0} (result : GenerationResult F J) (allowed : List Text) (require : Bool)
    {e : CitationError}
    → validate_citations result allowed require ≡ raise e
    → (value : Text) × IsIn value result.cited_source_ids × IsTooLong value
unfolding validate_citations
validate_citations-raise result allowed require {e} h =
    elim (Result-cases (normalize_all result.cited_source_ids)) [
      | inl (f, k) ↦ normalize_all-raise result.cited_source_ids k
      | inr (declared, k) ↦ absurd (ground (arith, h, k))
    ]
