-- ===== src/Retrieval/ExactCount/Sources.antt =====
-- The labels that an answer of exact_count.py gives its documents.
use project_rag.Prelude.{
  ℕ, ◌≡◌, ◌+◌, refl, sym, ◌∙◌, Text, List, [], ◌∷◌, ◌++◌, append-nil, append_assoc, list_eq, nat_eq,
  ◌==◌, if◌then◌else◌, dict_get, dict_set, dict_get-set, Bool-cases, eq_of_beq, bne_symm, beq_refl,
  inl, inr,
}
use project_rag.Retrieval.ExactCount.Count.{ExactCountEvidence, ExactCountResult, evidence}
use project_rag.Retrieval.ExactCount.Answer.{numbers_of, source_numbers, sources_of}

-- The places of a document's pieces in a list, counted from a number on.
abbrev pub places : Text → ℕ → List ExactCountEvidence → List ℕ
places id n [] = []
places id n (e ∷ es) =
    let rest = places id (n + 1) es in if e.document_id == id then n ∷ rest else rest

source_numbers-places :
    (id : Text) (n : ℕ) (es : List ExactCountEvidence) (d : List (Text × List ℕ))
    → numbers_of (dict_get id (source_numbers n es d))
      ≡ numbers_of (dict_get id d) ++ places id n es
unfolding source_numbers
source_numbers-places id n [] d = sym (append-nil _)
source_numbers-places id n (e ∷ es) d =
    let mine = numbers_of (dict_get e.document_id d) ++ n ∷ [] in
    source_numbers-places id (n + 1) es (dict_set e.document_id mine d)
    ∙ rw (dict_get-set e.document_id id mine d) (elim (Bool-cases (e.document_id == id)) [
      | inl same ↦
          rw (same, eq_of_beq e.document_id id same, beq_refl id)
            (append_assoc (numbers_of (dict_get id d)) (n ∷ []) (places id (n + 1) es))
      | inr other ↦ rw (other, bne_symm e.document_id id other) refl
    ])

-- The labels of a document in an answer are the places of its pieces in the list of evidence,
-- counted from one.
pub sources_of-lem :
    (result : ExactCountResult) (id : Text) → sources_of result id ≡ places id 1 (evidence result)
unfolding dict_get
sources_of-lem result id = source_numbers-places id 1 (evidence result) []
