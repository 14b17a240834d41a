-- ===== src/Retrieval/ExactCount/Count.antt =====
-- `count_exact_occurrences`, `_evidence_excerpt` and the result of exact_count.py.
use project_rag.Prelude.{
  ℕ, ◌+◌, ◌-◌, ◌/◌, min, Text, codes, Option, none, some, List, [], ◌∷◌, ◌++◌, map, Bool, not, take,
  drop, length, get_elem?, keep, is_empty, ltb, leb, sort_by, strip, if◌then◌else◌,
}
use project_rag.Ingestion.Models.{Block}
use project_rag.Retrieval.ExactCount.Request.{ExactCountRequest, Regex, literal_pattern}

pub record CountableDocument (V : Type 0) : Type 0 where
  pub document_id : Text
  pub version_id : Text
  pub filename : Text
  pub blocks : List (Block V)

pub record ExactCountEvidence : Type 0 where
  pub document_id : Text
  pub version_id : Text
  pub filename : Text
  pub block_order : ℕ
  pub text : Text
  pub occurrence_count : ℕ
  pub page : Option ℕ
  pub section_path : List Text

pub record ExactDocumentCount : Type 0 where
  pub document_id : Text
  pub version_id : Text
  pub filename : Text
  pub count : ℕ
  pub evidence : List ExactCountEvidence

pub record ExactCountResult : Type 0 where
  pub request : ExactCountRequest
  pub documents : List ExactDocumentCount

-- `sum(document.count for document in self.documents)`
unfoldable pub sum_counts : List ExactDocumentCount → ℕ
sum_counts [] = 0
sum_counts (d ∷ ds) = d.count + sum_counts ds

abbrev pub total : ExactCountResult → ℕ
total result = sum_counts result.documents

abbrev pub starts_at : List (ℕ × ℕ) → ℕ
starts_at [] = 0
starts_at (span ∷ spans) = span.0

-- `_evidence_excerpt`: the window of the source around the first match, marked where it is cut.
abbrev pub window_start : ℕ → ℕ → ℕ → ℕ
window_start size maximum first =
    let start = first - maximum / 2 in
    let end = min size (start + maximum) in
    if ltb (end - start) maximum then end - maximum else start

abbrev pub window_end : ℕ → ℕ → ℕ → ℕ
window_end size maximum first = min size (first - maximum / 2 + maximum)

unfoldable pub evidence_excerpt : ℕ → Text → List (ℕ × ℕ) → Text
evidence_excerpt maximum text matches =
    let cleaned = strip text in
    let start = window_start (length text) maximum (starts_at matches) in
    let end = window_end (length text) maximum (starts_at matches) in
    let excerpt = strip (drop start (take end text)) in
    if leb (length cleaned) maximum
    then cleaned
    else (if leb 1 start then codes "…" else [])
      ++ excerpt
      ++ (if ltb end (length text) then codes "…" else [])

abbrev pub find_matches : Regex → ExactCountRequest → Text → List (ℕ × ℕ)
find_matches re request = re.finditer (literal_pattern re request) (not request.case_sensitive)

module _ {V : Type 0} (re : Regex) (request : ExactCountRequest) where
  abbrev pub evidence_of : CountableDocument V → Block V → ExactCountEvidence
  evidence_of document block = record {
    document_id = document.document_id;
    version_id = document.version_id;
    filename = document.filename;
    block_order = block.order;
    text = evidence_excerpt 1600 block.text (find_matches re request block.text);
    occurrence_count = length (find_matches re request block.text);
    page = block.page;
    section_path = block.section_path;
  }

  -- The loop over the blocks, with the total and the evidence of those before.
  unfoldable pub count_blocks :
      CountableDocument V
      → ℕ
      → List ExactCountEvidence
      → List (Block V)
      → ℕ × List ExactCountEvidence
  count_blocks document total evidence [] = (total, evidence)
  count_blocks document total evidence (block ∷ blocks) =
      let matches = find_matches re request block.text in
      let skipped = count_blocks document total evidence blocks in
      let counted =
        count_blocks document (total + length matches) (evidence ++ evidence_of document block ∷ [])
          blocks in
      if is_empty matches then skipped else counted

  abbrev pub count_document : CountableDocument V → ExactDocumentCount
  count_document document =
      let counted =
        count_blocks document 0 [] (sort_by (λ a b. ltb a.order b.order) document.blocks) in
      record {
        document_id = document.document_id;
        version_id = document.version_id;
        filename = document.filename;
        count = counted.0;
        evidence = counted.1;
      }

  unfoldable pub count_exact_occurrences : List (CountableDocument V) → ExactCountResult
  count_exact_occurrences documents = record {
    request = request;
    documents = map count_document documents;
  }

-- One round over the groups, at an offset; the flag says that the limit of 20 is reached.
abbrev pub full : List ExactCountEvidence → Bool
full selected = leb 20 (length selected)

abbrev pub with_item : List ExactCountEvidence → Option ExactCountEvidence → List ExactCountEvidence
with_item selected none = selected
with_item selected (some item) = selected ++ item ∷ []

unfoldable pub select_round :
    ℕ → List (List ExactCountEvidence) → List ExactCountEvidence → List ExactCountEvidence × Bool
select_round offset [] selected = (selected, Bool.false)
select_round offset (group ∷ groups) selected =
    let next = with_item selected (get_elem? group offset) in
    let rest = select_round offset groups next in if full next then (next, Bool.true) else rest

-- The rounds that are left, from an offset on.
unfoldable pub select_rounds :
    ℕ → ℕ → List (List ExactCountEvidence) → List ExactCountEvidence → List ExactCountEvidence
select_rounds ℕ.zero offset groups selected = selected
select_rounds (ℕ.suc rounds) offset groups selected =
    let round = select_round offset groups selected in
    let rest = select_rounds rounds (offset + 1) groups round.0 in if round.1 then round.0 else rest

unfoldable pub evidence : ExactCountResult → List ExactCountEvidence
evidence result =
    let groups =
      map (λ d. take 8 d.evidence) (keep (λ d. not (is_empty d.evidence)) result.documents) in
    select_rounds 8 0 groups []
