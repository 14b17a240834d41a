-- ===== src/Retrieval/ExactCount/Answer.antt =====
-- `format_exact_count_answer` and `_citation_text` of exact_count.py.
use project_rag.Prelude.{
  ℕ, ◌+◌, Text, codes, Option, none, some, List, [], ◌∷◌, ◌++◌, map, length, is_empty, nat_beq,
  join, strip, decimal, dict_get, dict_set, list_eq, nat_eq, ◌==◌, if◌then◌else◌,
}
use project_rag.Retrieval.ExactCount.Request.{ExactCountRequest, label}
use project_rag.Retrieval.ExactCount.Count.{
  ExactCountEvidence, ExactDocumentCount, ExactCountResult, total, evidence,
}

abbrev pub citation : ℕ → Text
citation number = codes "[S" ++ decimal number ++ codes "]"

unfoldable pub citation_text : List ℕ → Text
citation_text numbers =
    if is_empty numbers then [] else codes " " ++ join (codes " ") (map citation numbers)

abbrev pub numbers_of : Option (List ℕ) → List ℕ
numbers_of none = []
numbers_of (some numbers) = numbers

-- `enumerate(result.evidence, start=1)`, by the document.
unfoldable pub source_numbers :
    ℕ → List ExactCountEvidence → List (Text × List ℕ) → List (Text × List ℕ)
source_numbers number [] d = d
source_numbers number (e ∷ es) d =
    let numbers = numbers_of (dict_get e.document_id d) in
    source_numbers (number + 1) es (dict_set e.document_id (numbers ++ number ∷ []) d)

abbrev pub sources_of : ExactCountResult → Text → List ℕ
sources_of result id = numbers_of (dict_get id (source_numbers 1 (evidence result) []))

abbrev pub times : ℕ → Text
times count = if nat_beq count 1 then codes "time" else codes "times"

abbrev pub match_mode : ExactCountRequest → Text
match_mode request =
    (if request.case_sensitive then codes "case-sensitive" else codes "case-insensitive")
    ++ codes " exact "
    ++ (if label request == codes "word" then codes "whole-word" else codes "literal-phrase")
    ++ codes " match"

abbrev pub quoted_term : ExactCountRequest → Text
quoted_term request =
    codes "The " ++ label request ++ codes " “" ++ request.term ++ codes "” appears "

abbrev pub detail : ExactCountResult → ExactDocumentCount → Text
detail result d =
    let citations = strip (citation_text (sources_of result d.document_id)) in
    d.filename
    ++ codes ": "
    ++ decimal d.count
    ++ (if is_empty citations then [] else codes " " ++ citations)

abbrev pub single_answer : ExactCountResult → ExactDocumentCount → Text
single_answer result d =
    quoted_term result.request
    ++ decimal d.count
    ++ codes " "
    ++ times d.count
    ++ codes " in "
    ++ d.filename
    ++ codes " ("
    ++ match_mode result.request
    ++ codes ")."
    ++ citation_text (sources_of result d.document_id)

abbrev pub several_answer : ExactCountResult → Text
several_answer result =
    quoted_term result.request
    ++ decimal (total result)
    ++ codes " "
    ++ times (total result)
    ++ codes " across "
    ++ decimal (length result.documents)
    ++ codes " selected documents ("
    ++ match_mode result.request
    ++ codes "). Breakdown: "
    ++ join (codes "; ") (map (detail result) result.documents)
    ++ codes "."

unfoldable pub format_exact_count_answer : ExactCountResult → Text
format_exact_count_answer result = answer result.documents
  where
    answer : List ExactDocumentCount → Text
    answer (d ∷ []) = single_answer result d
    answer [] = several_answer result
    answer (d ∷ e ∷ ds) = several_answer result
