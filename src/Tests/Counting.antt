-- ===== src/Tests/Counting.antt =====
-- Words counted in two small documents.
use project_rag.Prelude.{
  ℕ, ◌≡◌, ◌≤◌, ◌+◌, codes, some, Text, List, [], ◌∷◌, All, length, list_eq, nat_eq, true, false,
}
use project_rag.Retrieval.ExactCount.Request.{ExactCountRequest, Regex}
use project_rag.Retrieval.ExactCount.Count.{
  CountableDocument, ExactCountResult, total, find_matches, evidence_excerpt,
  count_exact_occurrences, evidence,
}
use project_rag.Retrieval.ExactCount.Answer.{sources_of}
use project_rag.Retrieval.ExactCount.Totals.{
  sum_of, total-lem, length-evidence-le, length-evidence_excerpt-le,
}
use project_rag.Retrieval.ExactCount.Sources.{places, sources_of-lem}
use project_rag.Tests.Chunking.{two_blocks}

-- One match at the start of each text that is not empty.
abbrev spans : Text → List (ℕ × ℕ)
spans [] = []
spans (c ∷ text) = (0, 1) ∷ []

abbrev regex : Regex
regex = record {
  has_count_intent = λ question. true;
  quoted_targets = [];
  unquoted_targets = (λ question. some question) ∷ [];
  asks_for_case = λ question. false;
  escape = λ text. text;
  is_alnum = λ c. true;
  finditer = λ pattern ignore_case text. spans text;
}

abbrev request : ExactCountRequest
request = record { term = codes "a"; case_sensitive = false }

abbrev documents : List (CountableDocument ℕ)
documents =
    record {
      document_id = codes "d";
      version_id = codes "v";
      filename = codes "f.txt";
      blocks = two_blocks;
    }
    ∷ record {
      document_id = codes "e";
      version_id = codes "w";
      filename = codes "g.txt";
      blocks = two_blocks;
    }
    ∷ []

abbrev result : ExactCountResult
result = count_exact_occurrences regex request documents

total-lem_example :
    (total result
      ≡ sum_of (λ d. sum_of (λ b. length (find_matches regex request b.text)) d.blocks) documents)
    × All (λ d. sum_of (λ e. e.occurrence_count) d.evidence ≡ d.count) result.documents
total-lem_example = total-lem regex request documents

length-evidence-le_example : length (evidence result) ≤ 20
length-evidence-le_example = length-evidence-le result

length-evidence_excerpt-le_example :
    length (evidence_excerpt 4 (codes "a long text") ((2, 4) ∷ [])) ≤ 4 + 2
length-evidence_excerpt-le_example =
    length-evidence_excerpt-le 4 (codes "a long text") ((2, 4) ∷ [])

sources_of-lem_example : sources_of result (codes "e") ≡ places (codes "e") 1 (evidence result)
sources_of-lem_example = sources_of-lem result (codes "e")
