-- ===== src/Tests/Retrieval.antt =====
-- The retrieval pipeline on small lists, with numbers in place of floats.
use project_rag.Prelude.{
  ℕ, ◌+◌, ◌-◌, ◌*◌, ◌/◌, Text, codes, none, List, [], ◌∷◌, true, false, ltb, nat_beq, arith,
  list_eq, nat_eq,
}
use project_rag.Prelude.Floats.{Floats, IsOrdered}
use project_rag.Retrieval.Models.{
  SearchCandidate, RankedCandidate, GenerationResult, ranked_eq, candidate_eq,
}

abbrev pub numbers : Floats
numbers = record {
  Float = ℕ;
  literal = λ n d. n / d;
  lt = ltb;
  eq = nat_beq;
  add = λ a b. a + b;
  sub = λ a b. a - b;
  mul = λ a b. a * b;
  div = λ a b. 1000 * a / b;
  sqrt = λ a. a;
  is_finite = λ a. true;
}

pub numbers-IsOrdered : IsOrdered numbers
numbers-IsOrdered = record {
  lt_irrefl = λ a. ground arith;
  lt_trans = λ a b c h k. ground (arith, h, k);
  lt_cotrans = λ a b c h k. ground (arith, h, k);
  eq_lt = λ a b. ground arith;
}

abbrev pub candidate : Text → Text → Text → SearchCandidate ℕ ℕ
candidate id document text = record {
  chunk_id = id;
  document_id = document;
  version_id = codes "v";
  filename = codes "f.txt";
  text = text;
  score = 1;
  page_start = none;
  page_end = none;
  section_path = [];
  content_hash = none;
  embedding = none;
  metadata = 0;
}

abbrev pub a : SearchCandidate ℕ ℕ
a = candidate (codes "a") (codes "d1") (codes "first text")

abbrev pub b : SearchCandidate ℕ ℕ
b = candidate (codes "b") (codes "d1") (codes "second text")

abbrev pub c : SearchCandidate ℕ ℕ
c = candidate (codes "c") (codes "d2") (codes "third text")

abbrev pub ranked : SearchCandidate ℕ ℕ → ℕ → RankedCandidate ℕ ℕ
ranked r score = record {
  candidate = r;
  fusion_score = score;
  final_score = score;
  dense_rank = none;
  lexical_rank = none;
  dense_score = none;
  lexical_score = none;
  rerank_score = none;
}

abbrev pub three_ranked : List (RankedCandidate ℕ ℕ)
three_ranked = ranked a 9 ∷ ranked b 5 ∷ ranked c 3 ∷ []

abbrev pub a_generated : GenerationResult ℕ ℕ
a_generated = record {
  answer = codes "It is so [S1].";
  cited_source_ids = codes "s01" ∷ [];
  confidence = none;
  missing_information = [];
  abstained = false;
  provider_metadata = 0;
}
