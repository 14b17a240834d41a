-- ===== src/Retrieval/Context.antt =====
-- src/rag/retrieval/context.py: labelled evidence blocks within a token budget.
pub mod Cutting
pub mod Budget
use project_rag.Prelude.{
  ℕ, zero, suc, ◌+◌, ◌-◌, ◌*◌, ◌/◌, Text, codes, Option, none, some, List, [], ◌∷◌, ◌++◌, map, Bool,
  true, false, not, ◌&&◌, ◌||◌, is_empty, length, take, join, words, strip, rstrip, starts_with,
  decimal, leb, ltb, nat_beq, if◌then◌else◌, max, Result, ok, raise, raise_if, ◌>>=◌, ◌>>◌,
}
use project_rag.Retrieval.Models.{SearchCandidate, RankedCandidate, SourceExcerpt}

-- ceil(len / 4) and ceil(words * 1.25); the empty text has none.
unfoldable pub estimate_tokens : Text → ℕ
estimate_tokens text =
    if is_empty text then 0 else max ((length text + 3) / 4) ((5 * length (words text) + 3) / 4)

pub record ContextBundle (F J : Type 0) : Type 0 where
  pub text : Text
  pub sources : List (SourceExcerpt F J)
  pub estimated_tokens : ℕ
  pub truncated : Bool

pub record ContextBuilder : Type 0 where
  pub max_tokens : ℕ
  pub min_passage_tokens : ℕ

pub data ContextError : Type 0 where
  bad_max_tokens bad_min_passage_tokens : ContextError

unfoldable pub new_context_builder : ℕ → ℕ → Result ContextError ContextBuilder
new_context_builder max_tokens min_passage_tokens = do
  raise_if (ltb max_tokens 1) bad_max_tokens
  raise_if (ltb min_passage_tokens 1) bad_min_passage_tokens
  ok (record { max_tokens = max_tokens; min_passage_tokens = min_passage_tokens })

-- `text[:-16].rstrip()`
unfoldable pub shorten : Text → Text
shorten text = rstrip (take (length text - 16) text)

-- `while text and too_long(text): text = text[:-16].rstrip()`. A round takes characters off, so the
-- length of the text is fuel enough.
unfoldable pub shrink : (Text → Bool) → ℕ → Text → Text
shrink too_long zero text = text
shrink too_long (suc fuel) text =
    let shorter = shrink too_long fuel (shorten text) in
    if not (is_empty text) && too_long text then shorter else text

-- `s.rfind(part)`: the last position at which the part begins.
rfind_from : Text → ℕ → Text → Option ℕ
rfind_from part i [] = none
rfind_from part i (c ∷ s) = elim (rfind_from part (suc i) s) [
  | some j ↦ some j
  | none ↦ if starts_with (c ∷ s) part then some i else none
]

unfoldable pub rfind : Text → Text → Option ℕ
unfolding rfind_from
rfind s part = rfind_from part 0 s

abbrev later : Option ℕ → Option ℕ → Option ℕ
later none o = o
later (some i) none = some i
later (some i) (some j) = some (max i j)

-- The cut behind the last boundary, if that leaves at least twenty characters and half the text.
abbrev cut_at : Text → Option ℕ → Text
cut_at candidate none = candidate
cut_at candidate (some i) =
    if leb (max 20 (length candidate / 2)) i then rstrip (take (i + 1) candidate) else candidate

unfoldable pub at_boundary : Text → Text
at_boundary candidate = cut_at candidate (
    later (rfind candidate (codes ". "))
      (later (rfind candidate (10 ∷ [])) (rfind candidate (codes " "))))

unfoldable pub truncate_to_budget : Text → ℕ → Text
truncate_to_budget text budget =
    let first = rstrip (take (budget * 4) text) in
    let candidate = if ltb (length first) (length text) then at_boundary first else first in
    if nat_beq budget 0
    then []
    else shrink (λ t. ltb budget (estimate_tokens t)) (length candidate) candidate

abbrev page_text : Option ℕ → Option ℕ → List Text
page_text none page_end = []
page_text (some start) none = (codes "page " ++ decimal start) ∷ []
page_text (some start) (some end) =
    if nat_beq end start
    then (codes "page " ++ decimal start) ∷ []
    else (codes "pages " ++ (decimal start ++ (codes "-" ++ decimal end))) ∷ []

unfoldable pub location : Option ℕ → Option ℕ → List Text → Text
location page_start page_end section_path = join (codes "; ") (
    page_text page_start page_end
    ++ (if is_empty section_path then [] else join (codes " > ") section_path ∷ []))

-- `f"S{number}"`
abbrev pub label : ℕ → Text
label number = b'S' ∷ decimal number

unfoldable pub footer : Text → Text
footer source_id = 10 ∷ codes "[/" ++ (source_id ++ codes "]")

abbrev pub joined : List Text → Text
joined = join (10 ∷ 10 ∷ [])

module _ {F J : Type 0} where
  unfoldable pub header : Text → SearchCandidate F J → Text
  header source_id c =
      let place = location c.page_start c.page_end c.section_path in
      join (10 ∷ []) (
        (b'[' ∷ source_id ++ codes "]")
        ∷ (codes "File: " ++ c.filename)
        ∷ (codes "Document ID: " ++ c.document_id)
        ∷ (codes "Version ID: " ++ c.version_id)
        ∷ (codes "Chunk ID: " ++ c.chunk_id)
        ∷ ((if is_empty place then [] else (codes "Location: " ++ place) ∷ [])
            ++ codes "Content (untrusted reference text):" ∷ []))
      ++ 10 ∷ []

  abbrev pub framed : Text → SearchCandidate F J → Text → Text
  framed source_id c text = header source_id c ++ (text ++ footer source_id)

  abbrev pub overhead : Text → SearchCandidate F J → ℕ
  overhead source_id c = estimate_tokens (header source_id c ++ footer source_id)

  abbrev pub excerpt : Text → RankedCandidate F J → Text → Bool → SourceExcerpt F J
  excerpt source_id ranked text cut = record {
    source_id = source_id;
    chunk_id = ranked.candidate.chunk_id;
    document_id = ranked.candidate.document_id;
    version_id = ranked.candidate.version_id;
    filename = ranked.candidate.filename;
    text = text;
    score = ranked.final_score;
    page_start = ranked.candidate.page_start;
    page_end = ranked.candidate.page_end;
    section_path = ranked.candidate.section_path;
    truncated = cut;
    metadata = ranked.candidate.metadata;
  }

  abbrev pub bundle : List Text → List (SourceExcerpt F J) → Bool → ContextBundle F J
  bundle blocks sources truncated = record {
    text = joined blocks;
    sources = sources;
    estimated_tokens = estimate_tokens (joined blocks);
    truncated = truncated;
  }

module _ {F J : Type 0} (builder : ContextBuilder) where
  open builder use {max_tokens, min_passage_tokens}

  -- The passage that may be used, before the check of the whole context.
  abbrev pub passage : Text → SearchCandidate F J → ℕ → Text
  passage source_id c used =
      let available = max_tokens - used - overhead source_id c in
      let text = strip c.text in
      if ltb available (estimate_tokens text) then truncate_to_budget text available else text

  abbrev pub too_large : List Text → Text → SearchCandidate F J → Text → Bool
  too_large blocks source_id c text =
      ltb max_tokens (estimate_tokens (joined (blocks ++ framed source_id c text ∷ [])))

  -- The passage as it goes into the context.
  unfoldable pub final_text : List Text → Text → SearchCandidate F J → ℕ → Text
  final_text blocks source_id c used =
      shrink (too_large blocks source_id c) (length (passage source_id c used))
        (passage source_id c used)

  -- `was_truncated`: cut to the budget, or by the check of the whole.
  unfoldable pub was_truncated : List Text → Text → SearchCandidate F J → ℕ → Bool
  was_truncated blocks source_id c used =
      ltb (max_tokens - used - overhead source_id c) (estimate_tokens (strip c.text))
      || (not (is_empty (passage source_id c used))
          && too_large blocks source_id c (passage source_id c used))

  -- The loop of `build`; a `break` returns what there is.
  unfoldable pub build_from :
      List Text
      → List (SourceExcerpt F J)
      → ℕ
      → Bool
      → List (RankedCandidate F J)
      → ContextBundle F J
  build_from blocks sources used truncated [] = bundle blocks sources truncated
  build_from blocks sources used truncated (ranked ∷ rest) =
      let c = ranked.candidate in
      let source_id = label (length sources + 1) in
      let text = final_text blocks source_id c used in
      let cut = was_truncated blocks source_id c used in
      let more =
        build_from (blocks ++ framed source_id c text ∷ [])
          (sources ++ excerpt source_id ranked text cut ∷ [])
          (estimate_tokens (joined (blocks ++ framed source_id c text ∷ []))) (truncated || cut)
          rest in
      if ltb max_tokens (used + overhead source_id c + min_passage_tokens)
      then bundle blocks sources (truncated || not (is_empty (strip c.text)))
      else if is_empty text || (cut && ltb (estimate_tokens text) min_passage_tokens)
      then bundle blocks sources (truncated || cut)
      else more

  unfoldable pub build : List (RankedCandidate F J) → ContextBundle F J
  unfolding build_from
  build = build_from [] [] 0 false
