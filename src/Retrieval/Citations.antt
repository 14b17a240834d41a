-- ===== src/Retrieval/Citations.antt =====
-- src/rag/retrieval/citations.py: which source labels an answer uses, and whether it may be shown.
pub mod Labels
pub mod Members
pub mod Grounding
pub mod TooLong
use project_rag.Prelude.{
  ℕ, zero, suc, ◌+◌, ◌≡◌, refl, ◌↔◌, ap, Text, codes, Option, none, some, List, [], ◌∷◌, ◌++◌, map,
  Bool, true, false, not, ◌&&◌, ◌||◌, any, is_empty, keep, member, every, length, ltb, decimal,
  strip, nat_beq, if◌then◌else◌, list_eq, nat_eq, ◌==◌, Result, ok, raise, raise_if, ◌>>=◌, ◌>>◌,
}
use project_rag.Retrieval.Digits.{is_decimal, decimal_value}
use project_rag.Retrieval.Models.{GenerationResult}

-- `re.findall(r"\[S(\d+)\]", answer)`: from an opening bracket read `S`, digits and the closing
-- bracket. `\d` is any decimal digit of Unicode.
unfoldable pub read_digits : Text → Text → Option Text
read_digits found [] = none
read_digits found (c ∷ s) =
    let more = read_digits (found ++ c ∷ []) s in
    if is_decimal c
    then more
    else if nat_beq c b']' && not (is_empty found)
    then some found
    else none

unfoldable pub label_at : Text → Option Text
label_at (c ∷ d ∷ s) = if nat_beq c b'[' && nat_beq d b'S' then read_digits [] s else none
label_at _ = none

abbrev pub with_label : Option Text → List Text → List Text
with_label none found = found
with_label (some digits) found = digits ∷ found

-- A match holds no second opening bracket, so a match at each bracket is a match of `findall`.
unfoldable pub inline_labels : Text → List Text
unfolding label_at read_digits
inline_labels [] = []
inline_labels (c ∷ s) = with_label (label_at (c ∷ s)) (inline_labels s)

-- `^\[?S(\d+)\]?$` without regard to case, in which the long s, U+017F, is an `S` too.
abbrev drop_open : Text → Text
drop_open [] = []
drop_open (c ∷ s) = if nat_beq c b'[' then s else c ∷ s

abbrev drop_close : Text → Text
drop_close [] = []
drop_close (c ∷ []) = if nat_beq c b']' then [] else c ∷ []
drop_close (c ∷ d ∷ s) = c ∷ drop_close (d ∷ s)

unfoldable pub source_number : Text → Option Text
source_number s = after_open (drop_open s)
  where
    after_open : Text → Option Text
    after_open [] = none
    after_open (c ∷ t) =
        if (nat_beq c b'S' || nat_beq c b's' || nat_beq c 383)
          && not (is_empty (drop_close t))
          && every is_decimal (drop_close t)
        then some (drop_close t)
        else none

-- What the validation raises: `int` refuses a text of more than 4300 digits.
pub data CitationError : Type 0 where
  label_too_long : CitationError

abbrev pub normal_label : Text → Option Text → Result CitationError Text
normal_label s none = ok s
normal_label s (some digits) = do
  raise_if (ltb 4300 (length digits)) label_too_long
  ok (b'S' ∷ decimal (decimal_value 0 digits))

unfoldable pub normalize_source_id : Text → Result CitationError Text
normalize_source_id value = normal_label (strip value) (source_number (strip value))

-- The labels of the declared list, the first that is too long raising.
unfoldable pub normalize_all : List Text → Result CitationError (List Text)
normalize_all [] = ok []
normalize_all (value ∷ values) = do
  label ← normalize_source_id value
  labels ← normalize_all values
  ok (label ∷ labels)

-- `tuple(dict.fromkeys(values))`
unfoldable pub unique_from : List Text → List Text → List Text
unique_from seen [] = []
unique_from seen (v ∷ vs) =
    let known = unique_from seen vs in
    let new = unique_from (v ∷ seen) vs in if member v seen then known else v ∷ new

unfoldable pub ordered_unique : List Text → List Text
unfolding unique_from
ordered_unique = unique_from []

pub record CitationValidation : Type 0 where
  pub cited_source_ids : List Text
  pub invalid_source_ids : List Text
  pub has_required_citation : Bool

abbrev pub valid : CitationValidation → Bool
valid v = is_empty v.invalid_source_ids && v.has_required_citation

abbrev pub inline_references : {F J : Type 0} → GenerationResult F J → List Text
inline_references result = map (λ digits. b'S' ∷ digits) (inline_labels result.answer)

-- The validation of a result whose declared labels have this normal form.
abbrev pub validation :
    {F J : Type 0} → GenerationResult F J → List Text → Bool → List Text → CitationValidation
validation result allowed require_citation declared =
    let inline = inline_references result in
    let valid_inline = keep (λ v. member v allowed) (ordered_unique inline) in
    record {
      cited_source_ids = valid_inline;
      invalid_source_ids = keep (λ v. not (member v allowed)) (ordered_unique (inline ++ declared));
      has_required_citation =
          not (is_empty valid_inline) || not (require_citation && not result.abstained);
    }

unfoldable pub validate_citations :
    {F J : Type 0}
    → GenerationResult F J
    → List Text
    → Bool
    → Result CitationError CitationValidation
validate_citations result allowed require_citation = do
  declared ← normalize_all result.cited_source_ids
  ok (validation result allowed require_citation declared)
