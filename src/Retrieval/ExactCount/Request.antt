-- ===== src/Retrieval/ExactCount/Request.antt =====
-- `ExactCountRequest`, `parse_exact_count_request` and `_literal_pattern` of exact_count.py. The
-- module `re` and the character classes of Unicode are a parameter.
use project_rag.Prelude.{
  ℕ, Text, codes, Option, none, some, List, [], ◌∷◌, ◌++◌, map, Bool, true, false, not, ◌||◌, any,
  is_empty, is_space, is_some, nat_beq, join, words, strip, if◌then◌else◌,
}

pub record ExactCountRequest : Type 0 where
  pub term : Text
  pub case_sensitive : Bool

-- `label`
abbrev pub label : ExactCountRequest → Text
label request = if any is_space request.term then codes "phrase" else codes "word"

-- What the code asks of `re` and of `str`. The patterns that read a question are constants of the
-- source: whether one is found, or its first group.
pub record Regex : Type 0 where
  pub has_count_intent : Text → Bool
  pub quoted_targets : List (Text → Option Text)
  pub unquoted_targets : List (Text → Option Text)
  pub asks_for_case : Text → Bool
  -- `re.escape` and `str.isalnum` of one character
  pub escape : Text → Text
  pub is_alnum : ℕ → Bool
  -- The spans of `finditer`, of a pattern that is compiled with or without `IGNORECASE`.
  pub finditer : Text → Bool → Text → List (ℕ × ℕ)

-- The first group of the first pattern that matches.
unfoldable pub first_match : List (Text → Option Text) → Text → Option Text
first_match [] question = none
first_match (search ∷ patterns) question =
    let rest = first_match patterns question in
    if is_some (search question) then search question else rest

abbrev pub or_else : {A : Type 0} → Option A → Option A → Option A
or_else none other = other
or_else (some a) other = some a

abbrev pub one_spaced : Text → Text
one_spaced s = join (codes " ") (words s)

abbrev pub request_for : Regex → Text → Option Text → Option ExactCountRequest
request_for re question none = none
request_for re question (some target) =
    let term = strip (one_spaced target) in
    if is_empty term
    then none
    else some (record { term = term; case_sensitive = re.asks_for_case question })

unfoldable pub parse_exact_count_request : Regex → Text → Option ExactCountRequest
parse_exact_count_request re question =
    let normalized = one_spaced question in
    if is_empty normalized || not (re.has_count_intent normalized)
    then none
    else request_for re normalized (
        or_else (first_match re.quoted_targets normalized)
          (first_match re.unquoted_targets normalized))

-- `re.split(r"\s+", s)`. The flag says whether the character before is a space.
unfoldable pub split_spaces : Bool → Text → List Text
split_spaces after [] = [] ∷ []
split_spaces after (c ∷ s) =
    let skip = split_spaces true s in
    let stay = split_spaces false s in
    if is_space c then (if after then skip else [] ∷ skip) else with_head c stay
  where
    with_head : ℕ → List Text → List Text
    with_head c [] = (c ∷ []) ∷ []
    with_head c (w ∷ ws) = (c ∷ w) ∷ ws

abbrev pub is_word_char : Regex → ℕ → Bool
is_word_char re c = re.is_alnum c || nat_beq c 95

abbrev pub starts_word : Regex → Text → Bool
starts_word re [] = false
starts_word re (c ∷ s) = is_word_char re c

unfoldable pub ends_word : Regex → Text → Bool
ends_word re [] = false
ends_word re (c ∷ []) = is_word_char re c
ends_word re (c ∷ d ∷ s) = ends_word re (d ∷ s)

-- The text of the pattern. `term[0]` and `term[-1]` are of a term that is not empty.
unfoldable pub literal_pattern : Regex → ExactCountRequest → Text
literal_pattern re request =
    let literal = join (codes "\\s+") (map re.escape (split_spaces false request.term)) in
    (if starts_word re request.term then codes "(?<!\\w)" else [])
    ++ literal
    ++ (if ends_word re request.term then codes "(?!\\w)" else [])
