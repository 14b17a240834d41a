-- ===== src/Ingestion/Chunking/Split.antt =====
-- `_split_block`, `_pack_text_units`, `_hard_split` and `_split_long_span` of chunking.py. The
-- sentence boundaries that `re.split` finds are a parameter, `sentences`.
use project_rag.Prelude.{
  ℕ, zero, suc, ◌+◌, ◌-◌, ◌/◌, Text, codes, List, [], ◌∷◌, ◌++◌, Bool, true, false, not, ◌&&◌, ◌||◌,
  Result, ok, raise, ◌>>=◌, strip, strip_newlines, is_space, keep, is_empty, leb, ltb, take, drop,
  length, nat_beq, if◌then◌else◌, dict_set, list_eq, nat_eq,
}
use project_rag.Ingestion.Errors.{IngestionError, chunking_error}
use project_rag.Ingestion.Models.{BlockKind, list, table, code, Platform, Block}
use project_rag.Ingestion.Chunking.Config.{Chunker, Piece}

abbrev pub Raises : Type 0 → Type 0
Raises = Result IngestionError

-- `re.findall(r"\S+(?:\s+|$)", text)`: each run of visible characters with the white space behind
-- it. `current` is the unit under way, `in_space` says that its white space has begun.
unfoldable pub units_from : Text → Bool → Text → List Text
units_from current in_space [] = if is_empty current then [] else current ∷ []
units_from current in_space (c ∷ s) =
    let skip = units_from [] false s in
    let blank = units_from (current ++ c ∷ []) true s in
    let start = units_from (c ∷ []) false s in
    let visible = units_from (current ++ c ∷ []) false s in
    if is_space c
    then (if is_empty current then skip else blank)
    else if in_space
    then current ∷ start
    else visible

unfoldable pub lexical_units : Text → List Text
unfolding units_from is_space
lexical_units = units_from [] false

module _ (count : Text → ℕ) (limit : ℕ) where
  -- The binary search for the longest prefix within the limit. Each round at least halves the
  -- range, so its length is fuel enough.
  unfoldable pub best_prefix : ℕ → Text → ℕ → ℕ → ℕ → ℕ
  best_prefix zero remaining low high best = best
  best_prefix (suc fuel) remaining low high best =
      let middle = (low + high) / 2 in
      let upper = best_prefix fuel remaining (middle + 1) high middle in
      let lower = best_prefix fuel remaining low (middle - 1) best in
      if leb low high
      then (if leb (count (take middle remaining)) limit then upper else lower)
      else best

  -- Every round takes at least one character off `remaining`.
  unfoldable pub split_span_from : ℕ → Text → Raises (List Text)
  unfolding best_prefix
  split_span_from zero remaining = ok []
  split_span_from (suc fuel) remaining =
      let best = best_prefix (length remaining) remaining 1 (length remaining) 0 in
      let rest = split_span_from fuel (drop best remaining) in
      if is_empty remaining
      then ok []
      else if nat_beq best 0
      then raise chunking_error
      else (rest >>= λ parts. ok (take best remaining ∷ parts))

  unfoldable pub split_long_span : Text → Raises (List Text)
  unfolding split_span_from
  split_long_span text = split_span_from (length text) text

  abbrev pub flush : Text → List Text
  flush current = if is_empty (strip current) then [] else strip current ∷ []

  -- The loop of `_hard_split`; the parts already found stand in front of its result.
  unfoldable pub hard_split_from : Text → List Text → Raises (List Text)
  hard_split_from current [] = ok (flush current)
  hard_split_from current (unit ∷ units) =
      let proposed = current ++ unit in
      let after_flush = hard_split_from (if is_empty (strip current) then current else []) units in
      let restart = hard_split_from unit units in
      let extend = hard_split_from proposed units in
      if ltb limit (count unit)
      then (do
        spans ← split_long_span (strip unit)
        rest ← after_flush
        ok (flush current ++ (spans ++ rest)))
      else if not (is_empty current) && ltb limit (count proposed)
      then (restart >>= λ rest. ok (strip current ∷ rest))
      else extend

  unfoldable pub hard_split : Text → Raises (List Text)
  unfolding hard_split_from
  hard_split text = hard_split_from [] (lexical_units text)

  -- The first loop of `_pack_text_units`.
  unfoldable pub atoms : (Text → Text) → List Text → Raises (List Text)
  atoms clean [] = ok []
  atoms clean (unit ∷ units) =
      let cleaned = clean unit in
      let rest = atoms clean units in
      if is_empty cleaned
      then rest
      else if leb (count cleaned) limit
      then (rest >>= λ more. ok (cleaned ∷ more))
      else (do parts ← hard_split cleaned; more ← rest; ok (parts ++ more))

  -- Its second loop.
  unfoldable pub pack_atoms : Text → Text → List Text → List Text
  pack_atoms joiner current [] = if is_empty current then [] else current ∷ []
  pack_atoms joiner current (unit ∷ units) =
      let proposed = if is_empty current then unit else current ++ (joiner ++ unit) in
      let restart = pack_atoms joiner unit units in
      let extend = pack_atoms joiner proposed units in
      if not (is_empty current) && ltb limit (count proposed) then current ∷ restart else extend

  unfoldable pub pack_text_units : (Text → Text) → Text → List Text → Raises (List Text)
  unfolding atoms pack_atoms
  pack_text_units clean joiner units = do
    atomic ← atoms clean units
    ok (pack_atoms joiner [] atomic)

-- `text.splitlines()`: a carriage return and a line feed together are one line end, and the end of
-- the last line begins no new one.
abbrev is_line_end : ℕ → Bool
is_line_end c =
    (leb 10 c && leb c 13)
    || (leb 28 c && leb c 30)
    || nat_beq c 133
    || nat_beq c 8232
    || nat_beq c 8233

unfoldable pub join_crlf : Text → Text
join_crlf [] = []
join_crlf (c ∷ []) = c ∷ []
join_crlf (c ∷ d ∷ s) =
    let rest = join_crlf (d ∷ s) in if nat_beq c 13 && nat_beq d 10 then rest else c ∷ rest

unfoldable pub lines_from : Text → Text → List Text
lines_from current [] = if is_empty current then [] else current ∷ []
lines_from current (c ∷ s) =
    let ended = lines_from [] s in
    let longer = lines_from (current ++ c ∷ []) s in
    if is_line_end c then current ∷ ended else longer

unfoldable pub split_lines : Text → List Text
unfolding join_crlf lines_from
split_lines text = lines_from [] (join_crlf text)

abbrev pub keeps_lines : BlockKind → Bool
keeps_lines code = true
keeps_lines table = true
keeps_lines list = true
keeps_lines _ = false

module _ (p : Platform) (sentences : Text → List Text) (c : Chunker) where
  abbrev pub whole_piece : Block p.Value → Piece p.Value
  whole_piece block = record {
    text = strip block.text;
    kind = block.kind;
    page = block.page;
    section_path = block.section_path;
    block_order = block.order;
    locator = block.source_locator;
    is_overlap = false;
  }

  -- `enumerate(texts)`, each text with its `split_part`.
  unfoldable pub number_parts : Block p.Value → ℕ → List Text → List (Piece p.Value)
  number_parts block part [] = []
  number_parts block part (text ∷ texts) =
      record (whole_piece block) { text = text; locator = set_part block.source_locator }
      ∷ number_parts block (suc part) texts
    where
      -- `locator["split_part"] = split_part`
      set_part : List (Text × p.Value) → List (Text × p.Value)
      set_part = dict_set (codes "split_part") (p.number part)

  abbrev pub non_blank : List Text → List Text
  non_blank = keep (λ t. not (is_empty (strip t)))

  abbrev pub split_texts : Block p.Value → Raises (List Text)
  split_texts block =
      if keeps_lines block.kind
      then pack_text_units c.count_tokens c.target_tokens strip_newlines (10 ∷ [])
          (non_blank (split_lines block.text))
      else pack_text_units c.count_tokens c.target_tokens strip (32 ∷ [])
          (non_blank (sentences block.text))

  unfoldable pub split_block : Block p.Value → Raises (List (Piece p.Value))
  split_block block =
      if leb (c.count_tokens block.text) c.target_tokens
      then ok (whole_piece block ∷ [])
      else (split_texts block >>= λ texts. ok (number_parts block 0 texts))
