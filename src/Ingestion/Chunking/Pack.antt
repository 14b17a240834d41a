-- ===== src/Ingestion/Chunking/Pack.antt =====
-- `_pack_group`, `_overlap_tail` and `_suffix` of chunking.py: pieces into drafts, with a marked
-- overlap carried from one draft to the next.
use project_rag.Prelude.{
  ℕ, zero, suc, ◌+◌, ◌-◌, ◌*◌, ◌/◌, Text, Option, none, some, List, [], ◌∷◌, ◌++◌, Bool, true, not,
  ◌&&◌, ◌||◌, strip, is_empty, leb, ltb, drop, length, nat_beq, if◌then◌else◌, concat,
}
use mathlib.Core.List.{reverse}
use project_rag.Ingestion.Chunking.Config.{Chunker, Piece, join_pieces}
use project_rag.Ingestion.Chunking.Split.{lexical_units}

module _ (c : Chunker) where
  -- The loop of `_suffix` over the reversed units; `selected` is what it has taken.
  unfoldable pub select_units : ℕ → List Text → List Text → List Text
  select_units limit selected [] = selected
  select_units limit selected (unit ∷ units) =
      let longer = select_units limit (unit ∷ selected) units in
      if ltb limit (c.count_tokens (strip (unit ++ concat selected))) then selected else longer

  -- The binary search of `_suffix` for the longest tail within the limit.
  unfoldable pub best_tail : ℕ → ℕ → Text → ℕ → ℕ → Text → Text
  best_tail limit zero text low high best = best
  best_tail limit (suc fuel) text low high best =
      let size = (low + high) / 2 in
      let candidate = drop (length text - size) text in
      let upper = best_tail limit fuel text (size + 1) high candidate in
      let lower = best_tail limit fuel text low (size - 1) best in
      if leb low high then (if leb (c.count_tokens candidate) limit then upper else lower) else best

  unfoldable pub suffix : Text → ℕ → Text
  unfolding select_units best_tail
  suffix text limit =
      let selected = select_units limit [] (reverse (lexical_units text)) in
      if nat_beq limit 0
      then []
      else if not (is_empty selected)
      then strip (concat selected)
      else strip (best_tail limit (length text) text 1 (length text) [])

  module _ {V : Type 0} where
    -- The loop of `_overlap_tail` over the reversed pieces.
    unfoldable pub tail_from : ℕ → List (Piece V) → List (Piece V) → List (Piece V)
    tail_from remaining tail [] = tail
    tail_from remaining tail (piece ∷ pieces) =
        let tokens = c.count_tokens piece.text in
        let whole = record piece { is_overlap = true } ∷ tail in
        let cut = suffix piece.text remaining in
        let rest = tail_from (remaining - tokens) whole pieces in
        if leb tokens remaining
        then (if nat_beq (remaining - tokens) 0 then whole else rest)
        else if is_empty cut
        then tail
        else record piece { text = cut; is_overlap = true } ∷ tail

    unfoldable pub overlap_tail : List (Piece V) → List (Piece V)
    unfolding tail_from
    overlap_tail pieces =
        if nat_beq c.overlap_tokens 0 then [] else tail_from c.overlap_tokens [] (reverse pieces)

    abbrev pub tokens_of : List (Piece V) → ℕ
    tokens_of pieces = c.count_tokens (join_pieces pieces)

    -- Whether the piece joins the draft under way.
    unfoldable pub joins : List (Piece V) → Piece V → Bool
    joins current piece =
        leb (tokens_of (current ++ piece ∷ [])) c.target_tokens
        || (ltb (tokens_of current) c.min_tokens
            && leb (tokens_of (current ++ piece ∷ [])) c.max_tokens)

    -- What the next draft begins with.
    unfoldable pub carried : List (Piece V) → Piece V → List (Piece V)
    carried current piece =
        if not (is_empty (overlap_tail current))
          && leb (tokens_of (overlap_tail current ++ piece ∷ [])) c.max_tokens
        then overlap_tail current
        else []

    -- The `while` loop; `none` means that it has not ended within the fuel. The drafts already
    -- closed stand in front of its result.
    unfoldable pub pack_from : ℕ → List (Piece V) → List (Piece V) → Option (List (List (Piece V)))
    pack_from zero current pieces = none
    pack_from (suc fuel) current [] = some (if is_empty current then [] else current ∷ [])
    pack_from (suc fuel) [] (piece ∷ pieces) = pack_from fuel (piece ∷ []) pieces
    pack_from (suc fuel) (p ∷ ps) (piece ∷ pieces) =
        let current = p ∷ ps in
        let longer = pack_from fuel (current ++ piece ∷ []) pieces in
        let closed = pack_from fuel (carried current piece) (piece ∷ pieces) in
        if joins current piece
        then longer
        else elim closed [ none ↦ none | some drafts ↦ some (current ∷ drafts) ]

    -- A piece takes at most two rounds where the loop ends at all.
    abbrev pub pack_fuel : List (Piece V) → ℕ
    pack_fuel pieces = suc (2 * length pieces)

    unfoldable pub pack_group : List (Piece V) → Option (List (List (Piece V)))
    unfolding pack_from
    pack_group pieces = pack_from (pack_fuel pieces) [] pieces
