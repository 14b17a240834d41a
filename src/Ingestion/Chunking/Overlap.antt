-- ===== src/Ingestion/Chunking/Overlap.antt =====
-- `_suffix` and `_overlap_tail` of chunking.py: what is carried over stays within the budget and is
-- marked as overlap.
use native.Mathlib.Nat.{le_trans}
use mathlib.Core.List.{reverse}
use project_rag.Prelude.{
  ℕ, zero, suc, ◌+◌, ◌-◌, ◌/◌, ◌≤◌, ◌≡◌, refl, ◌⊎◌, inl, inr, Text, List, [], ◌∷◌, ◌++◌, true, not,
  strip, is_empty, leb, ltb, drop, length, nat_beq, concat, All, map, arith, Bool-cases, leb→le,
}
use project_rag.Ingestion.Chunking.Config.{Chunker, Piece, join_pieces, text_total, IsCounter}
use project_rag.Ingestion.Chunking.Split.{lexical_units}
use project_rag.Ingestion.Chunking.Pack.{
  select_units, best_tail, suffix, tail_from, overlap_tail, tokens_of,
}

module _ (c : Chunker) where
  abbrev count : Text → ℕ
  count = c.count_tokens

  select_units-fits :
      (limit : ℕ) (selected units : List Text)
      → (selected ≡ []) ⊎ (count (strip (concat selected)) ≤ limit)
      → (select_units c limit selected units ≡ [])
        ⊎ (count (strip (concat (select_units c limit selected units))) ≤ limit)
  unfolding select_units
  select_units-fits limit selected [] h = h
  select_units-fits limit selected (unit ∷ units) h =
      elim (Bool-cases (ltb limit (count (strip (unit ++ concat selected))))) [
        | inl full ↦ rw full h
        | inr room ↦ rw room (select_units-fits limit (unit ∷ selected) units (inr (ground arith)))
      ]

  best_tail-fits :
      (limit fuel : ℕ) (text : Text) (low high : ℕ) (best : Text)
      → (best ≡ []) ⊎ (count best ≤ limit)
      → (best_tail c limit fuel text low high best ≡ [])
        ⊎ (count (best_tail c limit fuel text low high best) ≤ limit)
  unfolding best_tail
  best_tail-fits limit zero text low high best h = h
  best_tail-fits limit (suc fuel) text low high best h =
      let size = (low + high) / 2 in
      let candidate = drop (length text - size) text in
      elim (Bool-cases (leb low high)) [
        | inr done ↦ rw done h
        | inl more ↦ elim (Bool-cases (leb (count candidate) limit)) [
          | inl fits ↦
              rw (more, fits)
                (best_tail-fits limit fuel text (size + 1) high candidate (inr (leb→le _ _ fits)))
          | inr over ↦ rw (more, over) (best_tail-fits limit fuel text low (size - 1) best h)
        ]
      ]

module _ (c : Chunker) (counter : IsCounter c.count_tokens) where
  stripped_fits :
      (limit : ℕ) (t : Text)
      → (t ≡ []) ⊎ (c.count_tokens t ≤ limit)
      → (is_empty (strip t) ≡ true) ⊎ (c.count_tokens (strip t) ≤ limit)
  stripped_fits limit t (inl e) = inl (rw e (unfold strip in refl))
  stripped_fits limit t (inr h) = inr (le_trans (counter.strip-le t) h)

  -- A suffix that is not empty is within the limit.
  suffix-fits :
      (text : Text) (limit : ℕ)
      → (is_empty (suffix c text limit) ≡ true) ⊎ (c.count_tokens (suffix c text limit) ≤ limit)
  unfolding suffix
  suffix-fits text limit = elim (Bool-cases (nat_beq limit 0)) [
    | inl none_left ↦ rw none_left (inl refl)
    | inr some_left ↦
        let selected = select_units c limit [] (reverse (lexical_units text)) in
        elim (Bool-cases (not (is_empty selected))) [
          | inl found ↦
              rw (some_left, found)
                (elim (select_units-fits c limit [] (reverse (lexical_units text)) (inl refl)) [
                  | inl e ↦ inl (ground (arith, e, found))
                  | inr fits ↦ inr fits
                ])
          | inr nothing ↦
              rw (some_left, nothing)
                (stripped_fits limit (best_tail c limit (length text) text 1 (length text) [])
                  (best_tail-fits c limit (length text) text 1 (length text) [] (inl refl)))
        ]
  ]

  module _ {V : Type 0} where
    abbrev pub texts : List (Piece V) → List Text
    texts = map (λ p. p.text)

    tail_from-budget :
        (budget remaining : ℕ) (tail pieces : List (Piece V))
        → text_total c.count_tokens (texts tail) + remaining ≤ budget
        → text_total c.count_tokens (texts (tail_from c remaining tail pieces)) ≤ budget
    unfolding tail_from
    tail_from-budget budget remaining tail [] h = omega arith
    tail_from-budget budget remaining tail (piece ∷ pieces) h =
        let tokens = c.count_tokens piece.text in
        elim (Bool-cases (leb tokens remaining)) [
          | inl fits ↦ elim (Bool-cases (nat_beq (remaining - tokens) 0)) [
            | inl spent ↦ rw (fits, spent) (omega (arith, leb→le tokens remaining fits))
            | inr left ↦
                rw (fits, left)
                  (tail_from-budget budget (remaining - tokens)
                    (record piece { is_overlap = true } ∷ tail) pieces
                    (omega (arith, leb→le tokens remaining fits)))
          ]
          | inr long ↦ elim (Bool-cases (is_empty (suffix c piece.text remaining))) [
            | inl nothing ↦ rw (long, nothing) (omega arith)
            | inr some_text ↦
                rw (long, some_text)
                  (elim (suffix-fits piece.text remaining) [
                    | inl nothing ↦ absurd (ground (arith, nothing, some_text))
                    | inr fits ↦ omega arith
                  ])
          ]
        ]

    -- The texts carried over count at most the configured overlap.
    pub overlap_tail-budget :
        (pieces : List (Piece V))
        → text_total c.count_tokens (texts (overlap_tail c pieces)) ≤ c.overlap_tokens
    unfolding overlap_tail
    overlap_tail-budget pieces = elim (Bool-cases (nat_beq c.overlap_tokens 0)) [
      | inl off ↦ rw off (omega arith)
      | inr on ↦
          rw on
            (tail_from-budget c.overlap_tokens c.overlap_tokens [] (reverse pieces) (omega arith))
    ]

    tail_from-marked :
        (remaining : ℕ) (tail pieces : List (Piece V))
        → All (λ p. p.is_overlap ≡ true) tail
        → All (λ p. p.is_overlap ≡ true) (tail_from c remaining tail pieces)
    unfolding tail_from
    tail_from-marked remaining tail [] h = h
    tail_from-marked remaining tail (piece ∷ pieces) h =
        let tokens = c.count_tokens piece.text in
        elim (Bool-cases (leb tokens remaining)) [
          | inl fits ↦ elim (Bool-cases (nat_beq (remaining - tokens) 0)) [
            | inl spent ↦ rw (fits, spent) (refl, h)
            | inr left ↦
                rw (fits, left)
                  (tail_from-marked (remaining - tokens) (record piece { is_overlap = true } ∷ tail)
                    pieces (refl, h))
          ]
          | inr long ↦ elim (Bool-cases (is_empty (suffix c piece.text remaining))) [
            | inl nothing ↦ rw (long, nothing) h
            | inr some_text ↦ rw (long, some_text) (refl, h)
          ]
        ]

    pub overlap_tail-marked :
        (pieces : List (Piece V)) → All (λ p. p.is_overlap ≡ true) (overlap_tail c pieces)
    unfolding overlap_tail
    overlap_tail-marked pieces = elim (Bool-cases (nat_beq c.overlap_tokens 0)) [
      | inl off ↦ rw off tt
      | inr on ↦ rw on (tail_from-marked c.overlap_tokens [] (reverse pieces) tt)
    ]

    -- The joined overlap counts at most the configured overlap.
    pub overlap_tail-le :
        (pieces : List (Piece V)) → tokens_of c (overlap_tail c pieces) ≤ c.overlap_tokens
    unfolding join_pieces
    overlap_tail-le pieces =
        le_trans (counter.join-le (texts (overlap_tail c pieces))) (overlap_tail-budget pieces)
