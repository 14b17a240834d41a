-- ===== src/Ingestion/Chunking/Parts.antt =====
-- What `_split_long_span`, `_hard_split` and `_pack_text_units` of chunking.py guarantee.
use project_rag.Prelude.{
  ℕ, zero, suc, ◌≤◌, ◌<◌, ◌≡◌, refl, ◌≢◌, Text, List, [], ◌∷◌, ◌++◌, true, false, not, ◌&&◌, ok,
  raise, ◌>>=◌, strip, is_empty, leb, ltb, take, drop, length, length-drop, take-append-drop,
  length-take, nat_beq, nat_beq_iff, if◌then◌else◌, All, All-append, concat, arith, Bool-cases, inl,
  inr, ap, ◌∙◌, leb→le, ◌⊎◌, All-map,
}
use native.Mathlib.Nat.{le_trans}
use project_rag.Ingestion.Errors.{chunking_error}
use project_rag.Ingestion.Chunking.Search.{best_prefix-fits, best_prefix-eq-zero}
use project_rag.Ingestion.Chunking.Split.{
  Raises, best_prefix, split_span_from, split_long_span, flush, hard_split_from, hard_split, atoms,
  pack_atoms, pack_text_units, lexical_units,
}

module _ (count : Text → ℕ) (limit : ℕ) where
  -- The result has the property, or `ChunkingError` was raised because there is a character that
  -- is over the limit by itself.
  abbrev pub Ensures : {A : Type 0} → (A → Type 0) → Raises A → Type 0
  Ensures P (ok a) = P a
  Ensures P (raise e) = (e ≡ chunking_error) × ((c : ℕ) × (limit < count (c ∷ [])))

  pub Ensures-bind :
      {A B : Type 0} (P : A → Type 0) (Q : B → Type 0) (m : Raises A) (f : A → Raises B)
      → Ensures P m
      → ((a : A) → P a → Ensures Q (f a))
      → Ensures Q (m >>= f)
  Ensures-bind P Q (ok a) f h k = k a h
  Ensures-bind P Q (raise e) f h k = h

  abbrev pub Spans : Text → List Text → Type 0
  Spans text parts = (concat parts ≡ text) × All (λ t. (0 < length t) × (count t ≤ limit)) parts

  split_span_from-Spans :
      (fuel : ℕ) (text : Text)
      → length text ≤ fuel
      → Ensures (Spans text) (split_span_from count limit fuel text)
  unfolding split_span_from
  split_span_from-Spans zero [] h = (refl, tt)
  split_span_from-Spans zero (c ∷ s) h = absurd (omega arith)
  split_span_from-Spans (suc fuel) [] h = (refl, tt)
  split_span_from-Spans (suc fuel) (c ∷ s) h = elim (Bool-cases (nat_beq best 0)) [
    | inl nothing ↦ rw nothing (
      refl,
      (
        c,
        best_prefix-eq-zero count limit (length text) (length text) text (omega arith) (omega arith)
            ((nat_beq_iff best 0).0 nothing),
      ),
    )
    | inr some_best ↦ rw some_best (
        Ensures-bind (Spans (drop best text)) (Spans text)
          (split_span_from count limit fuel (drop best text)) (λ parts. ok (take best text ∷ parts))
          (split_span_from-Spans fuel (drop best text)
            (ground (arith, length-drop best text, some_best)))
          (λ parts p. (
            ap (◌++◌ (take best text)) p.0 ∙ take-append-drop best text,
            (
              (
                ground (arith, length-take best text, some_best),
                found.1 (ground (arith, some_best)),
              ),
              p.1,
            ),
          )))
  ]
    where
      text : Text
      text = c ∷ s

      best : ℕ
      best = best_prefix count limit (length text) text 1 (length text) 0

      found : (best ≤ length text) × (best ≢ 0 → count (take best text) ≤ limit)
      found =
          best_prefix-fits count limit (length text) text 1 (length text) 0 (omega arith)
            (omega arith) (omega arith) (λ z. absurd (z refl))

  -- The spans of a long token, none of them empty and each within the limit, are together the token,
  -- or `ChunkingError` was raised and there is a character that is over the limit by itself.
  pub split_long_span-Spans :
      (text : Text) → Ensures (Spans text) (split_long_span count limit text)
  unfolding split_long_span
  split_long_span-Spans text = split_span_from-Spans (length text) text (omega arith)

  abbrev pub AllFit : List Text → Type 0
  AllFit = All (λ t. count t ≤ limit)

  -- The text under way is empty or within the limit.
  abbrev pub Pending : Text → Type 0
  Pending current = (current ≡ []) ⊎ (count current ≤ limit)

  module _ (strip-le : (t : Text) → count (strip t) ≤ count t) where
    flush-AllFit : (current : Text) → Pending current → AllFit (flush count limit current)
    flush-AllFit current (inl none_yet) = rw none_yet (unfold strip in tt)
    flush-AllFit current (inr fits) = elim (Bool-cases (is_empty (strip current))) [
      | inl blank ↦ rw blank tt
      | inr some_text ↦ rw some_text (le_trans (strip-le current) fits, tt)
    ]

    hard_split_from-AllFit :
        (current : Text) (units : List Text)
        → Pending current
        → Ensures AllFit (hard_split_from count limit current units)
    unfolding hard_split_from
    hard_split_from-AllFit current [] h = flush-AllFit current h
    hard_split_from-AllFit current (unit ∷ units) h = elim (Bool-cases (ltb limit (count unit))) [
      | inl long ↦ rw long (
          Ensures-bind (Spans (strip unit)) AllFit (split_long_span count limit (strip unit)) _
            (split_long_span-Spans (strip unit))
            (λ spans fit.
              Ensures-bind AllFit AllFit
                (hard_split_from count limit (if is_empty (strip current) then current else [])
                  units)
                _
                (hard_split_from-AllFit (if is_empty (strip current) then current else []) units
                  (ground arith))
                (λ rest rest_fit.
                  All-append _ (flush count limit current) (spans ++ rest) (flush-AllFit current h)
                    (All-append _ spans rest (All-map _ _ (λ t p. p.1) spans fit.1) rest_fit))))
      | inr short ↦
          elim (Bool-cases (not (is_empty current) && ltb limit (count (current ++ unit)))) [
            | inl full ↦
                rw (short, full)
                  (Ensures-bind AllFit AllFit (hard_split_from count limit unit units) _
                    (hard_split_from-AllFit unit units (inr (ground arith)))
                    (λ rest rest_fit. (stripped current h full, rest_fit)))
            | inr room ↦
                rw (short, room)
                  (hard_split_from-AllFit (current ++ unit) units
                    (inr (joined current unit short room)))
          ]
    ]
      where
        stripped :
            (current : Text)
            → Pending current
            → (not (is_empty current) && ltb limit (count (current ++ unit))) ≡ true
            → count (strip current) ≤ limit
        stripped [] h e = cc
        stripped (c ∷ s) (inl z) e = absurd (ground arith)
        stripped (c ∷ s) (inr fits) e = le_trans (strip-le (c ∷ s)) fits

        joined :
            (current unit : Text)
            → ltb limit (count unit) ≡ false
            → (not (is_empty current) && ltb limit (count (current ++ unit))) ≡ false
            → count (current ++ unit) ≤ limit
        joined [] unit short room = ground arith
        joined (c ∷ s) unit short room = ground arith

    hard_split-AllFit : (text : Text) → Ensures AllFit (hard_split count limit text)
    unfolding hard_split
    hard_split-AllFit text = hard_split_from-AllFit [] (lexical_units text) (inl refl)

    atoms-AllFit :
        (clean : Text → Text) (units : List Text) → Ensures AllFit (atoms count limit clean units)
    unfolding atoms
    atoms-AllFit clean [] = tt
    atoms-AllFit clean (unit ∷ units) = elim (Bool-cases (is_empty (clean unit))) [
      | inl blank ↦ rw blank (atoms-AllFit clean units)
      | inr some_text ↦ elim (Bool-cases (leb (count (clean unit)) limit)) [
        | inl fits ↦
            rw (some_text, fits)
              (Ensures-bind AllFit AllFit (atoms count limit clean units) _
                (atoms-AllFit clean units) (λ more more_fit. (leb→le _ _ fits, more_fit)))
        | inr long ↦
            rw (some_text, long)
              (Ensures-bind AllFit AllFit (hard_split count limit (clean unit)) _
                (hard_split-AllFit (clean unit))
                (λ parts parts_fit.
                  Ensures-bind AllFit AllFit (atoms count limit clean units) _
                    (atoms-AllFit clean units)
                    (λ more more_fit. All-append _ parts more parts_fit more_fit)))
      ]
    ]

    pack_atoms-AllFit :
        (joiner current : Text) (units : List Text)
        → Pending current
        → AllFit units
        → AllFit (pack_atoms count limit joiner current units)
    unfolding pack_atoms
    pack_atoms-AllFit joiner [] [] h fit = tt
    pack_atoms-AllFit joiner (c ∷ s) [] (inl z) fit = absurd (ground arith)
    pack_atoms-AllFit joiner (c ∷ s) [] (inr fits) fit = (fits, tt)
    pack_atoms-AllFit joiner [] (unit ∷ units) h fit =
        pack_atoms-AllFit joiner unit units (inr fit.0) fit.1
    pack_atoms-AllFit joiner (c ∷ s) (unit ∷ units) (inl z) fit = absurd (ground arith)
    pack_atoms-AllFit joiner (c ∷ s) (unit ∷ units) (inr fits) fit =
        elim (Bool-cases (ltb limit (count ((c ∷ s) ++ (joiner ++ unit))))) [
          | inl full ↦ rw full (fits, pack_atoms-AllFit joiner unit units (inr fit.0) fit.1)
          | inr room ↦ rw room (
              pack_atoms-AllFit joiner ((c ∷ s) ++ (joiner ++ unit)) units (inr (ground arith))
                fit.1)
        ]

    -- For a tokenizer that never counts more after stripping: every packed text is within the limit,
    -- or `ChunkingError` was raised and there is a character that is over the limit by itself.
    pub pack_text_units-AllFit :
        (clean : Text → Text) (joiner : Text) (units : List Text)
        → Ensures AllFit (pack_text_units count limit clean joiner units)
    unfolding pack_text_units
    pack_text_units-AllFit clean joiner units =
        Ensures-bind AllFit AllFit (atoms count limit clean units) _ (atoms-AllFit clean units)
          (λ atomic fit. pack_atoms-AllFit joiner [] atomic (inl refl) fit)
