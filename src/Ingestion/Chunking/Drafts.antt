-- ===== src/Ingestion/Chunking/Drafts.antt =====
-- `_pack_group` of chunking.py: when it ends, what the drafts hold, and when it never ends.
use project_rag.Prelude.{
  ℕ, zero, suc, ◌*◌, ◌≤◌, ◌<◌, ◌≡◌, refl, ◌≢◌, ◌⊎◌, inl, inr, ap, ◌∙◌, sym, Option, none, some,
  List, [], ◌∷◌, ◌++◌, append_assoc, true, false, not, length, concat, All, keep, keep-append,
  keep-nil, All-map, arith, Bool-cases,
}
use project_rag.Ingestion.Chunking.Config.{Chunker, Piece, IsCounter, IsConfigured}
use project_rag.Ingestion.Chunking.Pack.{
  overlap_tail, tokens_of, joins, carried, pack_from, pack_fuel, pack_group,
}
use project_rag.Ingestion.Chunking.Overlap.{overlap_tail-le, overlap_tail-marked}

-- The pieces that are no overlap.
abbrev pub fresh : {V : Type 0} → List (Piece V) → List (Piece V)
fresh = keep (λ p. not p.is_overlap)

abbrev pub IsDraft : {V : Type 0} → Chunker → List (Piece V) → Type 0
IsDraft c d = (0 < length d) × (tokens_of c d ≤ c.max_tokens)

-- The drafts hold the given pieces in order, beside overlap only, and each fits.
abbrev pub Packed :
    {V : Type 0} → Chunker → List (Piece V) → Option (List (List (Piece V))) → Type 0
Packed c pieces none = ⊥
Packed c pieces (some drafts) = All (IsDraft c) drafts × (fresh (concat drafts) ≡ fresh pieces)

fresh-append : {V : Type 0} (xs ys : List (Piece V)) → fresh (xs ++ ys) ≡ fresh xs ++ fresh ys
fresh-append = keep-append (λ p. not p.is_overlap)

fresh_of_marked :
    {V : Type 0} (ps : List (Piece V)) → All (λ p. p.is_overlap ≡ true) ps → fresh ps ≡ []
fresh_of_marked ps h = keep-nil (λ p. not p.is_overlap) ps (All-map _ _ (λ p e. rw e) ps h)

module _ {V : Type 0} (c : Chunker) (counter : IsCounter c.count_tokens) (config : IsConfigured c)
    (small : c.overlap_tokens < c.min_tokens) where
  joined-fits :
      (current : List (Piece V)) (piece : Piece V)
      → joins c current piece ≡ true
      → tokens_of c (current ++ piece ∷ []) ≤ c.max_tokens
  unfolding joins
  joined-fits current piece h = ground (arith, config.target-le-max)

  -- A carried overlap takes the piece that it was carried for.
  carried-joins :
      (current : List (Piece V)) (piece : Piece V)
      → (carried c current piece ≡ []) ⊎ (joins c (carried c current piece) piece ≡ true)
  unfolding carried joins
  carried-joins current piece = ground (arith, overlap_tail-le c counter current, small)

  fresh-carried :
      (current : List (Piece V)) (piece : Piece V) → fresh (carried c current piece) ≡ []
  unfolding carried
  fresh-carried current piece =
      ground
        (arith, fresh_of_marked (overlap_tail c current) (overlap_tail-marked c counter current))

  abbrev Fits : Piece V → Type 0
  Fits p = tokens_of c (p ∷ []) ≤ c.max_tokens

  Packed-cons :
      (draft rest : List (Piece V)) (o : Option (List (List (Piece V))))
      → IsDraft c draft
      → Packed c rest o
      → Packed c (draft ++ rest) (elim o [ none ↦ none | some drafts ↦ some (draft ∷ drafts) ])
  Packed-cons draft rest none h p = p
  Packed-cons draft rest (some drafts) h p = (
    (h, p.0),
    keep-append _ draft (concat drafts)
        ∙ ap (◌++◌ (fresh draft)) p.1
        ∙ sym (keep-append _ draft rest),
  )

  Packed-fresh :
      (pieces others : List (Piece V)) (o : Option (List (List (Piece V))))
      → fresh pieces ≡ fresh others
      → Packed c pieces o
      → Packed c others o
  Packed-fresh pieces others none e p = p
  Packed-fresh pieces others (some drafts) e p = (p.0, p.1 ∙ e)

  -- What is true of a draft under way that is not empty.
  abbrev Open : List (Piece V) → Type 0
  Open current = (current ≡ []) ⊎ IsDraft c current

  grown :
      (current : List (Piece V)) (piece : Piece V)
      → tokens_of c (current ++ piece ∷ []) ≤ c.max_tokens
      → IsDraft c (current ++ piece ∷ [])
  grown [] piece h = (omega arith, h)
  grown (p ∷ ps) piece h = (omega arith, h)

  -- The round after a draft is closed takes the piece that was in the way.
  after_close :
      (fuel : ℕ) (carry : List (Piece V)) (piece : Piece V) (pieces : List (Piece V))
      → ((current : List (Piece V))
          → Open current
          → Packed c (current ++ pieces) (pack_from c fuel current pieces))
      → Fits piece
      → fresh carry ≡ []
      → (carry ≡ []) ⊎ (joins c carry piece ≡ true)
      → Packed c (piece ∷ pieces) (pack_from c (suc fuel) carry (piece ∷ pieces))
  unfolding pack_from
  after_close fuel [] piece pieces rest fit e h = rest (piece ∷ []) (inr (omega arith, fit))
  after_close fuel (q ∷ qs) piece pieces rest fit e (inl z) = absurd (ground arith)
  after_close fuel (q ∷ qs) piece pieces rest fit e (inr takes) = rw takes (
      Packed-fresh (((q ∷ qs) ++ piece ∷ []) ++ pieces) (piece ∷ pieces)
        (pack_from c fuel ((q ∷ qs) ++ piece ∷ []) pieces)
        (ap fresh (append_assoc (q ∷ qs) (piece ∷ []) pieces)
          ∙ fresh-append (q ∷ qs) (piece ∷ pieces)
          ∙ ap (λ l. l ++ fresh (piece ∷ pieces)) e)
        (rest ((q ∷ qs) ++ piece ∷ [])
          (inr (grown (q ∷ qs) piece (joined-fits (q ∷ qs) piece takes)))))

  pack_from-Packed :
      (fuel : ℕ) (current pieces : List (Piece V))
      → 2 * length pieces < fuel
      → Open current
      → All Fits pieces
      → Packed c (current ++ pieces) (pack_from c fuel current pieces)
  unfolding pack_from
  pack_from-Packed zero current pieces h way fit = absurd (omega arith)
  pack_from-Packed (suc fuel) [] [] h way fit = (tt, refl)
  pack_from-Packed (suc fuel) (p ∷ ps) [] h (inl z) fit = absurd (ground arith)
  pack_from-Packed (suc fuel) (p ∷ ps) [] h (inr d) fit = ((d, tt), refl)
  pack_from-Packed (suc fuel) [] (piece ∷ pieces) h way fit =
      pack_from-Packed fuel (piece ∷ []) pieces (omega arith) (inr (omega arith, fit.0)) fit.1
  pack_from-Packed (suc zero) (p ∷ ps) (piece ∷ pieces) h way fit = absurd (omega arith)
  pack_from-Packed (suc (suc fuel)) (p ∷ ps) (piece ∷ pieces) h (inl z) fit = absurd (ground arith)
  pack_from-Packed (suc (suc fuel)) (p ∷ ps) (piece ∷ pieces) h (inr d) fit =
      let current = p ∷ ps in
      elim (Bool-cases (joins c current piece)) [
        | inl takes ↦ rw takes (
            Packed-fresh ((current ++ piece ∷ []) ++ pieces) (current ++ piece ∷ pieces)
              (pack_from c (suc fuel) (current ++ piece ∷ []) pieces)
              (ap fresh (append_assoc current (piece ∷ []) pieces))
              (pack_from-Packed (suc fuel) (current ++ piece ∷ []) pieces (omega arith)
                (inr (grown current piece (joined-fits current piece takes))) fit.1))
        | inr closes ↦ rw closes (
            Packed-cons current (piece ∷ pieces)
              (pack_from c (suc fuel) (carried c current piece) (piece ∷ pieces)) d
              (after_close fuel (carried c current piece) piece pieces
                (λ next way. pack_from-Packed fuel next pieces (omega arith) way fit.1) fit.0
                (fresh-carried current piece) (carried-joins current piece)))
      ]

  -- For a tokenizer as described, a checked configuration whose overlap is below the minimum, and
  -- pieces that each fit the maximum: the loop ends, no draft is empty or passes the maximum, and
  -- without the overlap the drafts hold the pieces, in order and each once.
  pub pack_group-Packed :
      (pieces : List (Piece V)) → All Fits pieces → Packed c pieces (pack_group c pieces)
  unfolding pack_group
  pack_group-Packed pieces fit =
      pack_from-Packed (pack_fuel c pieces) [] pieces (omega arith) (inl refl) fit

-- A draft that is its own overlap, and does not take the next piece although the two fit the
-- maximum, is closed again and again: the loop ends with no fuel whatever.
pub pack_from-stuck :
    {V : Type 0} (c : Chunker) (current : List (Piece V)) (piece : Piece V)
    (pieces : List (Piece V))
    → carried c current piece ≡ current
    → current ≢ []
    → joins c current piece ≡ false
    → (fuel : ℕ) → pack_from c fuel current (piece ∷ pieces) ≡ none
unfolding pack_from
pack_from-stuck c [] piece pieces same some_draft out fuel = absurd (some_draft refl)
pack_from-stuck c (p ∷ ps) piece pieces same some_draft out zero = refl
pack_from-stuck c (p ∷ ps) piece pieces same some_draft out (suc fuel) =
    rw (out, same)
      (ground (arith, pack_from-stuck c (p ∷ ps) piece pieces same some_draft out fuel))
