-- ===== src/Ingestion/Chunking/Coverage.antt =====
-- From blocks to drafts in `chunk` of chunking.py: what splitting and packing keep.
use native.Mathlib.Nat.{le_trans}
use project_rag.Prelude.{
  ℕ, suc, ◌≤◌, ◌<◌, ◌≡◌, refl, inl, inr, ap, ◌∙◌, sym, Text, Option, none, some, List, [], ◌∷◌,
  ◌++◌, append_assoc, false, ok, raise, ◌>>=◌, strip, strip_newlines, leb, concat, All, All-append,
  All-map, keep-append, keep-eq_self, arith, Bool-cases, leb→le, list_eq, nat_eq,
}
use project_rag.Ingestion.Models.{Platform, Block}
use project_rag.Ingestion.Chunking.Config.{Chunker, Piece, join_pieces, IsCounter, IsConfigured}
use project_rag.Ingestion.Chunking.Split.{
  keeps_lines, Raises, number_parts, split_texts, split_block,
}
use project_rag.Ingestion.Chunking.Parts.{Ensures, Ensures-bind, AllFit, pack_text_units-AllFit}
use project_rag.Ingestion.Chunking.Pack.{tokens_of, pack_group}
use project_rag.Ingestion.Chunking.Drafts.{fresh, IsDraft, Packed, pack_group-Packed}
use project_rag.Ingestion.Chunking.Assemble.{Run, split_blocks, drafts_of, packed}

-- A run that ended with the property, or with the error of an oversized character.
abbrev pub Ends : {A : Type 0} → Chunker → (A → Type 0) → Run A → Type 0
Ends c P none = ⊥
Ends c P (some r) = Ensures c.count_tokens c.target_tokens P r

module _ (p : Platform) (sentences : Text → List Text) (c : Chunker)
    (counter : IsCounter c.count_tokens) (config : IsConfigured c)
    (small : c.overlap_tokens < c.min_tokens) where
  abbrev Sound : {A : Type 0} → (A → Type 0) → Raises A → Type 0
  Sound = Ensures c.count_tokens c.target_tokens

  abbrev PieceOk : Piece p.Value → Type 0
  PieceOk piece = (c.count_tokens piece.text ≤ c.target_tokens) × (piece.is_overlap ≡ false)

  number_parts-PieceOk :
      (block : Block p.Value) (part : ℕ) (texts : List Text)
      → AllFit c.count_tokens c.target_tokens texts
      → All PieceOk (number_parts p sentences c block part texts)
  unfolding number_parts
  number_parts-PieceOk block part [] h = tt
  number_parts-PieceOk block part (text ∷ texts) h =
      ((h.0, refl), number_parts-PieceOk block (suc part) texts h.1)

  split_texts-AllFit :
      (block : Block p.Value)
      → Sound (AllFit c.count_tokens c.target_tokens) (split_texts p sentences c block)
  split_texts-AllFit block = elim (Bool-cases (keeps_lines block.kind)) [
    | inl lines ↦ rw lines (
        pack_text_units-AllFit c.count_tokens c.target_tokens counter.strip-le strip_newlines
          (10 ∷ []) _)
    | inr prose ↦
        rw prose
          (pack_text_units-AllFit c.count_tokens c.target_tokens counter.strip-le strip (32 ∷ []) _)
  ]

  split_block-PieceOk :
      (block : Block p.Value) → Sound (All PieceOk) (split_block p sentences c block)
  unfolding split_block
  split_block-PieceOk block = elim (Bool-cases (leb (c.count_tokens block.text) c.target_tokens)) [
    | inl fits ↦ rw fits ((le_trans (counter.strip-le block.text) (leb→le _ _ fits), refl), tt)
    | inr long ↦ rw long (
        Ensures-bind c.count_tokens c.target_tokens (AllFit c.count_tokens c.target_tokens)
          (All PieceOk) (split_texts p sentences c block)
          (λ texts. ok (number_parts p sentences c block 0 texts)) (split_texts-AllFit block)
          (λ texts fit. number_parts-PieceOk block 0 texts fit))
  ]

  split_blocks-PieceOk :
      (blocks : List (Block p.Value)) → Sound (All PieceOk) (split_blocks p sentences c blocks)
  unfolding split_blocks
  split_blocks-PieceOk [] = tt
  split_blocks-PieceOk (block ∷ blocks) =
      Ensures-bind c.count_tokens c.target_tokens (All PieceOk) (All PieceOk)
        (split_block p sentences c block) _ (split_block-PieceOk block)
        (λ pieces h.
          Ensures-bind c.count_tokens c.target_tokens (All PieceOk) (All PieceOk)
            (split_blocks p sentences c blocks) _ (split_blocks-PieceOk blocks)
            (λ more k. All-append PieceOk pieces more h k))

  split_blocks-append :
      (xs ys : List (Block p.Value))
      → split_blocks p sentences c (xs ++ ys) ≡ (
          split_blocks p sentences c xs >>= λ a. split_blocks p sentences c ys >>= λ b. ok (a ++ b))
  unfolding split_blocks
  split_blocks-append [] ys = bind_id (split_blocks p sentences c ys)
    where
      bind_id : (m : Raises (List (Piece p.Value))) → m ≡ (m >>= λ b. ok b)
      bind_id (ok a) = refl
      bind_id (raise e) = refl
  split_blocks-append (x ∷ xs) ys = rw (split_blocks-append xs ys) (
      regroup (split_block p sentences c x) (split_blocks p sentences c xs)
        (split_blocks p sentences c ys))
    where
      regroup :
          (k m n : Raises (List (Piece p.Value)))
          → (k >>= λ a. (m >>= λ b. n >>= λ d. ok (b ++ d)) >>= λ e. ok (a ++ e))
            ≡ ((k >>= λ a. m >>= λ b. ok (a ++ b)) >>= λ e. n >>= λ d. ok (e ++ d))
      regroup (ok a) (ok b) (ok d) = ap ok (sym (append_assoc a b d))
      regroup (ok a) (ok b) (raise e) = refl
      regroup (ok a) (raise e) n = refl
      regroup (raise e) m n = refl

  -- A piece alone fits, and no piece made from a block is overlap.
  piece-Fits : (piece : Piece p.Value) → PieceOk piece → tokens_of c (piece ∷ []) ≤ c.max_tokens
  unfolding join_pieces
  piece-Fits piece h =
      le_trans (counter.join-le (piece.text ∷ [])) (omega (arith, config.target-le-max))

  fresh_pieces : (pieces : List (Piece p.Value)) → All PieceOk pieces → fresh pieces ≡ pieces
  fresh_pieces pieces h = keep-eq_self _ pieces (All-map PieceOk _ (λ q e. rw e.1) pieces h)

  -- The drafts of some groups: each fits, and beside the overlap they hold exactly the pieces of
  -- the groups' blocks.
  abbrev pub Drafts : List (List (Block p.Value)) → List (List (Piece p.Value)) → Type 0
  Drafts groups drafts =
      All (IsDraft c) drafts
      × (split_blocks p sentences c (concat groups) ≡ ok (fresh (concat drafts)))

  concat-append : {A : Type 0} (xs ys : List (List A)) → concat (xs ++ ys) ≡ concat xs ++ concat ys
  concat-append [] ys = refl
  concat-append (x ∷ xs) ys =
      ap (◌++◌ x) (concat-append xs ys) ∙ sym (append_assoc x (concat xs) (concat ys))

  pub drafts_of-Drafts :
      (groups : List (List (Block p.Value)))
      → Ends c (Drafts groups) (drafts_of p sentences c groups)
  unfolding drafts_of
  drafts_of-Drafts [] = (tt, unfold split_blocks in refl)
  drafts_of-Drafts (group ∷ groups) =
      go (split_blocks p sentences c group) refl (split_blocks-PieceOk group)
        (drafts_of p sentences c groups) (drafts_of-Drafts groups)
    where
      with_rest :
          (pieces : List (Piece p.Value))
          → split_blocks p sentences c group ≡ ok pieces
          → fresh pieces ≡ pieces
          → (o : Option (List (List (Piece p.Value)))) → Packed c pieces o
          → (rest : Run (List (List (Piece p.Value)))) → Ends c (Drafts groups) rest
          → Ends c (Drafts (group ∷ groups)) (packed p sentences c o rest)
      with_rest pieces e f none h rest k = h
      with_rest pieces e f (some drafts) h none k = k
      with_rest pieces e f (some drafts) h (some (raise x)) k = k
      with_rest pieces e f (some drafts) h (some (ok more)) k = (
        All-append (IsDraft c) drafts more h.0 k.0,
        split_blocks-append group (concat groups)
            ∙ rw (e, k.1)
                (ap ok (
                  ap (λ l. l ++ fresh (concat more)) (sym (h.1 ∙ f))
                  ∙ sym (keep-append _ (concat drafts) (concat more))
                  ∙ ap fresh (sym (concat-append drafts more)))),
      )

      go :
          (r : Raises (List (Piece p.Value)))
          → split_blocks p sentences c group ≡ r
          → Sound (All PieceOk) r
          → (rest : Run (List (List (Piece p.Value)))) → Ends c (Drafts groups) rest
          → Ends c (Drafts (group ∷ groups)) (elim r [
            | raise x ↦ some (raise x)
            | ok pieces ↦ packed p sentences c (pack_group c pieces) rest
          ])
      go (raise x) e h rest k = h
      go (ok pieces) e h rest k =
          with_rest pieces e (fresh_pieces pieces h) (pack_group c pieces)
            (pack_group-Packed c counter config small pieces
              (All-map PieceOk _ piece-Fits pieces h))
            rest k
