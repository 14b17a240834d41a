-- ===== src/Ingestion/Normalization/Kept.antt =====
-- What `normalize` of normalization.py keeps.
use project_rag.Prelude.{
  ◌≡◌, refl, ap, Text, some, List, [], ◌∷◌, ◌++◌, map, Bool, true, false, not, ◌||◌, is_empty,
  is_some, length, member, member_of_All, keep, keep-All, All, All-keep, ltb, sort_by, list_eq,
  nat_eq, option_eq, ◌==◌, Bool-cases, Option-cases, inl, inr, arith,
}
use project_rag.Ingestion.Models.{Block}
use project_rag.Ingestion.Normalization.Clean.{normalize_text}
use project_rag.Ingestion.Normalization.Margins.{
  is_margin_text, by_order, page_edges, is_edge, is_repeated, first_of, last_of, add_pages,
  remove_repeated_page_margins, cleaned, normalize, preserves_layout,
}

module _ {V : Type 0} where
  -- A block that can be no page margin: it has no page, or its text is not one line of at most 120
  -- characters.
  abbrev pub is_content : Block V → Bool
  is_content b = not (is_some b.page) || not (is_margin_text b.text)

  keep-keep :
      (p q : Block V → Bool) (blocks : List (Block V))
      → ((b : Block V) → p b ≡ true → q b ≡ true)
      → keep p (keep q blocks) ≡ keep p blocks
  keep-keep p q [] h = refl
  keep-keep p q (b ∷ blocks) h = elim (Bool-cases (q b)) [
    | inl e ↦ rw e (ground (arith, keep-keep p q blocks h))
    | inr e ↦ elim (Bool-cases (p b)) [
      | inl k ↦ absurd (cc (h b k, e))
      | inr k ↦ rw (e, k) (keep-keep p q blocks h)
    ]
  ]

  content-not-edge :
      (b : Block V) (blocks : List (Block V)) → is_content b ≡ true → is_edge b blocks ≡ false
  unfolding page_edges
  content-not-edge b blocks h = elim (Option-cases b.page) [
    | inl e ↦ rw e refl
    | inr (page, e) ↦
        let ordered = sort_by by_order (keep (λ b. b.page == some page) blocks) in
        let edges = first_of ordered ++ last_of ordered in
        elim (Bool-cases (member b.text (keep is_margin_text edges))) [
          | inl k ↦ absurd (
              ground (
                arith,
                h,
                ap is_some e,
                member_of_All is_margin_text (keep is_margin_text edges) b.text
                    (keep-All is_margin_text edges) k,
              ))
          | inr k ↦ rw (e, k) refl
        ]
  ]

  cleaned-nonempty :
      (nfc : Text → Text) (blocks : List (Block V))
      → All (λ b. is_empty b.text ≡ false) (cleaned nfc blocks)
  unfolding cleaned
  cleaned-nonempty nfc [] = tt
  cleaned-nonempty nfc (b ∷ blocks) =
      elim (Bool-cases (is_empty (normalize_text nfc (preserves_layout b.kind) b.text))) [
        | inl e ↦ rw e (cleaned-nonempty nfc blocks)
        | inr e ↦ rw e (e, cleaned-nonempty nfc blocks)
      ]

  removed-keeps :
      (blocks : List (Block V))
      → (keep is_content (remove_repeated_page_margins blocks) ≡ keep is_content blocks)
        × (All (λ b. is_empty b.text ≡ false) blocks
            → All (λ b. is_empty b.text ≡ false) (remove_repeated_page_margins blocks))
  unfolding remove_repeated_page_margins
  removed-keeps blocks =
      let pages = add_pages [] (map (λ b. b.page) blocks) in
      elim (Bool-cases (ltb (length pages) 3)) [
        | inl e ↦ rw e (refl, λ k. k)
        | inr e ↦ rw e (
          keep-keep is_content (λ b. not (is_repeated b blocks pages)) blocks
              (λ b k. ground (arith, content-not-edge b blocks k)),
          λ k. All-keep (λ b. is_empty b.text ≡ false) _ blocks k,
        )
      ]

  -- The removal of page margins removes no block that has no page, more than one line, or more than
  -- 120 characters: of those, what `normalize` returns are the blocks in their order, cleaned, but for
  -- those left without text. No block that it returns is without text.
  pub normalize-keeps :
      (nfc : Text → Text) (remove_margins : Bool) (blocks : List (Block V))
      → (keep is_content (normalize nfc remove_margins blocks)
          ≡ keep is_content (cleaned nfc (sort_by by_order blocks)))
        × All (λ b. is_empty b.text ≡ false) (normalize nfc remove_margins blocks)
  unfolding normalize
  normalize-keeps nfc true blocks =
      let done = cleaned nfc (sort_by by_order blocks) in
      let (same, full) = removed-keeps done in
      (same, full (cleaned-nonempty nfc (sort_by by_order blocks)))
  normalize-keeps nfc false blocks = (refl, cleaned-nonempty nfc (sort_by by_order blocks))
