-- ===== src/Retrieval/Citations/Grounding.antt =====
-- What `validate_citations` of citations.py promises.
use project_rag.Prelude.{
  ◌≡◌, refl, ◌↔◌, ◌⊎◌, Text, List, ◌∷◌, ◌++◌, Bool, true, false, not, ◌&&◌, ◌||◌, is_empty, member,
  Distinct, list_eq, nat_eq, arith, Bool-cases, inl, inr, ap, ◌∙◌, subst, All-of_member,
  member_of_All, member-keep, member-append, Distinct-keep, ok, >>=-eq-ok, ok-injective,
}
use project_rag.Retrieval.Models.{GenerationResult}
use project_rag.Retrieval.Citations.{
  inline_labels, ordered_unique, inline_references, CitationValidation, validation, normalize_all,
  validate_citations, valid,
}
use project_rag.Retrieval.Citations.Members.{
  member-ordered_unique, ordered_unique-Distinct, none_invalid, All-ordered_unique, first_member,
  nonempty_of_member, member-map_label, map_label-member,
}
use project_rag.Retrieval.Citations.Labels.{Occurs, inline_labels_iff}

-- A label as it is reported, `S` and its digits, that stands in brackets in the text.
abbrev pub IsInText : Text → Text → Type 0
IsInText text label = (digits : Text) × (label ≡ b'S' ∷ digits) × Occurs digits text

module _ {F J : Type 0} (result : GenerationResult F J) where
  inline_iff :
      (label : Text)
      → (member label (inline_references result) ≡ true) ↔ IsInText result.answer label
  inline_iff label = (
    λ h.
        let (digits, same, listed) = map_label-member label (inline_labels result.answer) h in
        (digits, same, (inline_labels_iff digits result.answer).0 listed),
    λ (digits, same, found).
        ap (λ l. member l (inline_references result)) same
        ∙ member-map_label digits (inline_labels result.answer)
        ∙ (inline_labels_iff digits result.answer).1 found,
  )

  -- A label that the result uses: in the text, or in the declared list in normal form.
  abbrev pub Uses : List Text → Text → Type 0
  Uses declared label = IsInText result.answer label ⊎ (member label declared ≡ true)

  used_member :
      (declared : List Text) (label : Text)
      → (member label (inline_references result ++ declared) ≡ true) ↔ Uses declared label
  used_member declared label =
      let inline = inline_references result in
      let joined = member-append label inline declared in
      (
        λ h. elim (Bool-cases (member label inline)) [
          | inl e ↦ inl ((inline_iff label).0 e)
          | inr e ↦ inr (ground (arith, h, e, joined))
        ],
        λ used. elim used [
          | inl found ↦ ground (arith, joined, (inline_iff label).1 found)
          | inr listed ↦ ground (arith, joined, listed)
        ],
      )

module _ {F J : Type 0} (result : GenerationResult F J) (allowed : List Text) (require : Bool) where
  cited_iff :
      (declared : List Text) (label : Text)
      → (member label (validation result allowed require declared).cited_source_ids ≡ true)
        ↔ (IsInText result.answer label × (member label allowed ≡ true))
  cited_iff declared label =
      let inline = inline_references result in
      let kept =
        member-keep (λ w. member w allowed) label (ordered_unique inline)
        ∙ ap (λ b. b && member label allowed) (member-ordered_unique label inline) in
      (
        λ h. ((inline_iff result label).0 (ground (arith, h, kept)), ground (arith, h, kept)),
        λ h. ground (arith, kept, (inline_iff result label).1 h.0, h.1),
      )

  -- A validation that returns reports as cited exactly the allowed labels that stand in the answer's
  -- text, each once.
  pub cited_exact :
      {v : CitationValidation}
      → validate_citations result allowed require ≡ ok v
      → Distinct v.cited_source_ids
        × ((label : Text)
            → (member label v.cited_source_ids ≡ true)
              ↔ (IsInText result.answer label × (member label allowed ≡ true)))
  unfolding validate_citations
  cited_exact {v} h =
      let inline = inline_references result in
      let (declared, _, made) = >>=-eq-ok (normalize_all result.cited_source_ids) _ h in
      subst
        (λ (v : CitationValidation).
          Distinct v.cited_source_ids
          × ((label : Text)
              → (member label v.cited_source_ids ≡ true)
                ↔ (IsInText result.answer label × (member label allowed ≡ true))))
        (ok-injective made)
        (
          Distinct-keep (λ v. member v allowed) (ordered_unique inline)
              (ordered_unique-Distinct inline),
          cited_iff declared,
        )

  -- What a validation is to say.
  abbrev pub IsSound : List Text → Type 0
  IsSound declared =
      ((label : Text) → Uses result declared label → member label allowed ≡ true)
      × ((require && not result.abstained) ≡ true
          → (label : Text) × IsInText result.answer label × (member label allowed ≡ true))

  valid-IsSound :
      (declared : List Text)
      → (valid (validation result allowed require declared) ≡ true) ↔ IsSound declared
  valid-IsSound declared =
      let refs = inline_references result ++ declared in
      let sound = λ (v : Text). member v allowed in
      let cited = (validation result allowed require declared).cited_source_ids in
      (
        λ h. (
          λ label used.
              member_of_All sound refs label
                ((All-ordered_unique sound refs).0
                  ((none_invalid sound (ordered_unique refs)).0 (ground (arith, h))))
                ((used_member result declared label).1 used),
          λ needed.
              let (label, listed) = first_member cited (ground (arith, h, needed)) in
              let (found, fine) = (cited_iff declared label).0 listed in (label, found, fine),
        ),
        λ h.
            join_valid
              ((none_invalid sound (ordered_unique refs)).1 (
                (All-ordered_unique sound refs).1 (
                  All-of_member sound refs
                    (λ label m. h.0 label ((used_member result declared label).0 m)))))
              (has_citation (is_empty cited) (require && not result.abstained) (λ needed.
                let (label, found, fine) = h.1 needed in
                nonempty_of_member label cited ((cited_iff declared label).1 (found, fine)))),
      )
    where
      join_valid : {a b : Bool} → a ≡ true → b ≡ true → (a && b) ≡ true
      join_valid p q = ground arith

      has_citation : (e n : Bool) → (n ≡ true → e ≡ false) → (not e || not n) ≡ true
      has_citation false n h = refl
      has_citation true false h = refl
      has_citation true true h = cc (h refl)

  -- Where the declared labels have a normal form, the validation returns, and it is valid exactly if
  -- every label that stands in the text or in the declared list is allowed, and some allowed label
  -- stands in the text unless none is required or the result abstained.
  pub valid_iff :
      {declared : List Text}
      → normalize_all result.cited_source_ids ≡ ok declared
      → (v : CitationValidation) × (validate_citations result allowed require ≡ ok v)
        × ((valid v ≡ true) ↔ IsSound declared)
  unfolding validate_citations
  valid_iff {declared} h =
      (validation result allowed require declared, rw h refl, valid-IsSound declared)

  pub validate_citations-IsSound :
      {v : CitationValidation}
      → validate_citations result allowed require ≡ ok v
      → valid v ≡ true
      → (declared : List Text) × (normalize_all result.cited_source_ids ≡ ok declared)
        × IsSound declared
  unfolding validate_citations
  validate_citations-IsSound {v} h fine =
      let (declared, normal, made) = >>=-eq-ok (normalize_all result.cited_source_ids) _ h in
      (
        declared,
        normal,
        (valid-IsSound declared).0
            (ap (λ (v : CitationValidation). valid v) (ok-injective made) ∙ fine),
      )
