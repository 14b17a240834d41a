-- ===== src/Retrieval/Context/Budget.antt =====
-- What the context builder of context.py promises: the token budget, the labels, and excerpts that
-- are beginnings of the candidates' texts.
use project_rag.Prelude.{
  ℕ, zero, suc, ◌+◌, ◌-◌, ◌≤◌, ◌≡◌, refl, inl, inr, ◌∙◌, sym, Text, List, [], ◌∷◌, ◌++◌,
  append_assoc, append-nil, Bool, true, false, not, ◌&&◌, ◌||◌, is_empty, length, length-append,
  strip, ltb, arith, Bool-cases, subst, join,
}
use project_rag.Retrieval.Models.{RankedCandidate, SourceExcerpt}
use project_rag.Retrieval.Context.{
  estimate_tokens, ContextBundle, ContextBuilder, shrink, label, joined, framed, overhead, excerpt,
  bundle, passage, too_large, final_text, was_truncated, build_from, build,
}
use project_rag.Retrieval.Context.Cutting.{
  Begins, Begins-refl, Begins-trans, Begins-shrink, Begins-truncate, shrink_stops,
}

-- What the loop has so far.
abbrev Within : ContextBuilder → List Text → ℕ → Type 0
Within builder blocks used = (used ≡ estimate_tokens (joined blocks)) × (used ≤ builder.max_tokens)

module _ {F J : Type 0} (builder : ContextBuilder) where
  open builder use {max_tokens, min_passage_tokens}

  -- The sources are excerpts of the candidates in order, numbered on from `number`.
  abbrev pub Excerpts : ℕ → List (RankedCandidate F J) → List (SourceExcerpt F J) → Type 0
  Excerpts number candidates [] = Unit
  Excerpts number [] (s ∷ sources) = ⊥
  Excerpts number (ranked ∷ candidates) (s ∷ sources) =
      ((s.source_id ≡ label number)
        × (s.chunk_id ≡ ranked.candidate.chunk_id)
        × (s.document_id ≡ ranked.candidate.document_id)
        × (is_empty s.text ≡ false)
        × Begins s.text (strip ranked.candidate.text)
        × (s.truncated ≡ false → s.text ≡ strip ranked.candidate.text)
        × (s.truncated ≡ true → min_passage_tokens ≤ estimate_tokens s.text))
      × Excerpts (number + 1) candidates sources

  passage-Begins :
      (ranked : RankedCandidate F J) (source_id : Text) (used : ℕ)
      → Begins (passage builder source_id ranked.candidate used) (strip ranked.candidate.text)
  passage-Begins ranked source_id used =
      let available = max_tokens - used - overhead source_id ranked.candidate in
      let text = strip ranked.candidate.text in
      elim (Bool-cases (ltb available (estimate_tokens text))) [
        | inl long ↦ rw long (Begins-truncate text available)
        | inr fits ↦ rw fits (Begins-refl text)
      ]

  final_text-Begins :
      (blocks : List Text) (ranked : RankedCandidate F J) (source_id : Text) (used : ℕ)
      → Begins
          (final_text builder blocks source_id ranked.candidate used)
          (strip ranked.candidate.text)
  unfolding final_text
  final_text-Begins blocks ranked source_id used =
      Begins-trans _ (passage builder source_id ranked.candidate used) _ (Begins-shrink _ _ _)
        (passage-Begins ranked source_id used)

  -- A passage that is not reported as cut is the whole text.
  final_text_whole :
      (blocks : List Text) (ranked : RankedCandidate F J) (source_id : Text) (used : ℕ)
      → was_truncated builder blocks source_id ranked.candidate used ≡ false
      → final_text builder blocks source_id ranked.candidate used ≡ strip ranked.candidate.text
  unfolding final_text was_truncated
  final_text_whole blocks ranked source_id used uncut =
      let text = strip ranked.candidate.text in
      let fits : ltb (max_tokens - used - overhead source_id ranked.candidate)
            (estimate_tokens text)
          ≡ false =
        ground arith in
      shrink_idle (too_large builder blocks source_id ranked.candidate)
        (length (passage builder source_id ranked.candidate used))
        (passage builder source_id ranked.candidate used) (ground arith)
      ∙ passage_whole fits
    where
      shrink_idle :
          (long : Text → Bool) (fuel : ℕ) (s : Text)
          → (not (is_empty s) && long s) ≡ false
          → shrink long fuel s ≡ s
      shrink_idle long zero s h = unfold shrink in refl
      shrink_idle long (suc fuel) s h = unfold shrink in rw h refl

      passage_whole :
          ltb
              (max_tokens - used - overhead source_id ranked.candidate)
              (estimate_tokens (strip ranked.candidate.text))
            ≡ false
          → passage builder source_id ranked.candidate used ≡ strip ranked.candidate.text
      passage_whole fits = rw fits refl

  -- A passage that is not empty leaves the whole context within the budget.
  final_text-fits :
      (blocks : List Text) (ranked : RankedCandidate F J) (source_id : Text) (used : ℕ)
      → is_empty (final_text builder blocks source_id ranked.candidate used) ≡ false
      → estimate_tokens (
          joined (
            blocks
            ++ framed source_id ranked.candidate
                (final_text builder blocks source_id ranked.candidate used)
              ∷ []))
        ≤ max_tokens
  unfolding final_text
  final_text-fits blocks ranked source_id used some_text =
      elim (shrink_stops (too_large builder blocks source_id ranked.candidate)
        (length (passage builder source_id ranked.candidate used))
        (passage builder source_id ranked.candidate used) (omega arith)) [
          | inl nothing ↦ absurd (ground (arith, nothing, some_text))
          | inr short ↦ ground (arith, short)
        ]

  -- The bundle extends the sources so far by excerpts of the rest, and keeps the budget.
  abbrev Extends :
      List (SourceExcerpt F J) → List (RankedCandidate F J) → ContextBundle F J → Type 0
  Extends sources rest b =
      (b.estimated_tokens ≤ max_tokens)
      × (b.estimated_tokens ≡ estimate_tokens b.text)
      × ((more : List (SourceExcerpt F J)) × (b.sources ≡ sources ++ more)
          × Excerpts (length sources + 1) rest more)

  stopped :
      (blocks : List Text) (sources : List (SourceExcerpt F J)) (used : ℕ) (cut : Bool)
      (rest : List (RankedCandidate F J))
      → Within builder blocks used
      → Extends sources rest (bundle blocks sources cut)
  stopped blocks sources used cut [] w = (omega arith, refl, ([], sym (append-nil sources), tt))
  stopped blocks sources used cut (r ∷ rs) w =
      (omega arith, refl, ([], sym (append-nil sources), tt))

  build_from-Extends :
      (blocks : List Text) (sources : List (SourceExcerpt F J)) (used : ℕ) (truncated : Bool)
      (rest : List (RankedCandidate F J))
      → Within builder blocks used
      → Extends sources rest (build_from builder blocks sources used truncated rest)
  unfolding build_from
  build_from-Extends blocks sources used truncated [] w = stopped blocks sources used truncated [] w
  build_from-Extends blocks sources used truncated (ranked ∷ rest) w =
      let c = ranked.candidate in
      let id = label (length sources + 1) in
      let text = final_text builder blocks id c used in
      let cut = was_truncated builder blocks id c used in
      elim (Bool-cases (ltb max_tokens (used + overhead id c + min_passage_tokens))) [
        | inl full ↦ rw full (
            stopped blocks sources used (truncated || not (is_empty (strip c.text))) (ranked ∷ rest)
              w)
        | inr room ↦
            elim (Bool-cases
              (is_empty text || (cut && ltb (estimate_tokens text) min_passage_tokens))) [
                | inl poor ↦
                    rw (room, poor)
                      (stopped blocks sources used (truncated || cut) (ranked ∷ rest) w)
                | inr good ↦
                    let some_text : is_empty text ≡ false = ground arith in
                    let enough : cut ≡ true → min_passage_tokens ≤ estimate_tokens text =
                      λ e. ground arith in
                    let (ok_budget, ok_text, (more, e, ex)) =
                      build_from-Extends (blocks ++ framed id c text ∷ [])
                        (sources ++ excerpt id ranked text cut ∷ [])
                        (estimate_tokens (joined (blocks ++ framed id c text ∷ [])))
                        (truncated || cut) rest
                        (refl, final_text-fits blocks ranked id used some_text) in
                    rw (room, good)
                      (
                        ok_budget,
                        ok_text,
                        (
                          excerpt id ranked text cut ∷ more,
                          e ∙ append_assoc sources (excerpt id ranked text cut ∷ []) more,
                          (
                            (
                              refl,
                              refl,
                              refl,
                              some_text,
                              final_text-Begins blocks ranked id used,
                              final_text_whole blocks ranked id used,
                              enough,
                            ),
                            subst (λ n. Excerpts n rest more)
                                (omega
                                  (arith, length-append sources (excerpt id ranked text cut ∷ [])))
                                ex,
                          ),
                        ),
                      )
              ]
      ]

  -- The context counts at most the budget, as estimated on its text. Its sources are excerpts of
  -- the first candidates in order, labelled S1, S2 and so on, each with the ids of its candidate
  -- and a text that is not empty and begins the candidate's stripped text: all of it if it is not
  -- marked as truncated, and at least the minimum of tokens if it is.
  pub build-Excerpts :
      (candidates : List (RankedCandidate F J))
      → ((build builder candidates).estimated_tokens ≤ max_tokens)
        × ((build builder candidates).estimated_tokens
            ≡ estimate_tokens (build builder candidates).text)
        × Excerpts 1 candidates (build builder candidates).sources
  unfolding build
  build-Excerpts candidates =
      let (a, b, (more, e, ex)) =
        build_from-Extends [] [] 0 false candidates
          (unfold estimate_tokens join in refl, omega arith) in
      (
        a,
        b,
        subst (Excerpts 1 candidates) (sym e)
            (subst (λ n. Excerpts n candidates more) (omega arith) ex),
      )
