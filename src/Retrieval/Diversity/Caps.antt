-- ===== src/Retrieval/Diversity/Caps.antt =====
-- What `select_diverse_candidates` of diversity.py promises for the sources it selects.
use mathlib.Core.List.{Perm}
use mathlib.Core.List.Perm
use project_rag.Prelude.{
  ℕ, zero, suc, ◌≡◌, ◌≤◌, ◌<◌, refl, subst, ◌⊎◌, inl, inr, List, [], ◌∷◌, ◌++◌, Bool, true, false,
  not, ◌&&◌, ◌||◌, is_empty, length, length-append, keep, keep-append, All, member, list_eq, nat_eq,
  ◌==◌, Eq, eq_of_beq, All-of_member, member-keep, ok, ltb, leb, leb→le, Bool-cases, List-cases,
  All-of-keep-nil, arith, append_assoc,
}
use project_rag.Prelude.Floats.{Floats, le}
use project_rag.Retrieval.Models.{RankedCandidate}
use project_rag.Retrieval.Diversity.{
  best_by, below, mmr_below, same_document, same_section, document_count, section_count,
  is_eligible, remove, choose, embeddings, diversity_available, select_from,
  select_diverse_candidates,
}

pub best_by-holds :
    {A : Type 0} (P : A → Type 0) (lt : A → A → Bool) (best : A) (xs : List A)
    → P best
    → All P xs
    → P (best_by lt best xs)
unfolding best_by
best_by-holds P lt best [] h k = h
best_by-holds P lt best (x ∷ xs) h k = elim (Bool-cases (lt best x)) [
  | inl e ↦ rw e (best_by-holds P lt x xs k.0 k.1)
  | inr e ↦ rw e (best_by-holds P lt best xs h k.1)
]

le→lt_false : {n : ℕ} → 0 < n → ltb n 1 ≡ false
le→lt_false {n} h = ground (arith, h)

both-true : (a b : Bool) → (a && b) ≡ true → (a ≡ true) × (b ≡ true)
both-true a b h = ground (arith, h)

-- One more element where its class is below the cap keeps every class within the cap.
keep-append-le :
    {A : Type 0} (same : A → A → Bool) (cap : ℕ) (xs : List A) (c : A)
    → ((r : A) → same r c ≡ true → keep (same r) xs ≡ keep (same c) xs)
    → length (keep (same c) xs) < cap
    → (r : A) → length (keep (same r) xs) ≤ cap
    → length (keep (same r) (xs ++ (c ∷ []))) ≤ cap
keep-append-le same cap xs c agree h r k =
    rw (keep-append (same r) xs (c ∷ []), length-append (keep (same r) xs) (keep (same r) (c ∷ [])))
      (elim (Bool-cases (same r c)) [
        | inl e ↦ rw (e, agree r e) (omega (arith, h))
        | inr e ↦ rw e (omega (arith, k))
      ])

module _ {A : Type 0} ⦃e : Eq A⦄ where
  pub member-keep-All :
      (p : A → Bool) (xs : List A) → All (λ x. (p x && member x xs) ≡ true) (keep p xs)
  member-keep-All p xs =
      All-of_member (λ x. p x && member x xs) (keep p xs)
        (λ x m. ground (arith, member-keep p x xs, m))

module _ (fl : Floats) {J : Type 0} (max_per_document max_per_section : ℕ) where
  open fl use {Float}

  -- No document and no section has more of the selected than its cap.
  pub WithinCaps : List (RankedCandidate Float J) → Type 0
  WithinCaps selected =
      (r : RankedCandidate Float J)
      → (document_count selected r ≤ max_per_document)
        × (section_count selected r ≤ max_per_section)

  WithinCaps-append :
      (selected : List (RankedCandidate Float J)) (c : RankedCandidate Float J)
      → WithinCaps selected
      → is_eligible fl max_per_document max_per_section selected c ≡ true
      → WithinCaps (selected ++ (c ∷ []))
  unfolding is_eligible WithinCaps
  WithinCaps-append selected c h k r = (
    keep-append-le same_document max_per_document selected c document (ground (arith, k)) r (h r).0,
    keep-append-le same_section max_per_section selected c section (ground (arith, k)) r (h r).1,
  )
    where
      document :
          (r : RankedCandidate Float J)
          → same_document r c ≡ true
          → keep (same_document r) selected ≡ keep (same_document c) selected
      document r e = rw (eq_of_beq r.candidate.document_id c.candidate.document_id e) refl

      section :
          (r : RankedCandidate Float J)
          → same_section r c ≡ true
          → keep (same_section r) selected ≡ keep (same_section c) selected
      section r e =
          rw
            (
              eq_of_beq r.candidate.document_id c.candidate.document_id (ground (arith, e)),
              eq_of_beq r.candidate.section_path c.candidate.section_path (ground (arith, e)),
            )
            refl

  module _ ⦃e : Eq (RankedCandidate Float J)⦄ where
    remove-perm :
        (x : RankedCandidate Float J) (ys : List (RankedCandidate Float J))
        → member x ys ≡ true
        → Perm (x ∷ remove x ys) ys
    unfolding remove
    remove-perm x [] h = cc
    remove-perm x (y ∷ ys) h = elim (Bool-cases (x == y)) [
      | inl same ↦ rw (same, eq_of_beq x y same) Perm.rfl
      | inr other ↦ rw other (
          Perm.trans (Perm.swap y x (remove x ys))
            (Perm.cons y (remove-perm x ys (ground (arith, h, other)))))
    ]

    -- What is left of the loop's promise.
    pub Selected :
        ℕ
        → List (RankedCandidate Float J)
        → List (RankedCandidate Float J)
        → List (RankedCandidate Float J)
        → Type 0
    Selected limit remaining selected result =
        (rest : List (RankedCandidate Float J)) × Perm (result ++ rest) (selected ++ remaining)
        × WithinCaps result
        × (length result ≤ limit)
        × ((length result ≡ limit)
            ⊎ All (λ r. is_eligible fl max_per_document max_per_section result r ≡ false) rest)

    Selected-perm :
        (limit : ℕ)
        (remaining selected remaining' selected' result : List (RankedCandidate Float J))
        → Perm (selected ++ remaining) (selected' ++ remaining')
        → Selected limit remaining selected result
        → Selected limit remaining' selected' result
    unfolding Selected
    Selected-perm limit remaining selected remaining' selected' result p
          (rest, q, caps, bound, full) =
        (rest, Perm.trans q p, caps, bound, full)

    -- The chosen item is eligible and remains.
    choose-eligible :
        (available : Bool) (lambda : Float) (selected remaining : List (RankedCandidate Float J))
        (x : RankedCandidate Float J) (xs : List (RankedCandidate Float J))
        → keep (is_eligible fl max_per_document max_per_section selected) remaining ≡ x ∷ xs
        → (is_eligible fl max_per_document max_per_section selected
              (choose fl available lambda selected x xs)
            && member (choose fl available lambda selected x xs) remaining)
          ≡ true
    choose-eligible available lambda selected remaining x xs eq =
        let eligible = is_eligible fl max_per_document max_per_section selected in
        let holds =
          subst (All (λ r. (eligible r && member r remaining) ≡ true)) eq
            (member-keep-All eligible remaining) in
        elim (Bool-cases (is_empty selected || not available)) [
          | inl e ↦ rw e (
              best_by-holds (λ r. (eligible r && member r remaining) ≡ true) (below fl) x xs holds.0
                holds.1)
          | inr e ↦ rw e (
              best_by-holds (λ r. (eligible r && member r remaining) ≡ true)
                (mmr_below fl selected lambda) x xs holds.0 holds.1)
        ]

    remove-perm-append :
        (selected remaining : List (RankedCandidate Float J)) (c : RankedCandidate Float J)
        → member c remaining ≡ true
        → Perm ((selected ++ (c ∷ [])) ++ remove c remaining) (selected ++ remaining)
    remove-perm-append selected remaining c m =
        rw (append_assoc selected (c ∷ []) (remove c remaining))
          (Perm.append_left selected (remove-perm c remaining m))

    length-remove :
        (c : RankedCandidate Float J) (remaining : List (RankedCandidate Float J))
        → member c remaining ≡ true
        → suc (length (remove c remaining)) ≡ length remaining
    unfolding remove
    length-remove c [] h = cc
    length-remove c (y ∷ ys) h = ground (arith, h, length-remove c ys)

    select_from-Selected :
        (available : Bool) (lambda : Float) (limit fuel : ℕ)
        (remaining selected : List (RankedCandidate Float J))
        → length remaining ≤ fuel
        → WithinCaps selected
        → length selected ≤ limit
        → Selected limit remaining selected (
            select_from fl max_per_document max_per_section available lambda limit fuel remaining
              selected)
    unfolding select_from Selected
    select_from-Selected available lambda limit zero [] selected f h k =
        ([], Perm.rfl, h, k, inr tt)
    select_from-Selected available lambda limit zero (r ∷ rs) selected f h k =
        absurd (omega (arith, f))
    select_from-Selected available lambda limit (suc fuel) [] selected f h k =
        ([], Perm.rfl, h, k, inr tt)
    select_from-Selected available lambda limit (suc fuel) (r ∷ rs) selected f h k =
        elim (Bool-cases (leb limit (length selected))) [
          | inl full ↦
              rw full (
                r ∷ rs,
                Perm.rfl,
                h,
                k,
                inl (omega (arith, k, leb→le limit (length selected) full)),
              )
          | inr space ↦
              rw space
                (elim (List-cases
                  (keep (is_eligible fl max_per_document max_per_section selected) (r ∷ rs))) [
                    | inl none_left ↦ rw none_left (
                      r ∷ rs,
                      Perm.rfl,
                      h,
                      k,
                      inr (
                          All-of-keep-nil (is_eligible fl max_per_document max_per_section selected)
                            (r ∷ rs) none_left),
                    )
                    | inr (x, xs, some_left) ↦ rw some_left (
                        let chosen = choose fl available lambda selected x xs in
                        let (fits, stays) =
                          both-true
                            (is_eligible fl max_per_document max_per_section selected chosen)
                            (member chosen (r ∷ rs))
                            (choose-eligible available lambda selected (r ∷ rs) x xs some_left) in
                        Selected-perm limit (remove chosen (r ∷ rs)) (selected ++ (chosen ∷ []))
                          (r ∷ rs) selected _ (remove-perm-append selected (r ∷ rs) chosen stays)
                          (select_from-Selected available lambda limit fuel (remove chosen (r ∷ rs))
                            (selected ++ (chosen ∷ []))
                            (omega (arith, f, length-remove chosen (r ∷ rs) stays))
                            (WithinCaps-append selected chosen h fits)
                            (rw (length-append selected (chosen ∷ [])) (ground (arith, space, k)))))
                  ])
        ]

    -- For a positive limit, positive caps and a weight between 0 and 1 the selection ends: it
    -- returns candidates, each once, with at most `limit` in all and at most the caps of any
    -- document and section; if it returns fewer than `limit`, the caps exclude each one left.
    pub select_diverse-Selected :
        (candidates : List (RankedCandidate Float J)) (limit : ℕ) (lambda : Float)
        → 0 < limit
        → 0 < max_per_document
        → 0 < max_per_section
        → (le fl (fl.literal 0 1) lambda && le fl lambda (fl.literal 1 1)) ≡ true
        → (result : List (RankedCandidate Float J)) × (used : Bool) × (select_diverse_candidates fl
              max_per_document max_per_section candidates limit lambda
            ≡ ok (result, used))
          × Selected limit candidates [] result
    unfolding select_diverse_candidates WithinCaps
    select_diverse-Selected candidates limit lambda h k l m =
        let available = diversity_available (embeddings fl candidates) in
        let result =
          select_from fl max_per_document max_per_section available lambda limit (length candidates)
            candidates [] in
        (
          result,
          (available && ltb 1 (length result)),
          rw (m, le→lt_false h, le→lt_false k, le→lt_false l) refl,
          select_from-Selected available lambda limit (length candidates) candidates []
              (omega arith) (λ r. (omega arith, omega arith)) (omega arith),
        )
