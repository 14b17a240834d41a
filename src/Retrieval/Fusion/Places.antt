-- ===== src/Retrieval/Fusion/Places.antt =====
-- The effective ranks of `_unique_by_chunk` of fusion.py as places among the distinct chunk ids.
use project_rag.Prelude.{
  ℕ, ◌+◌, ◌≡◌, refl, sym, ap, ◌∙◌, Text, Option, none, some, List, [], ◌∷◌, map, Bool, true, not,
  ◌&&◌, keep, member, list_eq, nat_eq, ◌==◌, eq_of_beq, dict_get, arith, Bool-cases, inl, inr,
  if◌then◌else◌,
}
use project_rag.Retrieval.Models.{SearchCandidate}
use project_rag.Retrieval.Fusion.Rrf.{unique_from, unique_by_chunk}

-- Each id once, where it first occurs.
pub distinct_ids : List Text → List Text
distinct_ids [] = []
distinct_ids (id ∷ rest) = id ∷ keep (λ other. not (other == id)) (distinct_ids rest)

abbrev shifted : ℕ → Option ℕ → Option ℕ
shifted n none = none
shifted n (some k) = some (n + k)

-- The place of an id in a list, counted from one.
pub place : Text → List Text → Option ℕ
place id [] = none
place id (first ∷ rest) = if id == first then some 1 else shifted 1 (place id rest)

shifted_suc : (n : ℕ) (o : Option ℕ) → shifted (n + 1) o ≡ shifted n (shifted 1 o)
shifted_suc n none = refl
shifted_suc n (some k) = ap (λ m. some m) (omega arith)

shifted_zero : (o : Option ℕ) → shifted 0 o ≡ o
shifted_zero none = refl
shifted_zero (some k) = ap (λ m. some m) (omega arith)

keep-keep-eq :
    (f g h : Text → Bool)
    → ((y : Text) → (g y && f y) ≡ h y)
    → (xs : List Text) → keep f (keep g xs) ≡ keep h xs
keep-keep-eq f g h e [] = refl
keep-keep-eq f g h e (x ∷ xs) = ground (arith, e x, keep-keep-eq f g h e xs)

-- What is not seen is not an id that is seen.
other_than_seen :
    (id : Text) (seen : List Text)
    → member id seen ≡ true
    → (y : Text) → (not (y == id) && not (member y seen)) ≡ not (member y seen)
other_than_seen id seen old y = elim (Bool-cases (y == id)) [
  | inl same ↦ rw (eq_of_beq y id same, old) (ground arith)
  | inr other ↦ rw other refl
]

abbrev unseen : List Text → List Text → List Text
unseen seen = keep (λ id. not (member id seen))

keep_all : (xs : List Text) → unseen [] xs ≡ xs
keep_all [] = refl
keep_all (x ∷ xs) = ap (◌∷◌ x) (keep_all xs)

module _ {F J : Type 0} where
  abbrev pub ids : List (SearchCandidate F J) → List Text
  ids = map (λ c. c.chunk_id)

  -- The effective ranks, keyed by chunk id.
  abbrev pub rank_items : List (ℕ × SearchCandidate F J) → List (Text × ℕ)
  rank_items = map (λ u. (u.1.chunk_id, u.0))

  unique_from-place :
      (id : Text) (seen : List Text) (n : ℕ) (cs : List (SearchCandidate F J))
      → dict_get id (rank_items (unique_from seen n cs))
        ≡ shifted n (place id (unseen seen (distinct_ids (ids cs))))
  unfolding unique_from dict_get distinct_ids place
  unique_from-place id seen n [] = refl
  unique_from-place id seen n (c ∷ cs) =
      let others = distinct_ids (ids cs) in
      elim (Bool-cases (member c.chunk_id seen)) [
        | inl old ↦ rw old (
            unique_from-place id seen n cs
            ∙ ap (λ l. shifted n (place id l))
                (sym (
                  keep-keep-eq (λ y. not (member y seen)) (λ y. not (y == c.chunk_id))
                    (λ y. not (member y seen)) (other_than_seen c.chunk_id seen old) others)))
        | inr new ↦
            rw
              (
                new,
                keep-keep-eq (λ y. not (member y seen)) (λ y. not (y == c.chunk_id))
                    (λ y. not (member y (c.chunk_id ∷ seen))) (λ y. ground arith) others,
              )
              (elim (Bool-cases (id == c.chunk_id)) [
                | inl same ↦ rw same refl
                | inr other ↦ rw other (
                    unique_from-place id (c.chunk_id ∷ seen) (n + 1) cs
                    ∙ shifted_suc n (place id (unseen (c.chunk_id ∷ seen) others)))
              ])
      ]

  -- The rank of an id is its place among the distinct ids.
  pub unique_by_chunk-place :
      (id : Text) (cs : List (SearchCandidate F J))
      → dict_get id (rank_items (unique_by_chunk cs)) ≡ place id (distinct_ids (ids cs))
  unfolding unique_by_chunk
  unique_by_chunk-place id cs =
      unique_from-place id [] 0 cs
      ∙ shifted_zero (place id (unseen [] (distinct_ids (ids cs))))
      ∙ ap (place id) (keep_all (distinct_ids (ids cs)))
