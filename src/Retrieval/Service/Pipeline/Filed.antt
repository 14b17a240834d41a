-- ===== src/Retrieval/Service/Pipeline/Filed.antt =====
-- A property of all candidates through the dictionaries of fusion.py and the lists of the ranking.
use project_rag.Prelude.{
  ℕ, ◌+◌, Text, Option, none, some, List, [], ◌∷◌, map, Bool, member, All, All-take, list_eq,
  nat_eq, ◌==◌, Eq, Bool-cases, inl, inr, dict_set, dict_default,
}
use project_rag.Retrieval.Models.{SearchCandidate, RankedCandidate}
use project_rag.Retrieval.Fusion.Rrf.{
  unique_from, Tables, dense_step, lexical_step, add_dense, add_lexical, cut_to,
}
use project_rag.Retrieval.Service.Search.{rank}
use project_rag.Retrieval.Diversity.{best_by, remove}
use project_rag.Retrieval.Diversity.Caps.{best_by-holds}

module _ {F J : Type 0} (P : SearchCandidate F J → Type 0) where
  abbrev pub Holds : Text × SearchCandidate F J → Type 0
  Holds e = P e.1

  pub unique_from-All :
      (seen : List Text) (rank : ℕ) (cs : List (SearchCandidate F J))
      → All P cs
      → All (λ e. P e.1) (unique_from seen rank cs)
  unfolding unique_from
  unique_from-All seen rank [] h = tt
  unique_from-All seen rank (c ∷ cs) h = elim (Bool-cases (member c.chunk_id seen)) [
    | inl e ↦ rw e (unique_from-All seen rank cs h.1)
    | inr e ↦ rw e (h.0, unique_from-All (c.chunk_id ∷ seen) (rank + 1) cs h.1)
  ]

  pub dict_set-All :
      (k : Text) (c : SearchCandidate F J) (d : List (Text × SearchCandidate F J))
      → P c
      → All Holds d
      → All Holds (dict_set k c d)
  unfolding dict_set
  dict_set-All k c [] h g = (h, tt)
  dict_set-All k c ((j, b) ∷ d) h g = elim (Bool-cases (k == j)) [
    | inl e ↦ rw e (h, g.1)
    | inr e ↦ rw e (g.0, dict_set-All k c d h g.1)
  ]

  pub dict_default-All :
      (k : Text) (c : SearchCandidate F J) (d : List (Text × SearchCandidate F J))
      → P c
      → All Holds d
      → All Holds (dict_default k c d)
  unfolding dict_default
  dict_default-All k c [] h g = (h, tt)
  dict_default-All k c ((j, b) ∷ d) h g = elim (Bool-cases (k == j)) [
    | inl e ↦ rw e g
    | inr e ↦ rw e (g.0, dict_default-All k c d h g.1)
  ]

  pub add_dense-All :
      (t : Tables F J) (cs : List (ℕ × SearchCandidate F J))
      → All Holds t.by_id
      → All (λ e. P e.1) cs
      → All Holds (add_dense t cs).by_id
  unfolding add_dense
  add_dense-All t [] h g = h
  add_dense-All t ((rank, c) ∷ cs) h g =
      add_dense-All (dense_step t rank c) cs (dict_set-All c.chunk_id c t.by_id g.0 h) g.1

  pub add_lexical-All :
      (t : Tables F J) (cs : List (ℕ × SearchCandidate F J))
      → All Holds t.by_id
      → All (λ e. P e.1) cs
      → All Holds (add_lexical t cs).by_id
  unfolding add_lexical
  add_lexical-All t [] h g = h
  add_lexical-All t ((rank, c) ∷ cs) h g =
      add_lexical-All (lexical_step t rank c) cs (dict_default-All c.chunk_id c t.by_id g.0 h) g.1

  abbrev pub HoldsRanked : RankedCandidate F J → Type 0
  HoldsRanked r = P r.candidate

  pub best_by-All :
      (lt : RankedCandidate F J → RankedCandidate F J → Bool) (best : RankedCandidate F J)
      (xs : List (RankedCandidate F J))
      → All HoldsRanked (best ∷ xs)
      → P (best_by lt best xs).candidate
  best_by-All lt best xs h = best_by-holds HoldsRanked lt best xs h.0 h.1

  pub remove-All :
      ⦃e : Eq (RankedCandidate F J)⦄ (x : RankedCandidate F J) (ys : List (RankedCandidate F J))
      → All HoldsRanked ys
      → All HoldsRanked (remove x ys)
  unfolding remove
  remove-All x [] h = tt
  remove-All x (y ∷ ys) h = elim (Bool-cases (x == y)) [
    | inl e ↦ rw e h.1
    | inr e ↦ rw e (h.0, remove-All x ys h.1)
  ]

  pub cut_to-All :
      (limit : Option ℕ) (rs : List (RankedCandidate F J))
      → All HoldsRanked rs
      → All HoldsRanked (cut_to limit rs)
  cut_to-All none rs h = h
  cut_to-All (some n) rs h = All-take HoldsRanked n rs h

  pub map-All :
      (f : Text × SearchCandidate F J → RankedCandidate F J)
      → ((e : Text × SearchCandidate F J) → P e.1 → P (f e).candidate)
      → (d : List (Text × SearchCandidate F J)) → All Holds d
      → All HoldsRanked (map f d)
  map-All f k [] h = tt
  map-All f k (e ∷ d) h = (k e h.0, map-All f k d h.1)
