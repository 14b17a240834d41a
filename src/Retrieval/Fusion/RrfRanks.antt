-- ===== src/Retrieval/Fusion/RrfRanks.antt =====
-- Which candidates `reciprocal_rank_fusion` of fusion.py fuses, and the ranks that they carry.
use project_rag.Prelude.{
  ℕ, ◌+◌, ◌≡◌, refl, ap, ◌∙◌, Text, Option, none, some, List, [], ◌∷◌, false, not, ◌&&◌, ◌||◌,
  member, Distinct, All, list_eq, nat_eq, ◌==◌, list_beq_iff, dict_get, dict_set, dict_keys,
  dict_get-set, dict_get_absent, member-keys-set, member-keys-default, Distinct-keys-set,
  Distinct-keys-default, arith, Bool-cases, inl, inr, beq_refl,
}
use project_rag.Prelude.Floats.{Floats}
use project_rag.Retrieval.Models.{SearchCandidate, RankedCandidate}
use project_rag.Retrieval.Fusion.Places.{
  ids, rank_items, distinct_ids, place, unique_by_chunk-place,
}
use project_rag.Retrieval.Fusion.Rrf.{
  unique_from, unique_by_chunk, Tables, add_dense, add_lexical, dense_step, lexical_step,
  empty_tables, tables_of, fuse_one,
}

abbrev or_else : Option ℕ → Option ℕ → Option ℕ
or_else none b = b
or_else (some a) b = some a

-- The step of both loops for the table of ranks.
rank_step :
    (j : Text) (rank : ℕ) (id : Text) (items d : List (Text × ℕ))
    → member id (dict_keys items) ≡ false
    → or_else (dict_get j items) (dict_get j (dict_set id rank d))
      ≡ or_else (dict_get j ((id, rank) ∷ items)) (dict_get j d)
unfolding dict_get
rank_step j rank id items d new = elim (Bool-cases (j == id)) [
  | inl same ↦
      let e : j ≡ id = (list_beq_iff j id).0 same in
      rw (dict_get-set id j rank d, same)
        (ap (λ o. or_else o (some rank)) (dict_get_absent j items (rw e new)))
  | inr other ↦ rw (dict_get-set id j rank d, other) refl
]

module _ {F J : Type 0} where
  abbrev unique_ids : List (ℕ × SearchCandidate F J) → List Text
  unique_ids us = dict_keys (rank_items us)

  member-unique_from :
      (j : Text) (seen : List Text) (n : ℕ) (cs : List (SearchCandidate F J))
      → member j (unique_ids (unique_from seen n cs)) ≡ (member j (ids cs) && not (member j seen))
  unfolding unique_from
  member-unique_from j seen n [] = refl
  member-unique_from j seen n (c ∷ cs) = elim (Bool-cases (member c.chunk_id seen)) [
    | inl old ↦
        rw old (ground (arith, list_beq_iff j c.chunk_id, old, member-unique_from j seen n cs))
    | inr new ↦ rw new (
        ground (
          arith,
          list_beq_iff j c.chunk_id,
          new,
          member-unique_from j (c.chunk_id ∷ seen) (n + 1) cs,
        ))
  ]

  unique_from-Distinct :
      (seen : List Text) (n : ℕ) (cs : List (SearchCandidate F J))
      → Distinct (unique_ids (unique_from seen n cs))
  unfolding unique_from
  unique_from-Distinct seen n [] = tt
  unique_from-Distinct seen n (c ∷ cs) = elim (Bool-cases (member c.chunk_id seen)) [
    | inl old ↦ rw old (unique_from-Distinct seen n cs)
    | inr new ↦ rw new (
      ground (
        arith,
        member-unique_from c.chunk_id (c.chunk_id ∷ seen) (n + 1) cs,
        beq_refl c.chunk_id,
      ),
      unique_from-Distinct (c.chunk_id ∷ seen) (n + 1) cs,
    )
  ]

  dense_ranks-add_dense :
      (j : Text) (t : Tables F J) (us : List (ℕ × SearchCandidate F J))
      → Distinct (unique_ids us)
      → dict_get j (add_dense t us).dense_ranks
        ≡ or_else (dict_get j (rank_items us)) (dict_get j t.dense_ranks)
  unfolding add_dense
  dense_ranks-add_dense j t [] h = unfold dict_get in refl
  dense_ranks-add_dense j t ((rank, c) ∷ us) h =
      dense_ranks-add_dense j (dense_step t rank c) us h.1
      ∙ rank_step j rank c.chunk_id (rank_items us) t.dense_ranks h.0

  lexical_ranks-add_dense :
      (t : Tables F J) (us : List (ℕ × SearchCandidate F J))
      → (add_dense t us).lexical_ranks ≡ t.lexical_ranks
  unfolding add_dense
  lexical_ranks-add_dense t [] = refl
  lexical_ranks-add_dense t ((rank, c) ∷ us) = lexical_ranks-add_dense (dense_step t rank c) us

  lexical_ranks-add_lexical :
      (j : Text) (t : Tables F J) (us : List (ℕ × SearchCandidate F J))
      → Distinct (unique_ids us)
      → dict_get j (add_lexical t us).lexical_ranks
        ≡ or_else (dict_get j (rank_items us)) (dict_get j t.lexical_ranks)
  unfolding add_lexical
  lexical_ranks-add_lexical j t [] h = unfold dict_get in refl
  lexical_ranks-add_lexical j t ((rank, c) ∷ us) h =
      lexical_ranks-add_lexical j (lexical_step t rank c) us h.1
      ∙ rank_step j rank c.chunk_id (rank_items us) t.lexical_ranks h.0

  dense_ranks-add_lexical :
      (t : Tables F J) (us : List (ℕ × SearchCandidate F J))
      → (add_lexical t us).dense_ranks ≡ t.dense_ranks
  unfolding add_lexical
  dense_ranks-add_lexical t [] = refl
  dense_ranks-add_lexical t ((rank, c) ∷ us) = dense_ranks-add_lexical (lexical_step t rank c) us

  keys-add_dense :
      (j : Text) (t : Tables F J) (us : List (ℕ × SearchCandidate F J))
      → member j (dict_keys (add_dense t us).by_id)
        ≡ (member j (unique_ids us) || member j (dict_keys t.by_id))
  unfolding add_dense
  keys-add_dense j t [] = refl
  keys-add_dense j t ((rank, c) ∷ us) =
      keys-add_dense j (dense_step t rank c) us
      ∙ ground (arith, member-keys-set c.chunk_id j c t.by_id)

  keys-add_lexical :
      (j : Text) (t : Tables F J) (us : List (ℕ × SearchCandidate F J))
      → member j (dict_keys (add_lexical t us).by_id)
        ≡ (member j (unique_ids us) || member j (dict_keys t.by_id))
  unfolding add_lexical
  keys-add_lexical j t [] = refl
  keys-add_lexical j t ((rank, c) ∷ us) =
      keys-add_lexical j (lexical_step t rank c) us
      ∙ ground (arith, member-keys-default c.chunk_id j c t.by_id)

  Distinct-add_dense :
      (t : Tables F J) (us : List (ℕ × SearchCandidate F J))
      → Distinct (dict_keys t.by_id)
      → Distinct (dict_keys (add_dense t us).by_id)
  unfolding add_dense
  Distinct-add_dense t [] h = h
  Distinct-add_dense t ((rank, c) ∷ us) h =
      Distinct-add_dense (dense_step t rank c) us (Distinct-keys-set c.chunk_id c t.by_id h)

  Distinct-add_lexical :
      (t : Tables F J) (us : List (ℕ × SearchCandidate F J))
      → Distinct (dict_keys t.by_id)
      → Distinct (dict_keys (add_lexical t us).by_id)
  unfolding add_lexical
  Distinct-add_lexical t [] h = h
  Distinct-add_lexical t ((rank, c) ∷ us) h =
      Distinct-add_lexical (lexical_step t rank c) us (Distinct-keys-default c.chunk_id c t.by_id h)

module _ (fl : Floats) {J : Type 0} (dw lw constant : fl.Float)
    (dense lexical : List (SearchCandidate fl.Float J)) where
  abbrev t : Tables fl.Float J
  t = tables_of dense lexical

  -- A fused entry, by the id that it was filed under: its two ranks are the places of that id among
  -- the distinct ids of the two lists, or missing.
  abbrev pub HasRanks : Text → RankedCandidate fl.Float J → Type 0
  HasRanks id r =
      (r.dense_rank ≡ place id (distinct_ids (ids dense)))
      × (r.lexical_rank ≡ place id (distinct_ids (ids lexical)))

  or_else-none : (o : Option ℕ) → or_else o none ≡ o
  or_else-none none = refl
  or_else-none (some a) = refl

  ranks_of :
      (id : Text)
      → (dict_get id t.dense_ranks ≡ place id (distinct_ids (ids dense)))
        × (dict_get id t.lexical_ranks ≡ place id (distinct_ids (ids lexical)))
  unfolding tables_of unique_by_chunk
  ranks_of id =
      let ud = unique_by_chunk dense in
      let ul = unique_by_chunk lexical in
      let base = add_dense empty_tables ud in
      (
        ap (dict_get id) (dense_ranks-add_lexical base ul)
            ∙ dense_ranks-add_dense id empty_tables ud (unique_from-Distinct [] 0 dense)
            ∙ unfold dict_get in
              or_else-none (dict_get id (rank_items ud)) ∙ unique_by_chunk-place id dense,
        lexical_ranks-add_lexical id base ul (unique_from-Distinct [] 0 lexical)
            ∙ ap (λ l. or_else (dict_get id (rank_items ul)) (dict_get id l))
                (lexical_ranks-add_dense empty_tables ud)
            ∙ unfold dict_get in
              or_else-none (dict_get id (rank_items ul)) ∙ unique_by_chunk-place id lexical,
      )

  map-HasRanks :
      (entries : List (Text × SearchCandidate fl.Float J))
      → All (λ e. HasRanks e.0 (fuse_one fl dw lw constant t e)) entries
  unfolding fuse_one
  map-HasRanks [] = tt
  map-HasRanks ((id, c) ∷ entries) = (ranks_of id, map-HasRanks entries)

  -- Fusion files every chunk id of the two lists, and no other, exactly once, and the ranks of the
  -- entry filed under an id are the places of that id, counted from one, among the distinct ids of
  -- each list in the order of their first occurrence, or missing where the list has not the id.
  pub rrf_entries :
      Distinct (dict_keys t.by_id)
      × ((id : Text)
          → member id (dict_keys t.by_id) ≡ (member id (ids dense) || member id (ids lexical)))
      × All (λ e. HasRanks e.0 (fuse_one fl dw lw constant t e)) t.by_id
  unfolding tables_of unique_by_chunk
  rrf_entries =
      let ud = unique_by_chunk dense in
      let ul = unique_by_chunk lexical in
      let base = add_dense empty_tables ud in
      (
        Distinct-add_lexical base ul (Distinct-add_dense empty_tables ud tt),
        (λ id. ground (
          arith,
          keys-add_lexical id base ul,
          keys-add_dense id empty_tables ud,
          member-unique_from id [] 0 dense,
          member-unique_from id [] 0 lexical,
        )),
        map-HasRanks t.by_id,
      )
