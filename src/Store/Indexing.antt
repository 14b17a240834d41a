-- ===== src/Store/Indexing.antt =====
-- The calls that index a version, `replace_chunks`, `save_embeddings` and `publish_version` of
-- repositories.py, one after another.
use project_rag.Prelude.{
  ℕ, ◌≡◌, refl, sym, subst, ap, ◌∙◌, Text, some, List, [], ◌∷◌, ◌++◌, append_assoc, append-nil, map,
  Bool, true, false, not, ◌||◌, any, every, member, is_some, keep, keep-append, keep-All, keep-nil,
  keep-eq_self, All, All-map, length, nat_beq, list_eq, nat_eq, ◌==◌, eq_of_beq, beq_refl, ok,
  raise_if, >>=-eq-ok, ok-injective, Returned, Returned-bind, of-Returned, is_empty, strip,
  Bool-cases, inl, inr, arith, if◌then◌else◌,
}
use project_rag.Store.Rows.{DocumentVersion, Chunk, Store}
use project_rag.Store.Retrieval.{
  duplicate_key, no_text, duplicate_embedding, bad_vector, bad_dimensions, not_found,
}
use project_rag.Store.Jobs.{update}
use project_rag.Store.Changes.{
  version_has_id, get_version, version_chunks, with_versions, publish_version,
}
use project_rag.Store.Chunks.{
  SourceChunk, chunk_of_version, delete_for_version, chunk_row, chunk_rows, clashes_with,
  insert_chunks, replace_chunks, is_target, write_vectors, save_embeddings,
}
use project_rag.Store.Updates.{any-update, first-passes, taken-of-first, first-of-taken}
use project_rag.Store.Publication.{publish_version_iff}

module _ {A : Type 0} (p : A → Bool) where
  keep-update-length :
      (chosen : A → Bool) (change : A → A) (rows : List A)
      → ((row : A) → p (change row) ≡ p row)
      → length (keep p (update chosen change rows)) ≡ length (keep p rows)
  keep-update-length chosen change [] h = refl
  keep-update-length chosen change (row ∷ rows) h =
      ground (arith, h row, keep-update-length chosen change rows h)

module _ {F : Type 0} where
  -- A row of the version has a vector or waits for one of these ids.
  abbrev is_covered : Text → List Text → Chunk F → Bool
  is_covered id ids c = not (chunk_of_version id c) || is_some c.embedding || member c.id ids

  update-covered :
      (id head : Text) (ids : List Text) (vector : List F) (table : List (Chunk F))
      → All (λ c. is_covered id (head ∷ ids) c ≡ true) table
      → All
          (λ c. is_covered id ids c ≡ true)
          (update (is_target id head) (λ c. record c { embedding = some vector }) table)
  update-covered id head ids vector [] h = tt
  update-covered id head ids vector (c ∷ table) h = elim (Bool-cases (is_target id head c)) [
    | inl e ↦ rw e (ground (arith, e), update-covered id head ids vector table h.1)
    | inr e ↦ rw e (ground (arith, e, h.0), update-covered id head ids vector table h.1)
  ]

  insert_chunks-eq :
      (rows table : List (Chunk F)) {done : List (Chunk F)}
      → insert_chunks rows table ≡ ok done
      → done ≡ table ++ rows
  unfolding insert_chunks
  insert_chunks-eq [] table h = sym (ok-injective h) ∙ sym (append-nil table)
  insert_chunks-eq (c ∷ rows) table h =
      let (_, _, h) = >>=-eq-ok (raise_if (any (clashes_with c) table) duplicate_key) _ h in
      insert_chunks-eq rows (table ++ c ∷ []) h ∙ append_assoc table (c ∷ []) rows

  chunk_rows-All :
      (lower : Text → Text) (v : DocumentVersion) (sources : List SourceChunk)
      {rows : List (Chunk F)}
      → chunk_rows lower v sources ≡ ok rows
      → All (λ c. chunk_of_version v.id c ≡ true) rows
  unfolding chunk_rows chunk_row
  chunk_rows-All lower v [] h = subst (All _) (ok-injective h) tt
  chunk_rows-All lower v (source ∷ sources) h =
      let (row, made, h) = >>=-eq-ok (chunk_row lower v source) _ h in
      let (rest, others, h) = >>=-eq-ok (chunk_rows lower v sources) _ h in
      let (_, _, made) = >>=-eq-ok (raise_if (is_empty (strip source.text)) no_text) _ made in
      subst (All _) (ok-injective h) (
        subst (λ c. chunk_of_version v.id c ≡ true) (ok-injective made) (beq_refl v.id),
        chunk_rows-All lower v sources others,
      )

  -- The rows of a version after its chunks are replaced are the new ones.
  replaced-rows :
      (id : Text) (table rows : List (Chunk F))
      → All (λ c. chunk_of_version id c ≡ true) rows
      → keep (chunk_of_version id) (keep (λ c. not (chunk_of_version id c)) table ++ rows) ≡ rows
  replaced-rows id table rows h =
      let mine = chunk_of_version id in
      let others = keep (λ c. not (mine c)) table in
      rw
        (
          keep-append mine others rows,
          keep-nil mine others (
              All-map (λ c. not (mine c) ≡ true) (λ c. mine c ≡ false) (λ c e. ground (arith, e))
                others (keep-All (λ c. not (mine c)) table)),
        )
        (keep-eq_self mine rows h)

  write_vectors-covers :
      (is_finite : F → Bool) (id : Text) (dimensions : ℕ) (seen : List Text) (updated : ℕ)
      (pairs : List (Text × List F)) (table : List (Chunk F)) {n : ℕ} {done : List (Chunk F)}
      → write_vectors is_finite id dimensions seen updated pairs table ≡ ok (n, done)
      → All (λ c. is_covered id (map (λ p. p.0) pairs) c ≡ true) table
      → (length (keep (chunk_of_version id) done) ≡ length (keep (chunk_of_version id) table))
        × All (λ c. is_covered id [] c ≡ true) done
  unfolding write_vectors
  write_vectors-covers is_finite id dimensions seen updated [] table {n} {done} h k =
      let same = ap (λ r. r.1) (ok-injective h) in
      subst
        (λ t.
          (length (keep (chunk_of_version id) t) ≡ length (keep (chunk_of_version id) table))
          × All (λ c. is_covered id [] c ≡ true) t)
        same (refl, k)
  write_vectors-covers is_finite id dimensions seen updated ((head, vector) ∷ pairs) table h k =
      let (_, _, h) = >>=-eq-ok (raise_if (member head seen) duplicate_embedding) _ h in
      let (_, _, h) =
        >>=-eq-ok (raise_if (not (nat_beq (length vector) dimensions)) bad_vector) _ h in
      let (_, _, h) = >>=-eq-ok (raise_if (not (every is_finite vector)) bad_vector) _ h in
      let (_, _, h) = >>=-eq-ok (raise_if (not (any (is_target id head) table)) not_found) _ h in
      let (counted, covered) =
        write_vectors-covers is_finite id dimensions (head ∷ seen) _ pairs _ h
          (update-covered id head (map (λ p. p.0) pairs) vector table k) in
      (
        counted ∙ keep-update-length (chunk_of_version id) (is_target id head) _ table (λ c. refl),
        covered,
      )

  found_after :
      (id other : Text) (change : DocumentVersion → DocumentVersion) (s : Store F)
      (chunks : List (Chunk F)) {v : DocumentVersion}
      → ((v : DocumentVersion) → version_has_id id (change v) ≡ version_has_id id v)
      → get_version id s ≡ ok v
      → (w : DocumentVersion) × (get_version id
            (with_versions (version_has_id other) change (record s { chunks = chunks }))
          ≡ ok w)
  unfolding get_version
  found_after id other change s chunks keeps h = first-of-taken (version_has_id id) _ (
      any-update (version_has_id id) (version_has_id other) change s.versions keeps
      ∙ taken-of-first (version_has_id id) s.versions h)

  version-named :
      (id : Text) (s : Store F) {v : DocumentVersion}
      → get_version id s ≡ ok v
      → (v.id == id) ≡ true
  unfolding get_version
  version-named id s h = first-passes (version_has_id id) s.versions h

  covers :
      (id : Text) (ids : List Text) (table : List (Chunk F))
      → All (λ c. member c.id ids ≡ true) (keep (chunk_of_version id) table)
      → All (λ c. is_covered id ids c ≡ true) table
  covers id ids [] h = tt
  covers id ids (c ∷ table) h = elim (Bool-cases (chunk_of_version id c)) [
    | inl e ↦
        let k =
          subst
            (λ b.
              All (λ (c : Chunk F). member c.id ids ≡ true)
                (if b
                  then c ∷ keep (chunk_of_version id) table
                  else keep (chunk_of_version id) table))
            e h in
        (ground (arith, k.0), covers id ids table k.1)
    | inr e ↦
        let k =
          subst
            (λ b.
              All (λ (c : Chunk F). member c.id ids ≡ true)
                (if b
                  then c ∷ keep (chunk_of_version id) table
                  else keep (chunk_of_version id) table))
            e h in
        (ground (arith, e), covers id ids table k)
  ]

  vectors :
      (id : Text) (table : List (Chunk F))
      → All (λ c. is_covered id [] c ≡ true) table
      → All (λ c. is_some c.embedding ≡ true) (keep (chunk_of_version id) table)
  vectors id [] h = tt
  vectors id (c ∷ table) h = elim (Bool-cases (chunk_of_version id c)) [
    | inl e ↦ rw e (ground (arith, e, h.0), vectors id table h.1)
    | inr e ↦ rw e (vectors id table h.1)
  ]

  -- The version is there, and these are the rows of its chunks.
  abbrev HasRows : Text → List (Chunk F) × Store F → Type 0
  HasRows id r =
      ((v : DocumentVersion) × (get_version id r.1 ≡ ok v)) × (version_chunks id r.1 ≡ r.0)

  replace_chunks-HasRows :
      (lower : Text → Text) (id : Text) (sources : List SourceChunk) (s : Store F)
      → Returned (HasRows id) (replace_chunks lower id sources s)
  unfolding replace_chunks delete_for_version
  replace_chunks-HasRows lower id sources s =
      Returned-bind (HasRows id) (get_version id s) _ (λ v found.
        Returned-bind (HasRows id) (chunk_rows lower v sources) _ (λ rows made.
          Returned-bind (HasRows id) (insert_chunks rows (delete_for_version v.id s).chunks) _
            (λ table inserted.
              let same = eq_of_beq v.id id (version-named id s found) in
              let mine = chunk_rows-All lower v sources made in
              (
                found_after id v.id _ s table (λ v. refl) found,
                ap (keep (chunk_of_version id)) (insert_chunks-eq rows _ inserted)
                    ∙ subst
                        (λ i.
                          keep (chunk_of_version i)
                            (keep (λ c. not (chunk_of_version v.id c)) s.chunks ++ rows)
                          ≡ rows)
                        same (replaced-rows v.id s.chunks rows mine),
              ))))

  save_embeddings-ready :
      (is_finite : F → Bool) (schema : ℕ) (id : Text) (pairs : List (Text × List F))
      (dimensions : ℕ) (s : Store F) {v : DocumentVersion}
      → get_version id s ≡ ok v
      → All (λ c. member c.id (map (λ p. p.0) pairs) ≡ true) (version_chunks id s)
      → Returned
          (λ r.
            ((w : DocumentVersion) × (get_version id r.1 ≡ ok w))
            × (length (version_chunks id r.1) ≡ length (version_chunks id s))
            × All (λ c. is_some c.embedding ≡ true) (version_chunks id r.1))
          (save_embeddings is_finite schema id pairs dimensions s)
  unfolding save_embeddings
  save_embeddings-ready is_finite schema id pairs dimensions s found covered =
      Returned-bind _ (raise_if (not (nat_beq dimensions schema)) bad_dimensions) _ (λ _ _.
        Returned-bind _ (write_vectors is_finite id dimensions [] 0 pairs s.chunks) _ (λ r written.
          let (counted, filled) =
            write_vectors-covers is_finite id dimensions [] 0 pairs s.chunks written
              (covers id (map (λ p. p.0) pairs) s.chunks covered) in
          (found_after id id _ s r.1 (λ v. refl) found, counted, vectors id r.1 filled)))

  -- If the chunks of a version are replaced and vectors are then saved, with one among them for each
  -- of the new chunks, publication succeeds for the number of the new chunks.
  pub publish_after_save :
      (lower : Text → Text) (is_finite : F → Bool) (schema : ℕ) (id : Text)
      (sources : List SourceChunk) (pairs : List (Text × List F)) (dimensions now : ℕ) (s : Store F)
      {rows : List (Chunk F)} {n : ℕ} {replaced saved : Store F}
      → replace_chunks lower id sources s ≡ ok (rows, replaced)
      → save_embeddings is_finite schema id pairs dimensions replaced ≡ ok (n, saved)
      → All (λ c. member c.id (map (λ p. p.0) pairs) ≡ true) rows
      → (new : Store F) × (publish_version id (length rows) now saved ≡ ok new)
  publish_after_save lower is_finite schema id sources pairs dimensions now s {rows} {n} {replaced}
        {saved} h k covered =
      let ((v, found), mine) =
        of-Returned (HasRows id) (replace_chunks lower id sources s) h
          (replace_chunks-HasRows lower id sources s) in
      let (found, counted, filled) =
        of-Returned _ (save_embeddings is_finite schema id pairs dimensions replaced) k (
          save_embeddings-ready is_finite schema id pairs dimensions replaced found
            (subst (All (λ c. member c.id (map (λ p. p.0) pairs) ≡ true)) (sym mine) covered)) in
      (publish_version_iff id (length rows) now saved).1 (found, counted ∙ ap length mine, filled)
