-- ===== src/Store/Registration.antt =====
-- What `register_upload` and `create_version` of repositories.py promise of a repeated upload and of
-- the numbers of versions.
use project_rag.Prelude.{
  ℕ, ◌≡◌, ◌≢◌, Option-cases, refl, sym, subst, Text, Option, none, some, List, [], ◌∷◌, ◌++◌, map,
  Bool, true, false, not, any, keep, keep-All, All, All-keep, All-append, IsIn, append-All, concat,
  list_eq, nat_eq, ◌==◌, beq_refl, raise_if-ok, ok, raise_if, >>=-eq-ok, Bool-cases, inl, inr,
  arith, sort_by, insert_by, sort_by-All, All-of-keep-nil, ok-injective, Returned, Returned-bind,
  of-Returned,
}
use project_rag.Store.Rows.{Document, DocumentVersion, IngestionJob, Store}
use project_rag.Store.Retrieval.{bad_digest, duplicate_key}
use project_rag.Store.Jobs.{update, first_row, new_job, latest_for_version}
use project_rag.Store.Changes.{document_has_id}
use project_rag.Store.Uploads.{
  Upload, DrawnIds, UploadRegistration, joined, has_content, newer, find_by_content_hash,
  new_document, create_document, is_digest, clashes, the_document, next_version, with_version,
  create_version, create_job, registered, register_upload,
}

module _ {A : Type 0} where
  All-last : (P : A → Type 0) (xs : List A) (x : A) → All P (xs ++ x ∷ []) → P x
  All-last P [] x h = h.0
  All-last P (y ∷ xs) x h = All-last P xs x h.1

  update-last :
      (chosen : A → Bool) (change : A → A) (xs : List A) (x : A)
      → chosen x ≡ true
      → update chosen change (xs ++ x ∷ []) ≡ update chosen change xs ++ change x ∷ []
  update-last chosen change [] x h = rw h refl
  update-last chosen change (y ∷ xs) x h = ground (arith, update-last chosen change xs x h)

  insert_by-cons :
      (lt : A → A → Bool) (x : A) (ys : List A)
      → (z : A) × (zs : List A) × (insert_by lt x ys ≡ z ∷ zs)
  unfolding insert_by
  insert_by-cons lt x [] = (x, [], refl)
  insert_by-cons lt x (y ∷ ys) = elim (Bool-cases (lt y x)) [
    | inl e ↦ (y, insert_by lt x ys, rw e refl)
    | inr e ↦ (x, y ∷ ys, rw e refl)
  ]

  -- The first row of a sorted table is missing only if there is none.
  nil-of-first_row : (lt : A → A → Bool) (xs : List A) → first_row (sort_by lt xs) ≡ none → xs ≡ []
  unfolding sort_by
  nil-of-first_row lt [] h = refl
  nil-of-first_row lt (x ∷ xs) h =
      let (z, zs, e) = insert_by-cons lt x (sort_by lt xs) in
      absurd (cc (h, subst (λ l. first_row l ≡ some z) (sym e) refl))

  first_row-All : (P : A → Type 0) (xs : List A) {x : A} → first_row xs ≡ some x → All P xs → P x
  first_row-All P [] e h = cc
  first_row-All P (y ∷ xs) e h = subst P (ground (arith, e)) h.0

concat-last :
    {A B : Type 0} (P : B → Type 0) (f : A → List B) (xs : List A) (x : A)
    → All P (concat (map f (xs ++ x ∷ [])))
    → All P (f x)
concat-last P f [] x h = (append-All P (f x) [] h).0
concat-last P f (y ∷ xs) x h = concat-last P f xs x (append-All P (f y) _ h).1

map-last :
    {A B : Type 0} (P : B → Type 0) (f : A → B) (xs : List A) (x : A)
    → All P (map f (xs ++ x ∷ []))
    → P (f x)
map-last P f [] x h = h.0
map-last P f (y ∷ xs) x h = map-last P f xs x h.1

-- The last document and the last version are joined.
joined-last :
    (P : Document × DocumentVersion → Type 0) (ds : List Document) (d : Document)
    (vs : List DocumentVersion) (v : DocumentVersion)
    → All P (concat (map (λ v. map (λ d. (d, v)) (ds ++ d ∷ [])) (vs ++ v ∷ [])))
    → P (d, v)
joined-last P ds d vs v h = map-last P (λ d. (d, v)) ds d (concat-last P _ vs v h)

joined_with :
    (P : Document × DocumentVersion → Type 0) (v : DocumentVersion) (ds : List Document)
    → ((d : Document) → IsIn d ds → P (d, v))
    → All P (map (λ d. (d, v)) ds)
joined_with P v [] h = tt
joined_with P v (d ∷ ds) h = (h d (inl refl), joined_with P v ds (λ e i. h e (inr i)))

joined-All :
    (P : Document × DocumentVersion → Type 0) (ds : List Document) (vs : List DocumentVersion)
    → ((d : Document) (v : DocumentVersion) → IsIn d ds → IsIn v vs → P (d, v))
    → All P (concat (map (λ v. map (λ d. (d, v)) ds) vs))
joined-All P ds [] h = tt
joined-All P ds (v ∷ vs) h =
    All-append P (map (λ d. (d, v)) ds) _ (joined_with P v ds (λ d i. h d v i (inl refl)))
      (joined-All P ds vs (λ d w i j. h d w i (inr j)))

module _ {F : Type 0} where
  absent :
      (lower : Text → Text) (tenant collection hash : Text) (s : Store F)
      → find_by_content_hash lower tenant collection hash s ≡ none
      → All (λ r. has_content tenant collection (lower hash) r ≡ false) (joined s)
  unfolding find_by_content_hash
  absent lower tenant collection hash s h =
      All-of-keep-nil (has_content tenant collection (lower hash)) (joined s)
        (nil-of-first_row newer (keep (has_content tenant collection (lower hash)) (joined s)) h)

  found-content :
      (lower : Text → Text) (tenant collection hash : Text) (s : Store F)
      {row : Document × DocumentVersion}
      → find_by_content_hash lower tenant collection hash s ≡ some row
      → has_content tenant collection (lower hash) row ≡ true
  unfolding find_by_content_hash
  found-content lower tenant collection hash s h =
      let chosen = has_content tenant collection (lower hash) in
      first_row-All (λ r. chosen r ≡ true) (sort_by newer (keep chosen (joined s))) h
        (sort_by-All newer (λ r. chosen r ≡ true) (keep chosen (joined s))
          (keep-All chosen (joined s)))

  -- What is found is a document and a version of the store.
  found-stored :
      (lower : Text → Text) (tenant collection hash : Text) (s : Store F)
      {row : Document × DocumentVersion}
      → find_by_content_hash lower tenant collection hash s ≡ some row
      → IsIn row.0 s.documents × IsIn row.1 s.versions
  unfolding find_by_content_hash
  found-stored lower tenant collection hash s h =
      let chosen = has_content tenant collection (lower hash) in
      let P : Document × DocumentVersion → Type 0 =
        λ r. IsIn r.0 s.documents × IsIn r.1 s.versions in
      first_row-All P (sort_by newer (keep chosen (joined s))) h (
        sort_by-All newer P (keep chosen (joined s))
          (All-keep P chosen (joined s) (joined-All P s.documents s.versions (λ d v i j. (i, j)))))

  create_document-eq :
      (u : Upload) (id : Text) (now : ℕ) (s : Store F) {r : Document × Store F}
      → create_document u id now s ≡ ok r
      → r ≡ (
        new_document u id now,
        record s { documents = s.documents ++ new_document u id now ∷ [] },
      )
  unfolding create_document
  create_document-eq u id now s h =
      raise_if-ok (any (document_has_id id) s.documents) duplicate_key _ h

  pub create_version-eq :
      (lower : Text → Text) (document : Option Document) (of : Option Text) (u : Upload)
      (generation : ℕ) (id : Text) (now : ℕ) (s : Store F) {r : DocumentVersion × Store F}
      → create_version lower document of u generation id now s ≡ ok r
      → (d : Document) × (the_document document of s ≡ ok d)
        × (r ≡ (
          next_version lower d u generation id now s,
          with_version d (next_version lower d u generation id now s) s,
        ))
  unfolding create_version
  create_version-eq lower document of u generation id now s h =
      let (d, found, h) = >>=-eq-ok (the_document document of s) _ h in
      let (_, _, h) =
        >>=-eq-ok (raise_if (not (is_digest (lower u.content_hash))) bad_digest) _ h in
      let v = next_version lower d u generation id now s in
      (d, found, raise_if-ok (any (clashes v) s.versions) duplicate_key (v, with_version d v s) h)

  create_job-eq :
      (version_id id : Text) (now : ℕ) (s : Store F) {r : IngestionJob × Store F}
      → create_job version_id id now s ≡ ok r
      → r
        ≡ (new_job id version_id now, record s { jobs = s.jobs ++ new_job id version_id now ∷ [] })
  unfolding create_job
  create_job-eq version_id id now s h = raise_if-ok (any (λ j. j.id == id) s.jobs) duplicate_key _ h

  abbrev drafted : (Text → Text) → Upload → DrawnIds → ℕ → Store F → DocumentVersion
  drafted lower u ids now s =
      next_version lower (new_document u ids.document_id now) u 1 ids.version_id now s

  -- The documents and the versions end with those of an upload.
  EndsWith : Upload → DrawnIds → (Text → Text) → ℕ → Store F → UploadRegistration × Store F → Type 0
  EndsWith u ids lower now s r =
      ((ds : List Document) × (r.1.documents ≡ ds ++ new_document u ids.document_id now ∷ []))
      × ((vs : List DocumentVersion) × (r.1.versions ≡ vs ++ drafted lower u ids now s ∷ []))

  registered-EndsWith :
      (lower : Text → Text) (u : Upload) (ids : DrawnIds) (now : ℕ) (s : Store F)
      → Returned (EndsWith u ids lower now s) (registered lower u ids now s none)
  unfolding the_document EndsWith
  registered-EndsWith lower u ids now s =
      let P = EndsWith u ids lower now s in
      let doc = new_document u ids.document_id now in
      Returned-bind P (create_document u ids.document_id now s) _ (λ d made.
        rw (create_document-eq u ids.document_id now s made) (
          let s1 : Store F = record s { documents = s.documents ++ doc ∷ [] } in
          Returned-bind P (create_version lower (some doc) none u 1 ids.version_id now s1) _
            (λ v made.
              let (e, same, made) =
                create_version-eq lower (some doc) none u 1 ids.version_id now s1 made in
              rw (made, sym (ok-injective same))
                (let s2 = with_version doc (drafted lower u ids now s) s1 in
                  Returned-bind P (create_job (drafted lower u ids now s).id ids.job_id now s2) _
                    (λ j made.
                      rw (create_job-eq (drafted lower u ids now s).id ids.job_id now s2 made) (
                        (
                          _,
                          update-last (document_has_id doc.id) _ s.documents doc (beq_refl doc.id),
                        ),
                        (s.versions, refl),
                      ))))))

  matches-itself :
      (lower : Text → Text) (u : Upload) (ids : DrawnIds) (now : ℕ) (s : Store F)
      → has_content u.tenant_id u.collection_id
          (lower u.content_hash)
          (new_document u ids.document_id now, drafted lower u ids now s)
        ≡ true
  unfolding has_content
  matches-itself lower u ids now s =
      rw
        (
          beq_refl ids.document_id,
          beq_refl u.tenant_id,
          beq_refl u.collection_id,
          beq_refl (lower u.content_hash),
        )
        refl

  -- What was registered as new is found.
  EndsWith-found :
      (lower : Text → Text) (u : Upload) (ids : DrawnIds) (now : ℕ) (s : Store F)
      (r : UploadRegistration × Store F)
      → EndsWith u ids lower now s r
      → find_by_content_hash lower u.tenant_id u.collection_id u.content_hash r.1 ≢ none
  unfolding EndsWith
  EndsWith-found lower u ids now s r ((ds, documents), (vs, versions)) none_found =
      let all = absent lower u.tenant_id u.collection_id u.content_hash r.1 none_found in
      let P = λ (row : Document × DocumentVersion).
        has_content u.tenant_id u.collection_id (lower u.content_hash) row ≡ false in
      let last =
        joined-last P ds (new_document u ids.document_id now) vs (drafted lower u ids now s)
          (rw (sym documents, sym versions) all) in
      absurd (cc (matches-itself lower u ids now s, last))

  registered-found :
      (lower : Text → Text) (u : Upload) (ids : DrawnIds) (now : ℕ) (s : Store F)
      (found : Option (Document × DocumentVersion)) (made : UploadRegistration) (new : Store F)
      → find_by_content_hash lower u.tenant_id u.collection_id u.content_hash s ≡ found
      → registered lower u ids now s found ≡ ok (made, new)
      → find_by_content_hash lower u.tenant_id u.collection_id u.content_hash new ≢ none
  registered-found lower u ids now s (some row) made new found h none_found =
      cc (found, none_found, ok-injective h)
  registered-found lower u ids now s none made new found h none_found =
      EndsWith-found lower u ids now s (made, new)
        (of-Returned (EndsWith u ids lower now s) (registered lower u ids now s none) h
          (registered-EndsWith lower u ids now s))
        none_found

  -- After an upload that was registered, uploading content with the same digest, its letters in any
  -- case, to the same tenant and collection again, whatever the name and the ids that would be drawn,
  -- changes nothing: the registration is not a new one, and its version and document are stored ones
  -- with that content that are not deleted.
  pub register_upload-again :
      (lower : Text → Text) (u again : Upload) (ids drawn : DrawnIds) (now later : ℕ) (s : Store F)
      {made : UploadRegistration} {new : Store F}
      → register_upload lower u ids now s ≡ ok (made, new)
      → again.tenant_id ≡ u.tenant_id
      → again.collection_id ≡ u.collection_id
      → lower again.content_hash ≡ lower u.content_hash
      → (r : UploadRegistration) × (register_upload lower again drawn later new ≡ ok (r, new))
        × (r.created ≡ false)
        × IsIn r.document new.documents
        × IsIn r.version new.versions
        × (has_content u.tenant_id u.collection_id (lower u.content_hash) (r.document, r.version)
            ≡ true)
  unfolding register_upload find_by_content_hash
  register_upload-again lower u again ids drawn now later s {made} {new} h tenant collection
        digest =
      elim (Option-cases
        (find_by_content_hash lower u.tenant_id u.collection_id u.content_hash new)) [
          | inl e ↦ absurd (registered-found lower u ids now s _ made new refl h e)
          | inr ((d, v), e) ↦ (
            record {
              document = d;
              version = v;
              job = latest_for_version v.id new.jobs;
              created = false;
            },
            rw (tenant, collection, digest, e) refl,
            refl,
            (found-stored lower u.tenant_id u.collection_id u.content_hash new e).0,
            (found-stored lower u.tenant_id u.collection_id u.content_hash new e).1,
            found-content lower u.tenant_id u.collection_id u.content_hash new e,
          )
        ]
