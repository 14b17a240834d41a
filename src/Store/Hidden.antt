-- ===== src/Store/Hidden.antt =====
-- A document of repositories.py that is marked for deletion stays marked, whatever calls follow.
use project_rag.Prelude.{
  ℕ, ◌≡◌, refl, ap, ◌∙◌, Text, Option, none, some, List, [], ◌∷◌, Bool, true, false, not, ◌||◌, any,
  is_some, keep, All, All-append, list_eq, nat_eq, ◌==◌, eq_of_beq, Result, raise_if-false,
  Returned, Returned-bind, of-Returned, ok, raise, raise_if, ◌>>=◌, Bool-cases, inl, inr, arith,
  length, nat_beq,
}
use project_rag.Store.Rows.{
  DocumentStatus, VersionStatus, JobStatus, JobStage, IngestionJob, Document, DocumentVersion,
  Store,
}
use project_rag.Store.Retrieval.{
  StoreError, missing_vectors, count_mismatch, bad_digest, bad_dimensions, duplicate_key,
}
use project_rag.Store.Jobs.{update, latest_for_version}
use project_rag.Store.Changes.{
  document_has_id, get_document, get_version, retired, retire, time_or, mark_deleting, mark_deleted,
  with_latest_job, set_status, publish_version, version_chunks,
}
use project_rag.Store.Uploads.{
  Upload, DrawnIds, create_document, the_document, create_version, create_job, is_digest, clashes,
  next_version, find_by_content_hash, registered, register_upload,
}
use project_rag.Store.Chunks.{
  replace_chunks, save_embeddings, chunk_rows, insert_chunks, delete_for_version, write_vectors,
}
use project_rag.Store.History.{Change, Platform, perform, committed, run}
use project_rag.Store.Updates.{update-All, any-update, any-append, taken-of-first}

-- A document that carries the id is marked as deleted.
abbrev pub is_hidden : Text → Document → Bool
is_hidden id d = not (document_has_id id d) || is_some d.deleted_at

update-hidden :
    (id : Text) (status : DocumentStatus) (time : ℕ) (rows : List Document)
    → All (λ d. is_hidden id d ≡ true) (update (document_has_id id) (retired status time) rows)
update-hidden id status time [] = tt
update-hidden id status time (d ∷ rows) = elim (Bool-cases (document_has_id id d)) [
  | inl e ↦ rw e (ground arith, update-hidden id status time rows)
  | inr e ↦ rw e (ground (arith, e), update-hidden id status time rows)
]

-- The id is taken, and by documents that are marked as deleted.
abbrev pub AreHidden : Text → List Document → Type 0
AreHidden id ds = (any (document_has_id id) ds ≡ true) × All (λ d. is_hidden id d ≡ true) ds

AreHidden-update :
    (id : Text) (chosen : Document → Bool) (change : Document → Document) (ds : List Document)
    → ((d : Document) → document_has_id id (change d) ≡ document_has_id id d)
    → ((d : Document) → is_hidden id d ≡ true → is_hidden id (change d) ≡ true)
    → AreHidden id ds
    → AreHidden id (update chosen change ds)
AreHidden-update id chosen change ds keeps hides (taken, hidden) = (
  any-update (document_has_id id) chosen change ds keeps ∙ taken,
  update-All (λ d. is_hidden id d ≡ true) chosen change ds hides hidden,
)

other-of-free :
    (id new : Text) (ds : List Document)
    → any (document_has_id id) ds ≡ true
    → any (document_has_id new) ds ≡ false
    → (new == id) ≡ false
other-of-free id new ds taken free = elim (Bool-cases (new == id)) [
  | inr e ↦ e
  | inl e ↦ absurd (cc (taken, free, ap (λ a. any (document_has_id a) ds) (eq_of_beq new id e)))
]

module _ {F : Type 0} where
  unfoldable pub Hidden : Text → Store F → Type 0
  Hidden id s = AreHidden id s.documents

  abbrev new_store : {A : Type 0} → A × Store F → Store F
  new_store r = r.1

  -- What a call leaves, if it returns.
  abbrev pub Leaves : {A : Type 0} → Text → (A → Store F) → Result StoreError A → Type 0
  Leaves id store r = Returned (λ a. Hidden id (store a)) r

  Leaves-bind :
      {A B : Type 0} (id : Text) (store : B → Store F) (m : Result StoreError A)
      (f : A → Result StoreError B)
      → ((a : A) → m ≡ ok a → Leaves id store (f a))
      → Leaves id store (m >>= f)
  Leaves-bind id store m f h = Returned-bind (λ b. Hidden id (store b)) m f h

  committed-Hidden :
      (id : Text) (s : Store F) (r : Result StoreError (Store F))
      → Hidden id s
      → Leaves id (λ new. new) r
      → Hidden id (committed s r)
  committed-Hidden id s (ok new) h k = k
  committed-Hidden id s (raise e) h k = h

  of-Leaves :
      {A : Type 0} (id : Text) (store : A → Store F) (r : Result StoreError A) {a : A}
      → r ≡ ok a
      → Leaves id store r
      → Hidden id (store a)
  of-Leaves id store r e h = of-Returned (λ a. Hidden id (store a)) r e h

  pub mark_deleting-Hidden :
      (id : Text) (now : ℕ) (s : Store F) {new : Store F}
      → mark_deleting id now s ≡ ok new
      → Hidden id new
  unfolding mark_deleting get_document Hidden
  mark_deleting-Hidden id now s {new} h =
      of-Leaves id (λ r. r) (mark_deleting id now s) h
        (Leaves-bind id (λ r. r) (get_document id s) _
          (λ d found. (
            any-update (document_has_id id) (document_has_id id) _ s.documents (λ d. refl)
                ∙ taken-of-first (document_has_id id) s.documents found,
            update-hidden id DocumentStatus.deleting now s.documents,
          )))

  retire-Hidden :
      (id other : Text) (status : DocumentStatus) (version_status : VersionStatus) (time : ℕ)
      (s : Store F)
      → Hidden id s
      → Hidden id (retire other status version_status time s)
  unfolding Hidden
  retire-Hidden id other status version_status time s h =
      AreHidden-update id (document_has_id other) (retired status time) s.documents (λ d. refl)
        (λ d k. ground arith) h

  with_latest_job-Hidden :
      (id : Text) (job : Option IngestionJob) (stage : JobStage → JobStage) (status : JobStatus)
      (code message : Option Text) (now : ℕ) (s : Store F)
      → Hidden id s
      → Hidden id (with_latest_job job stage status code message now s)
  unfolding Hidden
  with_latest_job-Hidden id none stage status code message now s h = h
  with_latest_job-Hidden id (some job) stage status code message now s h = h

  create_document-Hidden :
      (id : Text) (u : Upload) (new : Text) (now : ℕ) (s : Store F)
      → Hidden id s
      → Leaves id new_store (create_document u new now s)
  unfolding create_document Hidden
  create_document-Hidden id u new now s h =
      Leaves-bind id new_store (raise_if (any (document_has_id new) s.documents) duplicate_key) _
        (λ _ free.
          let other = other-of-free id new s.documents h.0 (raise_if-false _ _ free) in
          (
            any-append (document_has_id id) s.documents _ ∙ ground (arith, h.0),
            All-append (λ d. is_hidden id d ≡ true) s.documents _ h.1 (ground (arith, other), tt),
          ))

  create_version-Hidden :
      (id : Text) (lower : Text → Text) (d : Option Document) (of : Option Text) (u : Upload)
      (generation : ℕ) (new : Text) (now : ℕ) (s : Store F)
      → Hidden id s
      → Leaves id new_store (create_version lower d of u generation new now s)
  unfolding create_version Hidden
  create_version-Hidden id lower d of u generation new now s h =
      Leaves-bind id new_store (the_document d of s) _ (λ d _.
        Leaves-bind id new_store (raise_if (not (is_digest (lower u.content_hash))) bad_digest) _
          (λ _ _.
            Leaves-bind id new_store
              (raise_if (any (clashes (next_version lower d u generation new now s)) s.versions)
                duplicate_key)
              _
              (λ _ _.
                AreHidden-update id (document_has_id d.id) _ s.documents (λ d. refl) (λ d k. k) h)))

  create_job-Hidden :
      (id version_id new : Text) (now : ℕ) (s : Store F)
      → Hidden id s
      → Leaves id new_store (create_job version_id new now s)
  unfolding create_job Hidden
  create_job-Hidden id version_id new now s h =
      Leaves-bind id new_store (raise_if (any (λ j. j.id == new) s.jobs) duplicate_key) _ (λ _ _. h)

  registered-Hidden :
      (id : Text) (lower : Text → Text) (u : Upload) (ids : DrawnIds) (now : ℕ) (s : Store F)
      (found : Option (Document × DocumentVersion))
      → Hidden id s
      → Leaves id new_store (registered lower u ids now s found)
  registered-Hidden id lower u ids now s (some (d, v)) h = h
  registered-Hidden id lower u ids now s none h =
      Leaves-bind id new_store (create_document u ids.document_id now s) _ (λ d made.
        let h =
          of-Leaves id new_store _ made (create_document-Hidden id u ids.document_id now s h) in
        Leaves-bind id new_store (create_version lower (some d.0) none u 1 ids.version_id now d.1) _
          (λ v made.
            let h =
              of-Leaves id new_store _ made
                (create_version-Hidden id lower (some d.0) none u 1 ids.version_id now d.1 h) in
            Leaves-bind id new_store (create_job v.0.id ids.job_id now v.1) _ (λ j made.
              of-Leaves id new_store _ made (create_job-Hidden id v.0.id ids.job_id now v.1 h))))

  abbrev embedded : Text → Store F → ℕ
  embedded id s = length (keep (λ c. is_some c.embedding) (version_chunks id s))

  pub perform-Hidden :
      (p : Platform F) (id : Text) (change : Change F) (s : Store F)
      → Hidden id s
      → Leaves id (λ new. new) (perform p change s)
  unfolding Hidden mark_deleting mark_deleted set_status publish_version register_upload
      replace_chunks save_embeddings
  perform-Hidden p id (Change.upload u ids now) s h =
      let found = find_by_content_hash p.lower u.tenant_id u.collection_id u.content_hash s in
      Leaves-bind id (λ r. r) (registered p.lower u ids now s found) _
        (λ done made.
          of-Leaves id new_store _ made (registered-Hidden id p.lower u ids now s found h))
  perform-Hidden p id (Change.replace other sources) s h =
      Leaves-bind id (λ r. r) (replace_chunks p.lower other sources s) _
        (λ done made. of-Leaves id new_store _ made (
          Leaves-bind id new_store (get_version other s) _ (λ v _.
            Leaves-bind id new_store (chunk_rows p.lower v sources) _ (λ rows _.
              Leaves-bind id new_store (insert_chunks rows (delete_for_version v.id s).chunks) _
                (λ table _. h)))))
  perform-Hidden p id (Change.save other vectors dimensions) s h =
      Leaves-bind id (λ r. r) (save_embeddings p.is_finite p.schema other vectors dimensions s) _
        (λ done made. of-Leaves id new_store _ made (
          Leaves-bind id new_store (raise_if (not (nat_beq dimensions p.schema)) bad_dimensions) _
            (λ _ _.
              Leaves-bind id new_store
                (write_vectors p.is_finite other dimensions [] 0 vectors s.chunks) _
                (λ written _. h))))
  perform-Hidden p id (Change.deleting other now) s h =
      Leaves-bind id (λ r. r) (get_document other s) _
        (λ d _. retire-Hidden id other DocumentStatus.deleting VersionStatus.deleting now s h)
  perform-Hidden p id (Change.deleted other now) s h =
      Leaves-bind id (λ r. r) (get_document other s) _
        (λ d _.
          retire-Hidden id other DocumentStatus.deleted VersionStatus.deleted
            (time_or d.deleted_at now) s h)
  perform-Hidden p id (Change.status other next code message now) s h =
      Leaves-bind id (λ r. r) (get_version other s) _
        (λ v _. with_latest_job-Hidden id (latest_for_version other s.jobs) _ _ code message now _ (
          AreHidden-update id (document_has_id v.document_id) _ s.documents (λ d. refl) (λ d k. k)
            h))
  perform-Hidden p id (Change.publish other expected now) s h =
      Leaves-bind id (λ r. r) (get_version other s) _
        (λ v _.
          Leaves-bind id (λ r. r)
            (raise_if (not (nat_beq (length (version_chunks other s)) expected)) count_mismatch) _
            (λ _ _.
              Leaves-bind id (λ r. r)
                (raise_if (not (nat_beq (embedded other s) (length (version_chunks other s))))
                  missing_vectors)
                _
                (λ _ _.
                  with_latest_job-Hidden id (latest_for_version other s.jobs) _ _ none none now _ (
                    AreHidden-update id (document_has_id v.document_id) _ s.documents (λ d. refl)
                      (λ d k. k) h))))

  pub run-Hidden :
      (p : Platform F) (id : Text) (changes : List (Change F)) (s : Store F)
      → Hidden id s
      → Hidden id (run p changes s)
  unfolding run
  run-Hidden p id [] s h = h
  run-Hidden p id (change ∷ changes) s h =
      run-Hidden p id changes (committed s (perform p change s))
        (committed-Hidden id s (perform p change s) h (perform-Hidden p id change s h))
