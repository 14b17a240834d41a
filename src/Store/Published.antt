-- ===== src/Store/Published.antt =====
-- What `publish_version` of repositories.py leaves.
use project_rag.Prelude.{
  ℕ, ◌≡◌, refl, subst, ap, Text, Option, none, some, List, [], ◌∷◌, Bool, true, false, not, ◌&&◌,
  ◌||◌, option_eq, is_some, keep, All, length, nat_beq, list_eq, nat_eq, ◌==◌, beq_refl, ok,
  raise_if, if◌then◌else◌, Returned, Returned-bind, raise_if-false, ok-injective, Bool-cases, inl,
  inr, arith,
}
use project_rag.Store.Rows.{
  VersionStatus, JobStatus, JobStage, Document, DocumentVersion, IngestionJob, Store,
  document_is_ready,
}
use project_rag.Store.Retrieval.{count_mismatch, missing_vectors}
use project_rag.Store.Jobs.{update, latest_for_version}
use project_rag.Store.Changes.{
  first, document_has_id, version_has_id, get_version, version_chunks, with_latest_job,
  publish_version,
}

first-update :
    {A : Type 0} (p : A → Bool) (change : A → A) (rows : List A) {row : A}
    → ((r : A) → p (change r) ≡ p r)
    → first (keep p rows) ≡ ok row
    → first (keep p (update p change rows)) ≡ ok (change row)
first-update p change [] same h = cc
first-update p change (r ∷ rows) {row} same h = elim (Bool-cases (p r)) [
  | inl e ↦
      let found =
        ok-injective
          (subst (λ b. first (if b then r ∷ keep p rows else keep p rows) ≡ ok row) e h) in
      rw (e, same r, e) (ap (λ a. ok (change a)) found)
  | inr e ↦
      rw (e, e)
        (first-update p change rows same
          (subst (λ b. first (if b then r ∷ keep p rows else keep p rows) ≡ ok row) e h))
]

update-chosen :
    {A : Type 0} (p q : A → Bool) (change : A → A) (rows : List A)
    → ((r : A) → p r ≡ true → q (change r) ≡ true)
    → ((r : A) → p r ≡ false → q r ≡ true)
    → All (λ r. q r ≡ true) (update p change rows)
update-chosen p q change [] h k = tt
update-chosen p q change (r ∷ rows) h k = elim (Bool-cases (p r)) [
  | inl e ↦ rw e (h r e, update-chosen p q change rows h k)
  | inr e ↦ rw e (k r e, update-chosen p q change rows h k)
]

-- A document other than the version's, or one that is ready and current with this version.
abbrev pub shows : DocumentVersion → Text → Document → Bool
shows v id d =
    not (document_has_id v.document_id d)
    || (document_is_ready d.status && d.current_version_id == some id)

module _ {F : Type 0} where
  -- The version is ready and its document shows it; it has so many chunks, which are all counted as
  -- indexed.
  abbrev pub Published : Text → ℕ → Store F → Type 0
  Published id n s =
      (v : DocumentVersion) × (get_version id s ≡ ok v)
      × (v.status ≡ VersionStatus.ready)
      × (v.indexed_chunk_count ≡ n)
      × (length (version_chunks id s) ≡ n)
      × All (λ d. shows v id d ≡ true) s.documents

  with_latest_job-Published :
      (id : Text) (n : ℕ) (job : Option IngestionJob) (stage : JobStage → JobStage)
      (status : JobStatus) (code message : Option Text) (now : ℕ) (s : Store F)
      → Published id n s
      → Published id n (with_latest_job job stage status code message now s)
  unfolding get_version
  with_latest_job-Published id n none stage status code message now s h = h
  with_latest_job-Published id n (some job) stage status code message now s h = h

  abbrev embedded_count : Text → Store F → ℕ
  embedded_count id s = length (keep (λ c. is_some c.embedding) (version_chunks id s))

  pub publish_version-Published :
      (id : Text) (n now : ℕ) (s : Store F) → Returned (Published id n) (publish_version id n now s)
  unfolding publish_version get_version
  publish_version-Published id n now s =
      let actual = length (version_chunks id s) in
      Returned-bind (Published id n) (get_version id s) _ (λ v found.
        Returned-bind (Published id n) (raise_if (not (nat_beq actual n)) count_mismatch) _
          (λ _ counted.
            Returned-bind (Published id n)
              (raise_if (not (nat_beq (embedded_count id s) actual)) missing_vectors) _
              (λ _ whole.
                let counted = raise_if-false (not (nat_beq actual n)) count_mismatch counted in
                let whole =
                  raise_if-false (not (nat_beq (embedded_count id s) actual)) missing_vectors
                    whole in
                with_latest_job-Published id n (latest_for_version id s.jobs) _ _ none none now _ (
                  _,
                  first-update (version_has_id id) _ s.versions (λ r. refl) found,
                  refl,
                  ground (arith, counted, whole),
                  ground (arith, counted),
                  update-chosen (document_has_id v.document_id) (shows v id) _ s.documents
                      (λ d e. rw (e, beq_refl id) refl) (λ d e. ground (arith, e)),
                ))))
