-- ===== src/Store/Visibility.antt =====
-- What repositories.py promises of what a search may see.
use project_rag.Prelude.{
  ℕ, ◌≡◌, subst, ◌∙◌, Text, Option, is_empty, strip, raise_if, >>=-eq-ok, ok-injective, List, [],
  ◌∷◌, map, Bool, true, false, ◌&&◌, keep, All, All-map, All-append, concat, list_eq, nat_eq, ◌==◌,
  eq_of_beq, beq_of_eq, ok, Bool-cases, inl, inr, arith,
}
use project_rag.Retrieval.Models.{RetrievalFilters}
use project_rag.Store.Rows.{Document, DocumentVersion, Chunk, Store}
use project_rag.Store.Retrieval.{
  Row, product, is_visible, passes, time_of, tenant_required, retrieval_rows,
}
use project_rag.Store.Changes.{mark_deleting}
use project_rag.Store.History.{Change, Platform, run}
use project_rag.Store.Hidden.{is_hidden, Hidden, mark_deleting-Hidden, run-Hidden}

module _ {F : Type 0} where
  All-concat :
      {A : Type 0} (P : Row F → Type 0) (f : A → List (Row F)) (xs : List A)
      → ((x : A) → All P (f x))
      → All P (concat (map f xs))
  All-concat P f [] h = tt
  All-concat P f (x ∷ xs) h = All-append P (f x) (concat (map f xs)) (h x) (All-concat P f xs h)

  All-rows :
      (P : Document → Type 0) (c : Chunk F) (v : DocumentVersion) (ds : List Document)
      → All P ds
      → All
          (λ (r : Row F). P r.document)
          (map (λ d. record { chunk = c; version = v; document = d }) ds)
  All-rows P c v [] h = tt
  All-rows P c v (d ∷ ds) h = (h.0, All-rows P c v ds h.1)

  product-All :
      (P : Document → Type 0) (s : Store F)
      → All P s.documents
      → All (λ r. P r.document) (product s)
  unfolding product
  product-All P s h =
      All-concat (λ r. P r.document) _ s.chunks
        (λ c. All-concat (λ r. P r.document) _ s.versions (λ v. All-rows P c v s.documents h))

  visible-not-hidden :
      (id tenant : Text) (r : Row F)
      → (is_visible tenant r ≡ true)
      → is_hidden id r.document ≡ true
      → (r.chunk.document_id == id) ≡ false
  unfolding is_visible
  visible-not-hidden id tenant r h k = elim (Bool-cases (r.chunk.document_id == id)) [
    | inr e ↦ e
    | inl e ↦
        let joined = eq_of_beq r.document.id r.chunk.document_id (ground (arith, h)) in
        let same = beq_of_eq r.document.id id (joined ∙ eq_of_beq r.chunk.document_id id e) in
        absurd (ground (arith, h, k, same))
  ]

  abbrev wanted : Option ℕ → Option ℕ → RetrievalFilters → Row F → Bool
  wanted after before f r = is_visible f.tenant_id r && passes after before f r

  keep-both :
      (P : Row F → Type 0) (p : Row F → Bool) (rows : List (Row F))
      → All P rows
      → All (λ r. P r × (p r ≡ true)) (keep p rows)
  keep-both P p [] h = tt
  keep-both P p (r ∷ rows) h = elim (Bool-cases (p r)) [
    | inl e ↦ rw e ((h.0, e), keep-both P p rows h.1)
    | inr e ↦ rw e (keep-both P p rows h.1)
  ]

  -- Once a document is marked for deletion, no search returns a chunk of it, whatever uploads
  -- are registered, chunks and vectors stored, documents deleted, statuses set and versions
  -- published afterwards, its own included.
  pub deleted_stays_hidden :
      (parse_time : Text → Option ℕ) (p : Platform F) (id : Text) (now : ℕ)
      (changes : List (Change F)) (f : RetrievalFilters) (s : Store F) {new : Store F}
      {rows : List (Row F)}
      → mark_deleting id now s ≡ ok new
      → retrieval_rows parse_time (run p changes new) f ≡ ok rows
      → All (λ r. (r.chunk.document_id == id) ≡ false) rows
  unfolding retrieval_rows Hidden
  deleted_stays_hidden parse_time p id now changes f s {new} {rows} h k =
      let hidden = run-Hidden p id changes new (mark_deleting-Hidden id now s h) in
      let later = run p changes new in
      let (_, _, k) = >>=-eq-ok (raise_if (is_empty (strip f.tenant_id)) tenant_required) _ k in
      let (after, _, k) = >>=-eq-ok (time_of parse_time f.created_after) _ k in
      let (before, _, k) = >>=-eq-ok (time_of parse_time f.created_before) _ k in
      subst (All (λ r. (r.chunk.document_id == id) ≡ false)) (ok-injective k) (
        All-map _ (λ r. (r.chunk.document_id == id) ≡ false)
          (λ r e. visible-not-hidden id f.tenant_id r (ground (arith, e.1)) e.0)
          (keep (wanted after before f) (product later))
          (keep-both (λ r. is_hidden id r.document ≡ true) (wanted after before f) (product later)
            (product-All (λ d. is_hidden id d ≡ true) later hidden.1)))
