-- ===== src/Store/Publication.antt =====
-- When `publish_version` of repositories.py publishes.
use project_rag.Prelude.{
  ℕ, ◌≤◌, ◌≡◌, ◌↔◌, refl, Text, List, [], ◌∷◌, Bool, true, not, keep, keep-eq_self, All, length,
  is_some, nat_beq, nat_beq_iff, Result, >>=-eq-ok, ok, raise_if, ◌>>=◌, Bool-cases, inl, inr,
  arith,
}
use project_rag.Store.Rows.{DocumentVersion, Chunk, Store}
use project_rag.Store.Retrieval.{StoreError, count_mismatch, missing_vectors}
use project_rag.Store.Changes.{get_version, version_chunks, publish_version}

module _ {A : Type 0} (p : A → Bool) where
  length-keep-le : (xs : List A) → length (keep p xs) ≤ length xs
  length-keep-le [] = omega arith
  length-keep-le (x ∷ xs) = ground (arith, length-keep-le xs)

  All-of-length-keep : (xs : List A) → length (keep p xs) ≡ length xs → All (λ x. p x ≡ true) xs
  All-of-length-keep [] h = tt
  All-of-length-keep (x ∷ xs) h = elim (Bool-cases (p x)) [
    | inl e ↦ (e, All-of-length-keep xs (ground (arith, e, h)))
    | inr e ↦ absurd (ground (arith, e, h, length-keep-le xs))
  ]

bind-returns :
    {A B : Type 0} (m : Result StoreError A) (f : A → Result StoreError B) (a : A)
    → m ≡ ok a
    → (b : B) × (f a ≡ ok b)
    → (b : B) × ((m >>= f) ≡ ok b)
bind-returns m f a returned (b, h) = (b, rw returned h)

module _ {F : Type 0} (id : Text) (expected now : ℕ) (s : Store F) where
  abbrev pub has_vector : Chunk F → Bool
  has_vector c = is_some c.embedding

  -- Publication succeeds exactly if the version exists, it has the expected number of chunks, and
  -- each of them has a vector.
  pub publish_version_iff : ((new : Store F) × (publish_version id expected now s ≡ ok new)) ↔ (
      ((v : DocumentVersion) × (get_version id s ≡ ok v))
      × (length (version_chunks id s) ≡ expected)
      × All (λ c. has_vector c ≡ true) (version_chunks id s))
  unfolding publish_version
  publish_version_iff = (
    λ (new, h).
        let (v, found, h) = >>=-eq-ok (get_version id s) _ h in
        let (_, counted, h) =
          >>=-eq-ok (raise_if (not (nat_beq (length (version_chunks id s)) expected)) _) _ h in
        let (_, whole, h) =
          >>=-eq-ok
            (raise_if
              (not (
                nat_beq (length (keep has_vector (version_chunks id s)))
                  (length (version_chunks id s))))
              _)
            _ h in
        (
          (v, found),
          ground (arith, counted),
          All-of-length-keep has_vector (version_chunks id s) (ground (arith, whole)),
        ),
    λ ((v, found), counted, whole).
        let n = length (version_chunks id s) in
        bind-returns (get_version id s) _ v found (
          bind-returns (raise_if (not (nat_beq n expected)) count_mismatch) _ tt
            (rw ((nat_beq_iff n expected).1 counted) refl)
            (bind-returns
              (raise_if (not (nat_beq (length (keep has_vector (version_chunks id s))) n))
                missing_vectors)
              _ tt
              (rw (keep-eq_self has_vector (version_chunks id s) whole, (nat_beq_iff n n).1 refl)
                refl)
              (_, refl))),
  )
