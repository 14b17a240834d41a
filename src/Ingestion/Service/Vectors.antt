-- ===== src/Ingestion/Service/Vectors.antt =====
-- What `_embed` of service.py promises of the vectors that it returns.
use project_rag.Prelude.{
  ℕ, ◌≡◌, ◌<◌, refl, sym, ap, subst, ◌∙◌, Text, Option, none, some, List, [], ◌∷◌, ◌++◌, map,
  concat, false, not, any, is_empty, length, nat_beq, append_assoc, append-nil, All, All-append,
  Result, ok, raise_if, >>=-eq-ok, ok-injective, raise_if-false, map-append, arith,
}
use project_rag.Prelude.Floats.{Floats}
use project_rag.Ingestion.Models.{Chunk}
use project_rag.Ingestion.Batches.{embedding_batches, embedding_batches_lem}
use project_rag.Ingestion.Service.Embed.{
  Failure, invalid, Embedded, expected_dimension, as_embedding_error, finished, is_zero_dimension,
  embed_one, embed_pairs, embed_batches, embed,
}

some-injective : {A : Type 0} {a b : A} → some a ≡ some b → a ≡ b
some-injective h = ground arith

finished-eq :
    {F : Type 0} (o : Option ℕ) (done : List (Text × List F)) {vectors : List (Text × List F)}
    {n : ℕ}
    → finished o done ≡ ok (vectors, n)
    → (o ≡ some n) × (done ≡ vectors)
finished-eq none done h = cc
finished-eq (some m) done h = let e = ok-injective h in (ap (λ p. some p.1) e, ap (λ p. p.0) e)

-- A dimension that is configured is this one.
abbrev pub Agrees : Option ℕ → ℕ → Type 0
Agrees none n = Unit
Agrees (some m) n = m ≡ n

Agrees-of_known :
    (configured : Option ℕ) (n : ℕ) → ((m : ℕ) → configured ≡ some m → m ≡ n) → Agrees configured n
Agrees-of_known none n h = tt
Agrees-of_known (some m) n h = h m refl

module _ (fl : Floats) where
  open fl use {Float, is_finite}

  -- A vector that may be stored: of the dimension, not empty, and finite.
  abbrev pub IsVector : ℕ → Text × List Float → Type 0
  IsVector n v =
      (length v.1 ≡ n) × (is_empty v.1 ≡ false) × (any (λ x. not (is_finite x)) v.1 ≡ false)

  -- All vectors have the dimension, and there are none before it is known.
  abbrev Uniform : Option ℕ → List (Text × List Float) → Type 0
  Uniform none vectors = vectors ≡ []
  Uniform (some n) vectors = All (IsVector n) vectors

  Uniform-nil : (o : Option ℕ) → Uniform o []
  Uniform-nil none = refl
  Uniform-nil (some n) = tt

  Uniform-append :
      (o : Option ℕ) (vectors : List (Text × List Float)) (id : Text) (vector : List Float)
      → Uniform o vectors
      → IsVector (expected_dimension o vector) (id, vector)
      → All (IsVector (expected_dimension o vector)) (vectors ++ (id, vector) ∷ [])
  Uniform-append none vectors id vector u v = rw u (v, tt)
  Uniform-append (some n) vectors id vector u v = All-append (IsVector n) vectors _ u (v, tt)

  -- The dimension stays once it is known.
  expected_dimension-some :
      (o : Option ℕ) (vector : List Float) (n : ℕ) → o ≡ some n → expected_dimension o vector ≡ n
  expected_dimension-some none vector n e = cc
  expected_dimension-some (some m) vector n e = ground arith

module _ (fl : Floats) {V : Type 0} where
  open fl use {Float, is_finite}

  -- What some chunks add to what is done.
  abbrev Adds : Embedded Float → List (Chunk V) → Embedded Float → Type 0
  Adds done chunks next =
      Uniform fl next.dimensions next.vectors
      × (map (λ v. v.0) next.vectors ≡ map (λ v. v.0) done.vectors ++ map (λ c. c.id) chunks)
      × ((n : ℕ) → done.dimensions ≡ some n → next.dimensions ≡ some n)

  Adds-trans :
      (a b c : Embedded Float) (xs ys : List (Chunk V))
      → Adds a xs b
      → Adds b ys c
      → Adds a (xs ++ ys) c
  Adds-trans a b c xs ys h k = (
    k.0,
    k.1
        ∙ ap (λ ids. ids ++ map (λ c. c.id) ys) h.1
        ∙ append_assoc (map (λ v. v.0) a.vectors) (map (λ c. c.id) xs) (map (λ c. c.id) ys)
        ∙ ap (λ ids. map (λ v. v.0) a.vectors ++ ids) (sym (map-append (λ c. c.id) xs ys)),
    λ n e. k.2 n (h.2 n e),
  )

  embed_one-Adds :
      (done : Embedded Float) (chunk : Chunk V) (vector : List Float) {next : Embedded Float}
      → Uniform fl done.dimensions done.vectors
      → embed_one fl done chunk vector ≡ ok next
      → Adds done (chunk ∷ []) next
  unfolding embed_one
  embed_one-Adds done chunk vector {next} u h =
      let n = expected_dimension done.dimensions vector in
      let (_, full, h) = >>=-eq-ok (raise_if (is_empty vector) invalid) _ h in
      let (_, fits, h) = >>=-eq-ok (raise_if (not (nat_beq (length vector) n)) invalid) _ h in
      let (_, finite, h) = >>=-eq-ok (raise_if (any (λ x. not (is_finite x)) vector) invalid) _ h in
      let fit = raise_if-false (not (nat_beq (length vector) n)) invalid fits in
      subst (Adds done (chunk ∷ [])) (ok-injective h) (
        Uniform-append fl done.dimensions done.vectors chunk.id vector u (
          ground (arith, fit),
          raise_if-false (is_empty vector) invalid full,
          raise_if-false (any (λ x. not (is_finite x)) vector) invalid finite,
        ),
        map-append (λ v. v.0) done.vectors ((chunk.id, vector) ∷ []),
        λ m e. ap some (expected_dimension-some fl done.dimensions vector m e),
      )

  embed_pairs-Adds :
      (done : Embedded Float) (chunks : List (Chunk V)) (vectors : List (List Float))
      {next : Embedded Float}
      → length vectors ≡ length chunks
      → Uniform fl done.dimensions done.vectors
      → embed_pairs fl done chunks vectors ≡ ok next
      → Adds done chunks next
  unfolding embed_pairs
  embed_pairs-Adds done [] vectors l u h =
      subst (Adds done []) (ok-injective h)
        (u, sym (append-nil (map (λ v. v.0) done.vectors)), λ n e. e)
  embed_pairs-Adds done (chunk ∷ chunks) [] l u h = absurd (omega (arith, l))
  embed_pairs-Adds done (chunk ∷ chunks) (vector ∷ vectors) {next} l u h =
      let (mid, h1, h2) = >>=-eq-ok (embed_one fl done chunk vector) _ h in
      let one = embed_one-Adds done chunk vector u h1 in
      let rest = embed_pairs-Adds mid chunks vectors (omega (arith, l)) one.0 h2 in
      Adds-trans done mid next (chunk ∷ []) chunks one rest

  module _ (embed_texts : List Text → Result Failure (List (List Float))) (size limit : ℕ) where
    embed_batches-Adds :
        (done : Embedded Float) (batches : List (List (Chunk V))) {next : Embedded Float}
        → Uniform fl done.dimensions done.vectors
        → embed_batches fl embed_texts size limit done batches ≡ ok next
        → Adds done (concat batches) next
    unfolding embed_batches
    embed_batches-Adds done [] u h =
        subst (Adds done []) (ok-injective h)
          (u, sym (append-nil (map (λ v. v.0) done.vectors)), λ n e. e)
    embed_batches-Adds done (batch ∷ batches) {next} u h =
        let (vectors, h1, h) =
          >>=-eq-ok (as_embedding_error (embed_texts (map (λ c. c.embedding_text) batch))) _ h in
        let (_, h2, h) =
          >>=-eq-ok (raise_if (not (nat_beq (length vectors) (length batch))) invalid) _ h in
        let (mid, h3, h) = >>=-eq-ok (embed_pairs fl done batch vectors) _ h in
        let same = raise_if-false (not (nat_beq (length vectors) (length batch))) invalid h2 in
        let one = embed_pairs-Adds done batch vectors (ground (arith, same)) u h3 in
        Adds-trans done mid next batch (concat batches) one (embed_batches-Adds mid batches one.0 h)

    -- For a positive batch size: if the embedding returns, it returns one vector for each chunk, in
    -- the order of the chunks and under their ids; all are finite, not empty and of one dimension,
    -- which is the configured one if there is one.
    pub embed_lem :
        (configured : Option ℕ) (chunks : List (Chunk V)) {vectors : List (Text × List Float)}
        {n : ℕ}
        → 0 < size
        → embed fl embed_texts size limit configured chunks ≡ ok (vectors, n)
        → (map (λ v. v.0) vectors ≡ map (λ c. c.id) chunks)
          × All (IsVector fl n) vectors
          × Agrees configured n
    unfolding embed
    embed_lem configured chunks {vectors} {n} positive h =
        let start : Embedded Float = record { vectors = []; dimensions = configured } in
        let (_, h1, h) = >>=-eq-ok (raise_if (is_zero_dimension configured) invalid) _ h in
        let (done, h2, h) =
          >>=-eq-ok
            (embed_batches fl embed_texts size limit start (embedding_batches size limit chunks)) _
            h in
        let adds =
          embed_batches-Adds start (embedding_batches size limit chunks) (Uniform-nil fl configured)
            h2 in
        let (known, same) = finished-eq done.dimensions done.vectors h in
        (
          ap (map (λ v. v.0)) (sym same)
              ∙ adds.1
              ∙ ap (map (λ c. c.id)) (embedding_batches_lem size limit positive chunks).0,
          subst (All (IsVector fl n)) same (subst (λ o. Uniform fl o done.vectors) known adds.0),
          Agrees-of_known configured n (λ m e. some-injective (sym (adds.2 m e) ∙ known)),
        )
