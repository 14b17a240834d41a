-- ===== src/Ingestion/Service/Invariants.antt =====
-- What `ingest` of service.py keeps of the repository's state, and what it leaves when it returns.
use project_rag.Prelude.{
  ℕ, ◌≡◌, refl, sym, subst, Text, Option, none, some, List, Bool, true, false, is_empty, length,
  Result, ok, raise,
}
use project_rag.Prelude.Floats.{Floats}
use project_rag.Prelude.Actions.{Action, then_call, ◌>>=◌, ◌>>◌, pure, lift}
use project_rag.Ingestion.Errors.{
  IngestionStatus, parsing, chunking, embedding, indexing, IngestionError, document_parse,
  empty_document,
}
use project_rag.Ingestion.Models.{Chunk}
use project_rag.Ingestion.Service.Embed.{Failure, embed}
use project_rag.Ingestion.Service.Attempt.{
  VersionRecord, Repository, Parts, IngestionResult, Failed, raised_during, during, indexed, known,
  set_phase, refuse_if, write, attempt, record_failure, concluded, ingest, title_of,
}

module _ {S : Type 0} where
  -- The call keeps the predicate, whether it returns or raises.
  unfoldable pub Keeps : {E A : Type 0} → (S → Type 0) → Action S E A → Type 0
  Keeps P m = (s : S) → P s → P (m s).1

  then_call-Keeps :
      {E A B : Type 0} (P : S → Type 0) (x : Result E A × S) (f : A → Action S E B)
      → P x.1
      → ((a : A) → Keeps P (f a))
      → P (then_call x f).1
  unfolding Keeps
  then_call-Keeps P (ok a, s) f h k = k a s h
  then_call-Keeps P (raise e, s) f h k = h

  bind-Keeps :
      {E A B : Type 0} (P : S → Type 0) (m : Action S E A) (f : A → Action S E B)
      → Keeps P m
      → ((a : A) → Keeps P (f a))
      → Keeps P (m >>= f)
  unfolding Keeps
  bind-Keeps P m f h k s p = then_call-Keeps P (m s) f (h s p) k

  during-Keeps :
      {A : Type 0} (P : S → Type 0) (phase : IngestionStatus) (x : Result Failure A × S)
      → P x.1
      → P (raised_during phase x).1
  during-Keeps P phase (ok a, s) h = h
  during-Keeps P phase (raise e, s) h = h

  indexed-Keeps :
      {A : Type 0} (P : S → Type 0) (x : Result Failure A × S)
      → P x.1
      → P (raised_during indexing (indexed x)).1
  indexed-Keeps P (ok a, s) h = h
  indexed-Keeps P (raise e, s) h = h

  known-Keeps : (P : S → Type 0) (o : Option VersionRecord) → Keeps P (known {S = S} o)
  unfolding Keeps
  known-Keeps P none s h = h
  known-Keeps P (some v) s h = h

  -- What holds of the value and the state, if the call returns.
  abbrev pub Gives : {E A : Type 0} → (A → S → Type 0) → Result E A × S → Type 0
  Gives Q (ok a, s) = Q a s
  Gives Q (raise e, s) = Unit

  -- The same of a call in every state.
  Leaves : {E A : Type 0} → (A → S → Type 0) → Action S E A → Type 0
  Leaves Q m = (s : S) → Gives Q (m s)

  then_call-Gives :
      {E A B : Type 0} (Q : B → S → Type 0) (x : Result E A × S) (f : A → Action S E B)
      → ((a : A) (s : S) → Gives Q (f a s))
      → Gives Q (then_call x f)
  then_call-Gives Q (ok a, s) f h = h a s
  then_call-Gives Q (raise e, s) f h = tt

  bind-Leaves :
      {E A B : Type 0} (Q : B → S → Type 0) (m : Action S E A) (f : A → Action S E B)
      → ((a : A) → Leaves Q (f a))
      → Leaves Q (m >>= f)
  unfolding Leaves
  bind-Leaves Q m f h s = then_call-Gives Q (m s) f h

-- A repository whose calls keep a predicate on its state.
pub record KeepsState {S F V : Type 0} (P : S → Type 0) (r : Repository S F V) : Type 0 where
  pub fetch_keeps : (id : Text) → Keeps P (r.get_version id)
  pub status_keeps :
      (id : Text) (next : IngestionStatus) (code message : Option Text)
      → Keeps P (r.set_status id next code message)
  pub replace_keeps : (id : Text) (chunks : List (Chunk V)) → Keeps P (r.replace_chunks id chunks)
  pub save_keeps :
      (id : Text) (vectors : List (Text × List F)) (n : ℕ)
      → Keeps P (r.save_embeddings id vectors n)
  pub publish_keeps : (id : Text) (n : ℕ) → Keeps P (r.publish_version id n)

module _ (fl : Floats) {S V : Type 0} (r : Repository S fl.Float V) (p : Parts fl.Float V)
    (P : S → Type 0) (keeps : KeepsState P r) where
  open fl use {Float}

  refuse_if-Keeps :
      (test : Bool) (phase : IngestionStatus) (e : IngestionError)
      → Keeps P (refuse_if fl r p test phase e)
  unfolding Keeps
  refuse_if-Keeps true phase e s h = h
  refuse_if-Keeps false phase e s h = h

  set_phase-Keeps : (id : Text) (phase : IngestionStatus) → Keeps P (set_phase fl r p id phase)
  unfolding Keeps
  set_phase-Keeps id phase s h =
      during-Keeps P phase (r.set_status id phase none none s)
        (keeps.status_keeps id phase none none s h)

  fetch-Keeps : (id : Text) → Keeps P (during parsing (r.get_version id))
  unfolding Keeps
  fetch-Keeps id s h = during-Keeps P parsing (r.get_version id s) (keeps.fetch_keeps id s h)

  pure-Keeps : (result : IngestionResult) → Keeps {E = Failed} P (pure result)
  unfolding Keeps
  pure-Keeps result s h = h

  lift-Keeps :
      {A : Type 0} (phase : IngestionStatus) (x : Result Failure A)
      → Keeps P (during phase (lift x))
  unfolding Keeps
  lift-Keeps phase x s h = during-Keeps P phase (x, s) h

  write-Keeps : (m : Action S Failure (Unit {0})) → Keeps P m → Keeps P (write fl r p m)
  unfolding Keeps
  write-Keeps m k s h = indexed-Keeps P (m s) (k s h)

  index-Keeps :
      (id : Text) (chunks : List (Chunk V)) (vectors : List (Text × List Float)) (n : ℕ)
      (result : IngestionResult)
      → Keeps P (
          write fl r p (r.replace_chunks id chunks)
          >> (write fl r p (r.save_embeddings id vectors n)
              >> (write fl r p (r.publish_version id (length chunks)) >> pure result)))
  index-Keeps id chunks vectors n result =
      bind-Keeps P _ _ (write-Keeps (r.replace_chunks id chunks) (keeps.replace_keeps id chunks))
        (λ _.
          bind-Keeps P _ _
            (write-Keeps (r.save_embeddings id vectors n) (keeps.save_keeps id vectors n))
            (λ _.
              bind-Keeps P _ _
                (write-Keeps (r.publish_version id (length chunks))
                  (keeps.publish_keeps id (length chunks)))
                (λ _. pure-Keeps result)))

  attempt-Keeps : (id : Text) → Keeps P (attempt fl r p id)
  unfolding attempt
  attempt-Keeps id = bind-Keeps P _ _ (fetch-Keeps id) (λ found.
      bind-Keeps P _ _ (known-Keeps P found) (λ v.
        bind-Keeps P _ _ (refuse_if-Keeps (is_empty v.blob_uri) parsing document_parse) (λ _.
          bind-Keeps P _ _ (set_phase-Keeps id parsing) (λ _.
            bind-Keeps P _ _ (lift-Keeps parsing (p.get_bytes v.blob_uri)) (λ raw.
              bind-Keeps P _ _ (lift-Keeps parsing (p.parse raw v.filename)) (λ parsed.
                let blocks = p.normalize parsed in
                bind-Keeps P _ _ (refuse_if-Keeps (is_empty blocks) parsing empty_document) (λ _.
                  bind-Keeps P _ _ (set_phase-Keeps id chunking) (λ _.
                    bind-Keeps P _ _ (lift-Keeps chunking (p.chunk blocks v.id (title_of v)))
                      (λ chunks.
                        bind-Keeps P _ _ (refuse_if-Keeps (is_empty chunks) chunking empty_document)
                          (λ _. bind-Keeps P _ _ (set_phase-Keeps id embedding) (λ _.
                            bind-Keeps P _ _
                              (lift-Keeps embedding (
                                embed fl p.embed_texts p.batch_size p.batch_token_limit p.dimensions
                                  chunks))
                              (λ (done : List (Text × List Float) × ℕ).
                                bind-Keeps P _ _ (set_phase-Keeps id indexing)
                                  (λ _. index-Keeps id chunks done.0 done.1 _)))))))))))))

  concluded-Keeps :
      (id : Text) (x : Result Failed IngestionResult × S) → P x.1 → P (concluded fl r p id x).1
  unfolding record_failure Keeps
  concluded-Keeps id (ok result, s) h = h
  concluded-Keeps id (raise e, s) h = keeps.status_keeps id _ _ _ s h

  -- What every call of the repository keeps, the ingestion keeps, whatever fails.
  pub ingest-Keeps : (id : Text) → Keeps P (ingest fl r p id)
  unfolding ingest Keeps
  ingest-Keeps id s h = concluded-Keeps id (attempt fl r p id s) (attempt-Keeps id s h)

-- What publication leaves when it returns.
module _ (fl : Floats) {S V : Type 0} (r : Repository S fl.Float V) (p : Parts fl.Float V)
    (Q : ℕ → S → Type 0) (id : Text)
    (publishes : (n : ℕ) (s : S) → Gives (λ _ t. Q n t) (r.publish_version id n s)) where
  open fl use {Float}

  written-Gives :
      (n : ℕ) (result : IngestionResult) (x : Result Failure (Unit {0}) × S)
      → Gives (λ _ t. Q n t) x
      → result.chunk_count ≡ n
      → Gives
          (λ (result : IngestionResult) t. Q result.chunk_count t)
          (then_call (raised_during indexing (indexed x)) (λ _. pure result))
  written-Gives n result (ok u, s) h same = subst (λ m. Q m s) (sym same) h
  written-Gives n result (raise e, s) h same = tt

  publish-Leaves :
      (n : ℕ) (result : IngestionResult)
      → result.chunk_count ≡ n
      → Leaves {E = Failed}
          (λ (result : IngestionResult) t. Q result.chunk_count t)
          (write fl r p (r.publish_version id n) >> pure result)
  unfolding Leaves
  publish-Leaves n result same s =
      written-Gives n result (r.publish_version id n s) (publishes n s) same

  attempt-Leaves :
      Leaves (λ (result : IngestionResult) t. Q result.chunk_count t) (attempt fl r p id)
  unfolding attempt
  attempt-Leaves =
      let R : IngestionResult → S → Type 0 = λ result t. Q result.chunk_count t in
      bind-Leaves R (during parsing (r.get_version id)) _ (λ found.
        bind-Leaves R (known found) _ (λ v.
          bind-Leaves R (refuse_if fl r p (is_empty v.blob_uri) parsing document_parse) _ (λ _.
            bind-Leaves R (set_phase fl r p id parsing) _ (λ _.
              bind-Leaves R (during parsing (lift (p.get_bytes v.blob_uri))) _ (λ raw.
                bind-Leaves R (during parsing (lift (p.parse raw v.filename))) _ (λ parsed.
                  bind-Leaves R
                    (refuse_if fl r p (is_empty (p.normalize parsed)) parsing empty_document) _
                    (λ _. bind-Leaves R (set_phase fl r p id chunking) _ (λ _.
                      bind-Leaves R
                        (during chunking (lift (p.chunk (p.normalize parsed) v.id (title_of v)))) _
                        (λ chunks.
                          bind-Leaves R (refuse_if fl r p (is_empty chunks) chunking empty_document)
                            _
                            (λ _. bind-Leaves R (set_phase fl r p id embedding) _ (λ _.
                              bind-Leaves R
                                (during embedding (
                                  lift (
                                    embed fl p.embed_texts p.batch_size p.batch_token_limit
                                      p.dimensions chunks)))
                                _
                                (λ done. bind-Leaves R (set_phase fl r p id indexing) _ (λ _.
                                  bind-Leaves R (write fl r p (r.replace_chunks id chunks)) _ (λ _.
                                    bind-Leaves R
                                      (write fl r p (r.save_embeddings id done.0 done.1)) _
                                      (λ _. publish-Leaves (length chunks) _ refl)))))))))))))))

  -- What publication leaves for the number of chunks, the ingestion leaves when it returns.
  pub ingest-Gives :
      (s : S) → Gives (λ (result : IngestionResult) t. Q result.chunk_count t) (ingest fl r p id s)
  unfolding ingest Leaves
  ingest-Gives s = concluded-Gives (attempt fl r p id s) (attempt-Leaves s)
    where
      concluded-Gives :
          (x : Result Failed IngestionResult × S)
          → Gives (λ (result : IngestionResult) t. Q result.chunk_count t) x
          → Gives (λ (result : IngestionResult) t. Q result.chunk_count t) (concluded fl r p id x)
      concluded-Gives (ok result, s) h = h
      concluded-Gives (raise e, s) h = tt
