-- ===== src/Ingestion/Service/Protocol.antt =====
-- In which order `ingest` of service.py calls the repository, and what it records of a failure.
use project_rag.Prelude.{
  ℕ, ◌≡◌, refl, sym, ap, ◌∙◌, Text, Option, none, some, List, [], ◌∷◌, ◌++◌, take, Bool, true,
  false, is_empty, length, Result, ok, raise, if◌then◌else◌, leb, nat_beq,
}
use project_rag.Prelude.Floats.{Floats}
use project_rag.Prelude.Actions.{Action, then_call, ◌>>=◌, ◌>>◌, pure, lift}
use project_rag.Ingestion.Errors.{
  IngestionStatus, parsing, chunking, embedding, indexing, IngestionError, document_parse,
  empty_document,
}
use project_rag.Ingestion.Models.{Chunk}
use project_rag.Ingestion.Service.Embed.{Failure, embed}
use project_rag.Ingestion.Service.Attempt.{
  VersionRecord, Repository, Parts, IngestionResult, Failed, failure_for, raised_during, during,
  indexed, known, set_phase, refuse_if, write, attempt, record_failure, concluded, ingest, title_of,
}

pub data Call : Type 0 where
  fetch replace save publish : Call
  status : IngestionStatus → Call

-- The calls of an attempt that succeeds.
abbrev pub plan : List Call
plan =
    fetch
    ∷ status parsing
    ∷ status chunking
    ∷ status embedding
    ∷ status indexing
    ∷ replace
    ∷ save
    ∷ publish
    ∷ []

-- The phase after so many of them.
abbrev pub phase_of : ℕ → IngestionStatus
phase_of n =
    if leb n 2
    then parsing
    else if nat_beq n 3
    then chunking
    else if nat_beq n 4
    then embedding
    else indexing

module _ {S : Type 0} where
  -- The call, written down.
  abbrev pub noting :
      {A : Type 0} → Call → Result Failure A × S → List Call → Result Failure A × (S × List Call)
  noting call (r, s) log = (r, (s, log ++ call ∷ []))

  abbrev pub noted : {A : Type 0} → Call → Action S Failure A → Action (S × List Call) Failure A
  noted call m (s, log) = noting call (m s) log

-- A repository that keeps a log of its calls.
unfoldable pub logged : {S F V : Type 0} → Repository S F V → Repository (S × List Call) F V
logged r = record {
  get_version = λ id. noted fetch (r.get_version id);
  set_status = λ id next code message. noted (status next) (r.set_status id next code message);
  replace_chunks = λ id chunks. noted replace (r.replace_chunks id chunks);
  save_embeddings = λ id vectors n. noted save (r.save_embeddings id vectors n);
  publish_version = λ id n. noted publish (r.publish_version id n);
}

module _ {S : Type 0} where
  -- The log holds the plan's first calls, and a failure carries the phase that they have reached.
  abbrev Reached : {A : Type 0} → ℕ → Result Failed A × (S × List Call) → Type 0
  Reached n (ok a, st) = st.1 ≡ take n plan
  Reached n (raise e, st) = (k : ℕ) × (st.1 ≡ take k plan) × (e.phase ≡ phase_of k)

  abbrev Runs : {A : Type 0} → ℕ → ℕ → Action (S × List Call) Failed A → Type 0
  Runs a b m = (st : S × List Call) → st.1 ≡ take a plan → Reached b (m st)

  Runs-then :
      {A B : Type 0} (b c : ℕ) (r : Result Failed A × (S × List Call))
      (f : A → Action (S × List Call) Failed B)
      → Reached b r
      → ((x : A) → Runs b c (f x))
      → Reached c (then_call r f)
  Runs-then b c (ok x, st) f h k = k x st h
  Runs-then b c (raise e, st) f h k = h

  Runs-bind :
      {A B : Type 0} (a b c : ℕ) (m : Action (S × List Call) Failed A)
      (f : A → Action (S × List Call) Failed B)
      → Runs a b m
      → ((x : A) → Runs b c (f x))
      → Runs a c (m >>= f)
  Runs-bind a b c m f h k st e = Runs-then b c (m st) f (h st e) k

  -- The next call of the plan.
  noting-Reached :
      {A : Type 0} (a b : ℕ) (call : Call) (r : Result Failure A × S) (log : List Call)
      → take a plan ++ call ∷ [] ≡ take b plan
      → log ≡ take a plan
      → Reached b (raised_during (phase_of b) (noting call r log))
  noting-Reached a b call (ok x, s) log h e = ap (λ l. l ++ call ∷ []) e ∙ h
  noting-Reached a b call (raise f, s) log h e = (b, ap (λ l. l ++ call ∷ []) e ∙ h, refl)

  lift-Runs : {A : Type 0} (a : ℕ) (r : Result Failure A) → Runs a a (during (phase_of a) (lift r))
  lift-Runs a (ok x) st e = e
  lift-Runs a (raise f) st e = (a, e, refl)

  known-Runs : (o : Option VersionRecord) → Runs 1 1 (known o)
  known-Runs none st e = (1, e, refl)
  known-Runs (some v) st e = e

module _ (fl : Floats) {S V : Type 0} (r : Repository S fl.Float V) (p : Parts fl.Float V) where
  open fl use {Float}

  refuse_if-Runs :
      (a : ℕ) (test : Bool) (e : IngestionError)
      → Runs a a (refuse_if fl (logged r) p test (phase_of a) e)
  refuse_if-Runs a true e st h = (a, h, refl)
  refuse_if-Runs a false e st h = h

  set_phase-Runs :
      (id : Text) (a b : ℕ)
      → take a plan ++ status (phase_of b) ∷ [] ≡ take b plan
      → Runs a b (set_phase fl (logged r) p id (phase_of b))
  unfolding logged
  set_phase-Runs id a b h (s, log) e =
      noting-Reached a b (status (phase_of b)) (r.set_status id (phase_of b) none none s) log h e

  write-Runs :
      (a b : ℕ) (call : Call) (m : Action S Failure (Unit {0}))
      → take a plan ++ call ∷ [] ≡ take b plan
      → phase_of b ≡ indexing
      → Runs a b (write fl (logged r) p (noted call m))
  write-Runs a b call m h phase (s, log) e = wrote (m s)
    where
      wrote :
          (x : Result Failure (Unit {0}) × S)
          → Reached b (raised_during indexing (indexed (noting call x log)))
      wrote (ok u, s') = ap (λ l. l ++ call ∷ []) e ∙ h
      wrote (raise f, s') = (b, ap (λ l. l ++ call ∷ []) e ∙ h, sym phase)

  fetch-Runs : (id : Text) → Runs 0 1 (during parsing ((logged r).get_version id))
  unfolding logged
  fetch-Runs id (s, log) e = noting-Reached 0 1 fetch (r.get_version id s) log refl e

  -- The three writes of the index.
  index-Runs :
      (id : Text) (chunks : List (Chunk V)) (vectors : List (Text × List Float)) (n : ℕ)
      (result : IngestionResult)
      → Runs 5 8 (
          write fl (logged r) p ((logged r).replace_chunks id chunks)
          >> (write fl (logged r) p ((logged r).save_embeddings id vectors n)
              >> (write fl (logged r) p ((logged r).publish_version id (length chunks))
                  >> pure result)))
  unfolding logged
  index-Runs id chunks vectors n result =
      Runs-bind 5 6 8 _ _ (write-Runs 5 6 replace (r.replace_chunks id chunks) refl refl) (λ _.
        Runs-bind 6 7 8 _ _ (write-Runs 6 7 save (r.save_embeddings id vectors n) refl refl) (λ _.
          Runs-bind 7 8 8 _ _
            (write-Runs 7 8 publish (r.publish_version id (length chunks)) refl refl)
            (λ _ st e. e)))

  attempt-Runs : (id : Text) → Runs 0 8 (attempt fl (logged r) p id)
  unfolding attempt
  attempt-Runs id = Runs-bind 0 1 8 _ _ (fetch-Runs id) (λ found.
      Runs-bind 1 1 8 _ _ (known-Runs found) (λ v.
        Runs-bind 1 1 8 _ _ (refuse_if-Runs 1 (is_empty v.blob_uri) document_parse) (λ _.
          Runs-bind 1 2 8 _ _ (set_phase-Runs id 1 2 refl) (λ _.
            Runs-bind 2 2 8 _ _ (lift-Runs 2 (p.get_bytes v.blob_uri)) (λ raw.
              Runs-bind 2 2 8 _ _ (lift-Runs 2 (p.parse raw v.filename)) (λ parsed.
                Runs-bind 2 2 8 _ _
                  (refuse_if-Runs 2 (is_empty (p.normalize parsed)) empty_document)
                  (λ _. Runs-bind 2 3 8 _ _ (set_phase-Runs id 2 3 refl) (λ _.
                    Runs-bind 3 3 8 _ _
                      (lift-Runs 3 (p.chunk (p.normalize parsed) v.id (title_of v)))
                      (λ chunks.
                        Runs-bind 3 3 8 _ _ (refuse_if-Runs 3 (is_empty chunks) empty_document)
                          (λ _. Runs-bind 3 4 8 _ _ (set_phase-Runs id 3 4 refl) (λ _.
                            Runs-bind 4 4 8 _ _
                              (lift-Runs 4 (
                                embed fl p.embed_texts p.batch_size p.batch_token_limit p.dimensions
                                  chunks))
                              (λ embedded.
                                Runs-bind 4 5 8 _ _ (set_phase-Runs id 4 5 refl)
                                  (λ _. index-Runs id chunks embedded.0 embedded.1 _)))))))))))))

  -- How an attempt may end: with the whole plan, or with its first calls and then the status that
  -- the failure has in the phase they reached.
  abbrev pub Ended : Result Failure IngestionResult × (S × List Call) → Type 0
  Ended (ok result, st) = st.1 ≡ plan
  Ended (raise e, st) = (k : ℕ) × (st.1 ≡ take k plan ++ status (failure_for e (phase_of k)).0 ∷ [])

  concluded-Ended :
      (id : Text) (x : Result Failed IngestionResult × (S × List Call))
      → Reached 8 x
      → Ended (concluded fl (logged r) p id x)
  unfolding record_failure logged
  concluded-Ended id (ok result, st) h = h
  concluded-Ended id (raise e, st) (k, log, phase) = (k, rw (log, phase) refl)

  -- Over any repository, an attempt that returns has made the calls of the plan in order and no
  -- other: the version is published last, after its chunks and vectors are written. An attempt that
  -- raises has made the first calls of the plan, and then one that records the status of its
  -- failure: that of the error's class, or else that of the phase.
  pub ingest-Ended : (id : Text) (s : S) → Ended (ingest fl (logged r) p id (s, []))
  unfolding ingest
  ingest-Ended id s =
      concluded-Ended id (attempt fl (logged r) p id (s, [])) (attempt-Runs id (s, []) refl)
