-- ===== src/Store/History.antt =====
-- The calls of the API and the worker on one store, in the order in which they commit.
use project_rag.Prelude.{ℕ, Text, Option, List, [], ◌∷◌, Bool, Result, ok, raise, ◌>>=◌}
use project_rag.Store.Rows.{VersionStatus, Store}
use project_rag.Store.Retrieval.{StoreError}
use project_rag.Store.Changes.{mark_deleting, mark_deleted, set_status, publish_version}
use project_rag.Store.Uploads.{Upload, DrawnIds, register_upload}
use project_rag.Store.Chunks.{SourceChunk, replace_chunks, save_embeddings}

pub data Change (F : Type 0) : Type 0 where
  upload : Upload → DrawnIds → ℕ → Change F
  replace : Text → List SourceChunk → Change F
  save : Text → List (Text × List F) → ℕ → Change F
  deleting deleted : Text → ℕ → Change F
  status : Text → VersionStatus → Option Text → Option Text → ℕ → Change F
  publish : Text → ℕ → ℕ → Change F

-- What the calls take from the standard library, and the dimension of the table of chunks.
pub record Platform (F : Type 0) : Type 0 where
  pub lower : Text → Text
  pub is_finite : F → Bool
  pub schema : ℕ

module _ {F : Type 0} where
  abbrev pub perform : Platform F → Change F → Store F → Result StoreError (Store F)
  perform p (Change.upload u ids now) s = do done ← register_upload p.lower u ids now s; ok done.1
  perform p (Change.replace id sources) s = do done ← replace_chunks p.lower id sources s; ok done.1
  perform p (Change.save id vectors dimensions) s = do
    done ← save_embeddings p.is_finite p.schema id vectors dimensions s
    ok done.1
  perform p (Change.deleting id now) s = mark_deleting id now s
  perform p (Change.deleted id now) s = mark_deleted id now s
  perform p (Change.status id next code message now) s = set_status id next code message now s
  perform p (Change.publish id expected now) s = publish_version id expected now s

  -- What raises is rolled back.
  abbrev pub committed : Store F → Result StoreError (Store F) → Store F
  committed s (ok new) = new
  committed s (raise e) = s

  unfoldable pub run : Platform F → List (Change F) → Store F → Store F
  run p [] s = s
  run p (change ∷ changes) s = run p changes (committed s (perform p change s))
