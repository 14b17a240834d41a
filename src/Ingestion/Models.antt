-- ===== src/Ingestion/Models.antt =====
-- src/rag/ingestion/models.py and identifiers.py: blocks, chunks and their identities. What the
-- standard library computes (hashes, Unicode normal forms, `repr`) is the parameter `Platform`.
use project_rag.Prelude.{
  ℕ, Text, Option, List, [], ◌∷◌, ◌++◌, Bool, true, false, map, decimal, strip, rstrip, split_on,
  join, nat_beq, if◌then◌else◌,
}

pub record Platform : Type 1 where
  -- The values of a locator: `Any` in the source.
  pub Value : Type 0
  pub number : ℕ → Value
  -- `repr(sorted(locator.items()))`
  pub repr_sorted : List (Text × Value) → Text
  -- `unicodedata.normalize("NFC", …)`, the SHA-256 hex digest, and UUID 5 in the chunk namespace.
  pub nfc : Text → Text
  pub sha256 : Text → Text
  pub uuid5 : Text → Text

pub data BlockKind : Type 0 where
  heading paragraph list table code : BlockKind

pub record Block (V : Type 0) : Type 0 where
  pub kind : BlockKind
  pub text : Text
  pub order : ℕ
  pub page : Option ℕ
  pub section_path : List Text
  pub source_locator : List (Text × V)

pub record Chunk (V : Type 0) : Type 0 where
  pub id : Text
  pub version_id : Text
  pub ordinal : ℕ
  pub text : Text
  pub embedding_text : Text
  pub token_count : ℕ
  pub content_hash : Text
  -- `none` is the block type "mixed".
  pub block_type : Option BlockKind
  pub page_start : Option ℕ
  pub page_end : Option ℕ
  pub section_path : List Text
  pub provenance : List (ℕ × Option ℕ × List (Text × V))

unfoldable pub kind_beq : BlockKind → BlockKind → Bool
kind_beq heading heading = true
kind_beq paragraph paragraph = true
kind_beq list list = true
kind_beq table table = true
kind_beq code code = true
kind_beq _ _ = false

-- `s.replace("\r\n", "\n").replace("\r", "\n")`
unfoldable pub unix_lines : Text → Text
unix_lines [] = []
unix_lines (c ∷ []) = (if nat_beq c 13 then 10 else c) ∷ []
unix_lines (c ∷ d ∷ s) =
    let rest = unix_lines (d ∷ s) in
    if nat_beq c 13 then (if nat_beq d 10 then rest else 10 ∷ rest) else c ∷ rest

module _ (p : Platform) where
  open p use {nfc, sha256, uuid5}

  unfoldable pub canonical_text : Text → Text
  canonical_text text = join (10 ∷ []) (map rstrip (split_on 10 (strip (unix_lines (nfc text)))))

  unfoldable pub content_hash : Text → Text
  content_hash text = sha256 (canonical_text text)

  unfoldable pub deterministic_chunk_id : Text → ℕ → Text → Text
  deterministic_chunk_id version_id ordinal chunk_content_hash =
      uuid5 (version_id ++ (0 ∷ (decimal ordinal ++ (0 ∷ chunk_content_hash))))
