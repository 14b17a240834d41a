-- ===== src/Blobs/Keys.antt =====
-- `_safe_key`, `safe_filename` and `build_blob_key` of blob_store.py.
use project_rag.Prelude.{
  ℕ, Text, codes, List, [], ◌∷◌, map, take, Bool, true, false, ◌&&◌, ◌||◌, member, is_empty,
  nat_beq, leb, join, starts_with, strip_of, path_parts, path_name, list_eq, nat_eq, Result, ok,
  raise_if, ◌>>=◌, ◌>>◌, if◌then◌else◌,
}

pub data BlobError : Type 0 where
  invalid_key foreign_uri blob_not_found storage_error : BlobError

-- `key.replace("\\", "/")` of one character
abbrev pub slashed : ℕ → ℕ
slashed c = if nat_beq c 92 then 47 else c

abbrev pub is_slash : ℕ → Bool
is_slash c = nat_beq c 47

abbrev pub dots : Text
dots = 46 ∷ 46 ∷ []

-- `str(PurePosixPath(...))` of a relative path with these parts
unfoldable pub path_text : List Text → Text
path_text [] = 46 ∷ []
path_text (part ∷ parts) = join (47 ∷ []) (part ∷ parts)

abbrev pub normalized : Text → Text
normalized key = strip_of is_slash (map slashed key)

abbrev pub is_unsafe : Text → Bool
is_unsafe path = is_empty path || starts_with path (47 ∷ []) || member dots (path_parts path)

unfoldable pub safe_key : Text → Result BlobError Text
safe_key key = do
  raise_if (is_unsafe (normalized key)) invalid_key
  ok (path_text (path_parts (normalized key)))

abbrev pub is_letter_or_digit : ℕ → Bool
is_letter_or_digit c = leb 65 c && leb c 90 || leb 97 c && leb c 122 || leb 48 c && leb c 57

-- `re.sub(r"[^...]+", "-", s)`: a run of other characters becomes one dash. The flag says whether
-- the character before is in a run.
unfoldable pub dashed : (ℕ → Bool) → Bool → Text → Text
dashed allowed inside [] = []
dashed allowed inside (c ∷ s) =
    let run = dashed allowed true s in
    let rest = dashed allowed false s in
    if allowed c then c ∷ rest else if inside then run else 45 ∷ run

abbrev pub in_filename : ℕ → Bool
in_filename c = is_letter_or_digit c || nat_beq c 46 || nat_beq c 95 || nat_beq c 45

abbrev pub in_segment : ℕ → Bool
in_segment c = is_letter_or_digit c || nat_beq c 95 || nat_beq c 45

unfoldable pub safe_filename : Text → Text
safe_filename filename =
    let basename = path_name (map slashed filename) in
    let cleaned =
      strip_of (λ c. nat_beq c 46 || nat_beq c 45) (dashed in_filename false basename) in
    take 180 (if is_empty cleaned then codes "document" else cleaned)

unfoldable pub segment : Text → Result BlobError Text
segment value = do
  raise_if (is_empty (strip_of (λ c. nat_beq c 45) (dashed in_segment false value))) invalid_key
  ok (take 100 (strip_of (λ c. nat_beq c 45) (dashed in_segment false value)))

unfoldable pub build_blob_key : Text → Text → Text → Text → Text → Result BlobError Text
build_blob_key tenant_id collection_id document_id version_id filename = do
  tenant ← segment tenant_id
  collection ← segment collection_id
  document ← segment document_id
  version ← segment version_id
  ok (join (47 ∷ []) (tenant ∷ collection ∷ document ∷ version ∷ safe_filename filename ∷ []))
