-- ===== src/Blobs/Local.antt =====
-- `LocalBlobStore` of blob_store.py. A path below the root is the list of its names; the disk is the
-- files there, a dictionary, and the directories other than the root. There are no symbolic links,
-- and names are such as the file system takes. `refuses` says when it refuses a write, on a full
-- disk; the errors of the operating system are one, `storage_error`.
use project_rag.Prelude.{
  ℕ, Text, codes, Option, none, some, List, [], ◌∷◌, ◌++◌, map, drop, keep, Bool, true, false, not,
  ◌&&◌, ◌||◌, any, is_some, is_empty, member, starts_with, path_parts, dict_get, dict_set, list_eq,
  nat_eq, ◌==◌, Result, ok, raise, raise_if, ◌>>=◌, ◌>>◌, if◌then◌else◌,
}
use project_rag.Blobs.Keys.{
  BlobError, invalid_key, foreign_uri, blob_not_found, storage_error, dots, safe_key,
}

abbrev pub FilePath : Type 0
FilePath = List Text

pub record Disk : Type 0 where
  pub files : List (FilePath × List ℕ)
  pub directories : List FilePath

abbrev pub scheme : Text
scheme = codes "local://"

-- `.parent` of a path that is not the root
unfoldable pub parent : FilePath → FilePath
parent [] = []
parent (name ∷ []) = []
parent (name ∷ next ∷ names) = name ∷ parent (next ∷ names)

-- `(base / …).resolve()`: a part `..` leads to the parent.
unfoldable pub resolve : FilePath → List Text → FilePath
resolve base [] = base
resolve base (part ∷ parts) =
    let up = resolve (parent base) parts in
    let down = resolve (base ++ part ∷ []) parts in if part == dots then up else down

-- `destination.relative_to(root)`
unfoldable pub relative_to : FilePath → FilePath → Result BlobError FilePath
relative_to [] path = ok path
relative_to (name ∷ names) [] = raise invalid_key
relative_to (name ∷ names) (other ∷ others) =
    let rest = relative_to names others in if name == other then rest else raise invalid_key

-- The directories between the root and a path.
unfoldable pub ancestors : FilePath → List FilePath
ancestors [] = []
ancestors (name ∷ []) = []
ancestors (name ∷ next ∷ names) = (name ∷ []) ∷ map (λ path. name ∷ path) (ancestors (next ∷ names))

abbrev pub file_at : FilePath → Disk → Option (List ℕ)
file_at path disk = dict_get path disk.files

abbrev pub is_directory : FilePath → Disk → Bool
is_directory path disk = is_empty path || member path disk.directories

-- A file is where a directory above the path would be.
abbrev pub is_blocked : FilePath → Disk → Bool
is_blocked path disk = any (λ above. is_some (file_at above disk)) (ancestors path)

-- `destination.parent.mkdir(parents=True, exist_ok=True)`, where it does not raise
unfoldable pub make_parents : FilePath → Disk → Disk
make_parents path disk = record disk {
  directories =
      disk.directories ++ keep (λ above. not (member above disk.directories)) (ancestors path);
}

unfoldable pub write_file :
    (Disk → FilePath → Bool) → Text → FilePath → List ℕ → Disk → Result BlobError Text × Disk
write_file refuses safe path content disk =
    let made = make_parents path disk in
    if is_blocked path disk
    then (raise storage_error, disk)
    else if refuses made path || is_directory path made
    then (raise storage_error, made)
    else (ok (scheme ++ safe), record made { files = dict_set path content made.files })

-- Reading a directory, or below a file, is an error, and what is not there is not found.
abbrev pub read_found : Bool → Option (List ℕ) → Result BlobError (List ℕ)
read_found in_the_way (some content) = ok content
read_found true none = raise storage_error
read_found false none = raise blob_not_found

abbrev pub read_file : FilePath → Disk → Result BlobError (List ℕ)
read_file path disk =
    read_found (is_directory path disk || is_blocked path disk) (file_at path disk)

abbrev pub has_child : FilePath → Disk → Bool
has_child path disk =
    any (λ file. parent file.0 == path) disk.files
    || any (λ directory. parent directory == path) disk.directories

-- `parent.rmdir()` up the path, until one is not empty, or is not there.
unfoldable pub remove_empty : List FilePath → Disk → Disk
remove_empty [] disk = disk
remove_empty (path ∷ paths) disk =
    let rest =
      remove_empty paths
        (record disk { directories = keep (λ other. not (other == path)) disk.directories }) in
    if member path disk.directories && not (has_child path disk) then rest else disk

abbrev pub reversed : {A : Type 0} → List A → List A
reversed [] = []
reversed (x ∷ xs) = reversed xs ++ x ∷ []

abbrev pub without : FilePath → Disk → Disk
without path disk = record disk { files = keep (λ file. not (file.0 == path)) disk.files }

-- `path.unlink(missing_ok=True)` and the loop behind it
unfoldable pub remove_file : FilePath → Disk → Result BlobError (Unit {0}) × Disk
remove_file path disk =
    if is_directory path disk || is_blocked path disk
    then (raise storage_error, disk)
    else (ok tt, remove_empty (reversed (ancestors path)) (without path disk))

unfoldable pub key_from_uri : Text → Result BlobError Text
key_from_uri blob_uri = do
  raise_if (not (starts_with blob_uri scheme)) foreign_uri
  safe_key (drop 8 blob_uri)

abbrev pub put_at :
    (Disk → FilePath → Bool)
    → List ℕ
    → Disk
    → Result BlobError (Text × FilePath)
    → Result BlobError Text × Disk
put_at refuses content disk (raise e) = (raise e, disk)
put_at refuses content disk (ok (safe, path)) = write_file refuses safe path content disk

abbrev pub delete_at : Disk → Result BlobError FilePath → Result BlobError (Unit {0}) × Disk
delete_at disk (raise e) = (raise e, disk)
delete_at disk (ok path) = remove_file path disk

module _ (root : FilePath) where
  unfoldable pub path_for_key : Text → Result BlobError FilePath
  path_for_key key = do safe ← safe_key key; relative_to root (resolve root (path_parts safe))

  -- The key in normal form, and the path that it names.
  abbrev pub placed : Text → Result BlobError (Text × FilePath)
  placed key = do safe ← safe_key key; path ← path_for_key safe; ok (safe, path)

  unfoldable pub put_bytes :
      (Disk → FilePath → Bool) → Text → List ℕ → Disk → Result BlobError Text × Disk
  put_bytes refuses key content disk = put_at refuses content disk (placed key)

  abbrev pub located : Text → Result BlobError FilePath
  located blob_uri = key_from_uri blob_uri >>= path_for_key

  unfoldable pub get_bytes : Text → Disk → Result BlobError (List ℕ)
  get_bytes blob_uri disk = located blob_uri >>= λ path. read_file path disk

  unfoldable pub delete : Text → Disk → Result BlobError (Unit {0}) × Disk
  delete blob_uri disk = delete_at disk (located blob_uri)

  unfoldable pub exists : Text → Disk → Result BlobError Bool
  exists blob_uri disk = located blob_uri >>= λ path. ok (is_some (file_at path disk))
