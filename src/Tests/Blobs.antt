-- ===== src/Tests/Blobs.antt =====
-- A file stored under a key with a Windows separator.
use project_rag.Prelude.{
  ◌≡◌, refl, codes, Text, [], ◌∷◌, true, false, member, path_parts, path_name, last_text,
  starts_with, list_eq, nat_eq, ok, raise, list_beq, join, split_on, strip_of, lstrip_of, rstrip_of,
  dict_get, dict_set, none, some, if◌then◌else◌, ◌==◌, true,
}
use project_rag.Blobs.Built.{BuiltSafely, build_blob_key-BuiltSafely}
use project_rag.Blobs.Keys.{
  build_blob_key, segment, safe_filename, dashed, blob_not_found, dots, path_text, safe_key,
}
use project_rag.Blobs.Local.{
  FilePath, Disk, parent, resolve, relative_to, ancestors, file_at, make_parents, write_file,
  path_for_key, put_bytes, located, get_bytes, delete, exists,
}
use project_rag.Blobs.RoundTrip.{safe_key-lem, get_bytes-put_bytes}

abbrev key : Text
key = codes "a\\b//c.txt"

accepts : (safe : Text) × (safe_key key ≡ ok safe)
unfolding safe_key path_parts path_text list_beq join split_on strip_of lstrip_of rstrip_of
    starts_with
accepts = (_, refl)

abbrev root : FilePath
root = codes "srv" ∷ codes "blobs" ∷ []

safe_key-lem_example :
    (starts_with accepts.0 (47 ∷ []) ≡ false)
    × (member dots (path_parts accepts.0) ≡ false)
    × (path_for_key root accepts.0 ≡ ok (path_parts accepts.0))
    × (safe_key accepts.0 ≡ ok accepts.0)
safe_key-lem_example = safe_key-lem root key accepts.1

abbrev disk : Disk
disk = record { files = (codes "x" ∷ [], 7 ∷ []) ∷ []; directories = [] }

stores :
    (r : Text × Disk) × (put_bytes root (λ disk path. false) key (1 ∷ 2 ∷ []) disk ≡ (ok r.0, r.1))
unfolding put_bytes path_for_key resolve relative_to write_file make_parents ancestors parent
    safe_key path_parts path_text list_beq join split_on strip_of lstrip_of rstrip_of starts_with
    dict_get dict_set
stores = (_, refl)

get_bytes-put_bytes_example :
    (path : FilePath) × (gone : Disk) × (located root stores.0.0 ≡ ok path)
    × (get_bytes root stores.0.0 stores.0.1 ≡ ok (1 ∷ 2 ∷ []))
    × (exists root stores.0.0 stores.0.1 ≡ ok true)
    × ((other : FilePath)
        → file_at other stores.0.1
          ≡ (if other == path then some (1 ∷ 2 ∷ []) else file_at other disk))
    × (delete root stores.0.0 stores.0.1 ≡ (ok tt, gone))
    × (get_bytes root stores.0.0 gone ≡ raise blob_not_found)
    × ((other : FilePath)
        → file_at other gone ≡ (if other == path then none else file_at other disk))
get_bytes-put_bytes_example =
    get_bytes-put_bytes root (λ disk path. false) key (1 ∷ 2 ∷ []) disk stores.1

builds :
    (built : Text) × (build_blob_key
        (codes "t")
        (codes "c d")
        (codes "e")
        (codes "f")
        (codes "../a b.txt")
      ≡ ok built)
unfolding build_blob_key segment safe_filename dashed path_name path_parts list_beq join split_on
    strip_of lstrip_of rstrip_of last_text
builds = (_, refl)

build_blob_key-BuiltSafely_example : BuiltSafely (codes "../a b.txt") builds.0
build_blob_key-BuiltSafely_example =
    build_blob_key-BuiltSafely (codes "t") (codes "c d") (codes "e") (codes "f")
      (codes "../a b.txt") builds.1
