-- ===== src/Blobs/RoundTrip.antt =====
-- What the local store of blob_store.py promises of the files that it is given.
use project_rag.Prelude.{
  ℕ, ◌≡◌, refl, sym, ap, subst, ◌∙◌, Text, none, some, List, [], ◌∷◌, ◌++◌, Bool, true, false, ◌||◌,
  member, starts_with, path_parts, dict_get, dict_set, dict_get-set, is_some, list_eq, nat_eq, ◌==◌,
  beq_refl, eq_of_beq, ok, raise, raise_if, ◌>>=◌, >>=-eq-ok, ok-injective, raise_if-false,
  Result-cases, Bool-cases, inl, inr, arith, if◌then◌else◌,
}
use project_rag.Blobs.Keys.{
  path_text, invalid_key, blob_not_found, dots, normalized, is_unsafe, safe_key,
}
use project_rag.Blobs.Local.{
  FilePath, Disk, scheme, resolve, relative_to, ancestors, file_at, is_directory, is_blocked,
  make_parents, write_file, read_file, reversed, without, remove_empty, remove_file, read_found,
  key_from_uri, path_for_key, placed, put_at, delete_at, put_bytes, located, get_bytes, delete,
  exists,
}
use project_rag.Blobs.Paths.{path_parts-IsPath, path_text-lem}
use project_rag.Blobs.Disks.{
  resolve-down, relative_to-below, file_at-without_self, file_at-without_other, is_blocked-same,
  files-remove_empty, is_directory-remove_empty,
}

-- A key that is accepted names the root itself or a path below it: it does not start with a slash
-- and has no part `..`, and it resolves, whatever the root is, to the path of its parts below the
-- root; and it is accepted again, unchanged.
pub safe_key-lem :
    (root : FilePath) (key : Text) {safe : Text}
    → safe_key key ≡ ok safe
    → (starts_with safe (47 ∷ []) ≡ false)
      × (member dots (path_parts safe) ≡ false)
      × (path_for_key root safe ≡ ok (path_parts safe))
      × (safe_key safe ≡ ok safe)
unfolding safe_key path_for_key
safe_key-lem root key {safe} h =
    let (_, checked, h) = >>=-eq-ok (raise_if (is_unsafe (normalized key)) invalid_key) _ h in
    let parts = path_parts (normalized key) in
    let (normal, nonempty, start, reads) = path_text-lem parts (path_parts-IsPath key) in
    let accepted = raise_if-false (is_unsafe (normalized key)) invalid_key checked in
    let inside : (member dots parts ≡ false) = ground (arith, accepted) in
    let below : (relative_to root (resolve root parts) ≡ ok parts) =
      ap (relative_to root) (resolve-down root parts inside) ∙ relative_to-below root parts in
    let text = path_text parts in
    let again : (safe_key text ≡ ok text) = rw (normal, nonempty, start, reads, inside) refl in
    subst
      (λ k.
        (starts_with k (47 ∷ []) ≡ false)
        × (member dots (path_parts k) ≡ false)
        × (path_for_key root k ≡ ok (path_parts k))
        × (safe_key k ≡ ok k))
      (ok-injective h)
      (
        start,
        ap (member dots) reads ∙ inside,
        ap (λ r. r >>= λ k. relative_to root (resolve root (path_parts k))) again
            ∙ ap (λ ps. relative_to root (resolve root ps)) reads
            ∙ below
            ∙ ap (λ ps. ok ps) (sym reads),
        again,
      )

module _ (root : FilePath) where
  abbrev stored : FilePath → List ℕ → Disk → Disk
  stored path content disk =
      let made = make_parents path disk in record made { files = dict_set path content made.files }

  -- What a call that returns has written, where.
  Written : List ℕ → Disk → Text → Disk → Type 0
  Written content disk uri new =
      (path : FilePath) × (located root uri ≡ ok path)
      × (is_blocked path disk ≡ false)
      × (is_directory path (make_parents path disk) ≡ false)
      × (new ≡ stored path content disk)

  located-put :
      (safe : Text) {path : FilePath}
      → safe_key safe ≡ ok safe
      → path_for_key root safe ≡ ok path
      → located root (scheme ++ safe) ≡ ok path
  unfolding key_from_uri starts_with
  located-put safe h k = rw (h, k) refl

  write_file-Written :
      (refuses : Disk → FilePath → Bool) (safe : Text) (path : FilePath) (content : List ℕ)
      (disk : Disk) {uri : Text} {new : Disk}
      → safe_key safe ≡ ok safe
      → path_for_key root safe ≡ ok path
      → write_file refuses safe path content disk ≡ (ok uri, new)
      → Written content disk uri new
  unfolding write_file Written
  write_file-Written refuses safe path content disk {uri} {new} h k written =
      let made = make_parents path disk in
      elim (Bool-cases (is_blocked path disk)) [
        | inl e ↦ absurd (ground (arith, written, e))
        | inr e ↦ elim (Bool-cases (refuses made path || is_directory path made)) [
          | inl f ↦ absurd (ground (arith, written, e, f))
          | inr f ↦
              let ends : write_file refuses safe path content disk
                  ≡ (ok (scheme ++ safe), stored path content disk) =
                rw (e, f) refl in
              let same = sym ends ∙ written in
              (
                path,
                ap (located root) (sym (ok-injective (ap (λ r. r.0) same))) ∙ located-put safe h k,
                e,
                ground (arith, f),
                sym (ap (λ r. r.1) same),
              )
        ]
      ]

  put_bytes-Written :
      (refuses : Disk → FilePath → Bool) (key : Text) (content : List ℕ) (disk : Disk) {uri : Text}
      {new : Disk}
      → put_bytes root refuses key content disk ≡ (ok uri, new)
      → Written content disk uri new
  unfolding put_bytes
  put_bytes-Written refuses key content disk {uri} {new} h = elim (Result-cases (safe_key key)) [
    | inl (e, k) ↦
        let refused : (placed root key ≡ raise e) = rw k refl in
        absurd (cc (ap (put_at refuses content disk) (sym refused) ∙ h))
    | inr (safe, k) ↦
        let (_, _, there, again) = safe_key-lem root key k in
        let found : (placed root key ≡ ok (safe, path_parts safe)) = rw (k, there) refl in
        write_file-Written refuses safe (path_parts safe) content disk again there
          (ap (put_at refuses content disk) (sym found) ∙ h)
  ]

  files-make_parents : (path : FilePath) (disk : Disk) → (make_parents path disk).files ≡ disk.files
  unfolding make_parents
  files-make_parents path disk = refl

  file_at-stored :
      (path other : FilePath) (content : List ℕ) (disk : Disk)
      → file_at other (stored path content disk)
        ≡ (if other == path then some content else file_at other disk)
  file_at-stored path other content disk =
      dict_get-set path other content (make_parents path disk).files
      ∙ ap (λ files. if other == path then some content else dict_get other files)
          (files-make_parents path disk)

  abbrev removed : FilePath → Disk → Disk
  removed path disk = remove_empty (reversed (ancestors path)) (without path disk)

  file_at-removed :
      (path other : FilePath) (disk : Disk)
      → file_at other (removed path disk) ≡ (if other == path then none else file_at other disk)
  file_at-removed path other disk =
      ap (dict_get other) (files-remove_empty (reversed (ancestors path)) (without path disk))
      ∙ elim (Bool-cases (other == path)) [
        | inl e ↦ rw (e, eq_of_beq other path e) (file_at-without_self path disk)
        | inr e ↦ rw e (file_at-without_other path other disk e)
      ]

  -- What was stored can be deleted, and is not found then.
  removed-lem :
      (uri : Text) (path : FilePath) (content : List ℕ) (disk : Disk)
      → located root uri ≡ ok path
      → is_blocked path disk ≡ false
      → is_directory path (make_parents path disk) ≡ false
      → (delete root uri (stored path content disk)
          ≡ (ok tt, removed path (stored path content disk)))
        × (get_bytes root uri (removed path (stored path content disk)) ≡ raise blob_not_found)
  unfolding delete get_bytes remove_file
  removed-lem uri path content disk at free no_directory =
      let new = stored path content disk in
      let gone = removed path new in
      let above_new : is_blocked path new ≡ false =
        is_blocked-same path disk new
          (λ above apart. file_at-stored path above content disk ∙ rw apart refl)
        ∙ free in
      let above_gone : is_blocked path gone ≡ false =
        is_blocked-same path new gone
          (λ above apart. file_at-removed path above new ∙ rw apart refl)
        ∙ above_new in
      let none_gone : is_directory path gone ≡ false =
        is_directory-remove_empty path (reversed (ancestors path)) (without path new)
          no_directory in
      let clear : (is_directory path gone || is_blocked path gone) ≡ false =
        rw (none_gone, above_gone) refl in
      let absent : file_at path gone ≡ none =
        file_at-removed path path new ∙ rw (beq_refl path) refl in
      (
        ap (delete_at new) at ∙ rw (no_directory, above_new) refl,
        ap (λ l. l >>= λ p. read_file p gone) at
            ∙ ap (λ f. read_found (is_directory path gone || is_blocked path gone) f) absent
            ∙ ap (λ b. read_found b none) clear,
      )

  -- After a call of `put_bytes` that returns, the URI that it returns names a file with the content.
  -- It can be deleted, and is not found then. Neither the call nor the deletion changes, makes or
  -- removes any other file.
  pub get_bytes-put_bytes :
      (refuses : Disk → FilePath → Bool) (key : Text) (content : List ℕ) (disk : Disk) {uri : Text}
      {new : Disk}
      → put_bytes root refuses key content disk ≡ (ok uri, new)
      → (path : FilePath) × (gone : Disk) × (located root uri ≡ ok path)
        × (get_bytes root uri new ≡ ok content)
        × (exists root uri new ≡ ok true)
        × ((other : FilePath)
            → file_at other new ≡ (if other == path then some content else file_at other disk))
        × (delete root uri new ≡ (ok tt, gone))
        × (get_bytes root uri gone ≡ raise blob_not_found)
        × ((other : FilePath)
            → file_at other gone ≡ (if other == path then none else file_at other disk))
  unfolding get_bytes exists Written
  get_bytes-put_bytes refuses key content disk {uri} {new} h =
      let (path, at, free, no_directory, made) = put_bytes-Written refuses key content disk h in
      let now = stored path content disk in
      let here : file_at path now ≡ some content =
        file_at-stored path path content disk ∙ rw (beq_refl path) refl in
      let (deleted, not_found) = removed-lem uri path content disk at free no_directory in
      rw made (
        path,
        removed path now,
        at,
        ap (λ l. l >>= λ p. read_file p now) at
            ∙ ap (read_found (is_directory path now || is_blocked path now)) here,
        ap (λ l. l >>= λ p. ok (is_some (file_at p now))) at ∙ ap (λ f. ok (is_some f)) here,
        λ other. file_at-stored path other content disk,
        deleted,
        not_found,
        λ other.
            file_at-removed path other now
            ∙ both other (other == path) path content disk (file_at-stored path other content disk),
      )
    where
      both :
          (other : FilePath) (same : Bool) (path : FilePath) (content : List ℕ) (disk : Disk)
          → file_at other (stored path content disk)
            ≡ (if same then some content else file_at other disk)
          → (if same then none else file_at other (stored path content disk))
            ≡ (if same then none else file_at other disk)
      both other true path content disk e = refl
      both other false path content disk e = e
