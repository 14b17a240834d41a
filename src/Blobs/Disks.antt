-- ===== src/Blobs/Disks.antt =====
-- The paths of blob_store.py, and what writing and removing one file does to the other files and to
-- the directories of the disk.
use project_rag.Prelude.{
  ℕ, ◌≡◌, refl, sym, ap, ◌∙◌, Text, none, some, List, [], ◌∷◌, map, keep, false, not, ◌&&◌, any,
  is_some, member, member-keep, ◌++◌, append-nil, append_assoc, beq_of_eq, ok, All, All-map,
  eq_of_beq, dict_get, list_beq, list_eq, nat_eq, ◌==◌, beq_refl, bne_symm, Bool-cases, inl, inr,
  arith, if◌then◌else◌,
}
use project_rag.Blobs.Keys.{dots}
use project_rag.Blobs.Local.{
  resolve, relative_to, FilePath, Disk, ancestors, file_at, is_directory, is_blocked, has_child,
  remove_empty, without,
}

map-under :
    (name : Text) (path : FilePath) (paths : List FilePath)
    → All (λ above. (above == path) ≡ false) paths
    → All (λ above. (above == (name ∷ path)) ≡ false) (map (λ p. name ∷ p) paths)
unfolding list_beq
map-under name path [] h = tt
map-under name path (above ∷ paths) h =
    (rw (h.0, beq_refl name) refl, map-under name path paths h.1)

-- A path is none of the directories above it.
pub ancestors-Proper : (path : FilePath) → All (λ above. (above == path) ≡ false) (ancestors path)
unfolding ancestors list_beq
ancestors-Proper [] = tt
ancestors-Proper (name ∷ []) = tt
ancestors-Proper (name ∷ next ∷ names) = (
  rw (beq_refl name) refl,
  map-under name (next ∷ names) (ancestors (next ∷ names)) (ancestors-Proper (next ∷ names)),
)

pub file_at-without_self : (path : FilePath) (disk : Disk) → file_at path (without path disk) ≡ none
unfolding dict_get
file_at-without_self path disk = gone disk.files
  where
    gone :
        (files : List (FilePath × List ℕ))
        → dict_get path (keep (λ file. not (file.0 == path)) files) ≡ none
    gone [] = refl
    gone (file ∷ files) = elim (Bool-cases (file.0 == path)) [
      | inl e ↦ rw e (gone files)
      | inr e ↦ rw (e, bne_symm file.0 path e) (gone files)
    ]

pub file_at-without_other :
    (path other : FilePath) (disk : Disk)
    → (other == path) ≡ false
    → file_at other (without path disk) ≡ file_at other disk
unfolding dict_get
file_at-without_other path other disk apart = kept disk.files
  where
    kept :
        (files : List (FilePath × List ℕ))
        → dict_get other (keep (λ file. not (file.0 == path)) files) ≡ dict_get other files
    kept [] = refl
    kept (file ∷ files) = elim (Bool-cases (file.0 == path)) [
      | inl e ↦
          let here = eq_of_beq file.0 path e in rw e (kept files ∙ sym (rw (here, apart) refl))
      | inr e ↦ rw e (ap (λ found. if other == file.0 then some file.1 else found) (kept files))
    ]

-- Nothing is in the way where no directory of the list is a file.
same_blocked :
    (paths : List FilePath) (before after : Disk)
    → All (λ above. file_at above after ≡ file_at above before) paths
    → any (λ above. is_some (file_at above after)) paths
      ≡ any (λ above. is_some (file_at above before)) paths
same_blocked [] before after h = refl
same_blocked (above ∷ paths) before after h = rw (h.0, same_blocked paths before after h.1) refl

pub is_blocked-same :
    (path : FilePath) (before after : Disk)
    → ((above : FilePath) → (above == path) ≡ false → file_at above after ≡ file_at above before)
    → is_blocked path after ≡ is_blocked path before
is_blocked-same path before after h = same_blocked (ancestors path) before after (
    All-map (λ above. (above == path) ≡ false) (λ above. file_at above after ≡ file_at above before)
      h (ancestors path) (ancestors-Proper path))

pub files-remove_empty :
    (paths : List FilePath) (disk : Disk) → (remove_empty paths disk).files ≡ disk.files
unfolding remove_empty
files-remove_empty [] disk = refl
files-remove_empty (path ∷ paths) disk =
    elim (Bool-cases (member path disk.directories && not (has_child path disk))) [
      | inl e ↦ rw e (files-remove_empty paths _)
      | inr e ↦ rw e refl
    ]

-- Removing directories makes none.
pub is_directory-remove_empty :
    (path : FilePath) (paths : List FilePath) (disk : Disk)
    → is_directory path disk ≡ false
    → is_directory path (remove_empty paths disk) ≡ false
unfolding remove_empty
is_directory-remove_empty path [] disk h = h
is_directory-remove_empty path (first ∷ paths) disk h =
    elim (Bool-cases (member first disk.directories && not (has_child first disk))) [
      | inl e ↦ rw e (
          is_directory-remove_empty path paths _
            (ground (arith, h, member-keep (λ other. not (other == first)) path disk.directories)))
      | inr e ↦ rw e h
    ]

pub resolve-down :
    (base : FilePath) (parts : List Text)
    → member dots parts ≡ false
    → resolve base parts ≡ base ++ parts
unfolding resolve
resolve-down base [] h = sym (append-nil base)
resolve-down base (part ∷ parts) h = elim (Bool-cases (part == dots)) [
  | inl e ↦ absurd (ground (arith, h, beq_of_eq dots part (sym (eq_of_beq part dots e))))
  | inr e ↦ rw e (
      resolve-down (base ++ part ∷ []) parts (ground (arith, h))
      ∙ append_assoc base (part ∷ []) parts)
]

pub relative_to-below : (root path : FilePath) → relative_to root (root ++ path) ≡ ok path
unfolding relative_to
relative_to-below [] path = refl
relative_to-below (name ∷ root) path = rw (beq_refl name) (relative_to-below root path)
