-- ===== src/Store/Numbering.antt =====
-- The numbers that `create_version` of repositories.py gives the versions of a document.
use project_rag.Prelude.{
  ℕ, ◌≡◌, ◌<◌, Text, Option, List, [], ◌∷◌, Bool, true, not, ◌||◌, ltb, All, list_eq, nat_eq, ◌==◌,
  ok, subst, sym, Bool-cases, inl, inr, arith,
}
use project_rag.Store.Rows.{Document, DocumentVersion, Store}
use project_rag.Store.Uploads.{Upload, last_number, next_version, create_version}
use project_rag.Store.Registration.{create_version-eq}

-- Of the versions of a document, none reaches the number.
abbrev pub is_numbered_below : DocumentVersion → DocumentVersion → Bool
is_numbered_below v w =
    not (w.document_id == v.document_id) || ltb w.version_number v.version_number

last_number-bounds :
    (v : DocumentVersion) (rows : List DocumentVersion)
    → last_number v.document_id rows < v.version_number
    → All (λ w. is_numbered_below v w ≡ true) rows
last_number-bounds v [] h = tt
last_number-bounds v (w ∷ rows) h = elim (Bool-cases (w.document_id == v.document_id)) [
  | inl e ↦ (ground (arith, e, h), last_number-bounds v rows (ground (arith, e, h)))
  | inr e ↦ (ground (arith, e), last_number-bounds v rows (ground (arith, e, h)))
]

-- A version that is created has a number above those of the other versions of its document.
pub create_version-number :
    {F : Type 0} (lower : Text → Text) (document : Option Document) (id : Option Text) (u : Upload)
    (generation : ℕ) (drawn : Text) (now : ℕ) (s : Store F) {v : DocumentVersion} {new : Store F}
    → create_version lower document id u generation drawn now s ≡ ok (v, new)
    → All (λ w. is_numbered_below v w ≡ true) s.versions
create_version-number lower document id u generation drawn now s {v} {new} h =
    let (d, _, made) = create_version-eq lower document id u generation drawn now s h in
    let version = next_version lower d u generation drawn now s in
    subst (λ r. All (λ w. is_numbered_below r.0 w ≡ true) s.versions) (sym made)
      (last_number-bounds version s.versions (omega arith))
