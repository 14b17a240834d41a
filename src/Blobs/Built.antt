-- ===== src/Blobs/Built.antt =====
-- The keys that `build_blob_key` of blob_store.py builds are keys that the store accepts.
use project_rag.Prelude.{
  ℕ, suc, ◌≡◌, refl, ap, Text, codes, List, [], ◌∷◌, ◌++◌, take, map, Bool, true, false, not, ◌&&◌,
  ◌||◌, is_empty, All, All-take, length, member, nat_beq, nat_beq_iff, join, strip_of, lstrip_of,
  rstrip_of, path_parts, path_name, list_beq, list_eq, nat_eq, ◌==◌, ok, raise_if, raise_if-false,
  Returned, Returned-bind, of-Returned, Bool-cases, inl, inr, arith,
}
use project_rag.Blobs.Keys.{
  invalid_key, slashed, dots, path_text, safe_key, dashed, in_filename, in_segment, safe_filename,
  segment, build_blob_key,
}
use project_rag.Blobs.Paths.{
  is_plain, ArePlain, is_part, IsPath, path_text-lem, lstrip-All, rstrip-All,
}

dashed-All :
    (P : ℕ → Type 0) (allowed : ℕ → Bool) (inside : Bool) (s : Text)
    → ((c : ℕ) → allowed c ≡ true → P c)
    → P 45
    → All P (dashed allowed inside s)
unfolding dashed
dashed-All P allowed inside [] h k = tt
dashed-All P allowed inside (c ∷ s) h k = elim (Bool-cases (allowed c)) [
  | inl e ↦ rw e (h c e, dashed-All P allowed false s h k)
  | inr e ↦ rw e (elim (Bool-cases inside) [
    | inl i ↦ rw i (dashed-All P allowed true s h k)
    | inr i ↦ rw i (k, dashed-All P allowed true s h k)
  ])
]

strip-All : (P : ℕ → Type 0) (p : ℕ → Bool) (s : Text) → All P s → All P (strip_of p s)
unfolding strip_of
strip-All P p s h = rstrip-All P p (lstrip_of p s) (lstrip-All P p s h)

-- Empty, or with a first character that fails the test.
abbrev heads : (ℕ → Bool) → Text → Bool
heads p [] = true
heads p (c ∷ s) = not (p c)

lstrip-heads : (p : ℕ → Bool) (s : Text) → heads p (lstrip_of p s) ≡ true
unfolding lstrip_of
lstrip-heads p [] = refl
lstrip-heads p (c ∷ s) = elim (Bool-cases (p c)) [
  | inl e ↦ rw e (lstrip-heads p s)
  | inr e ↦ rw e (rw e refl)
]

rstrip-heads : (p : ℕ → Bool) (s : Text) → heads p s ≡ true → heads p (rstrip_of p s) ≡ true
unfolding rstrip_of
rstrip-heads p [] h = refl
rstrip-heads p (c ∷ s) h = elim (Bool-cases (is_empty (rstrip_of p s) && p c)) [
  | inl e ↦ rw e refl
  | inr e ↦ rw e h
]

-- A name that does not start with a dot.
abbrev starts_well : Text → Bool
starts_well [] = false
starts_well (c ∷ s) = not (nat_beq c 46)

starts_well-part : (t : Text) → starts_well t ≡ true → (is_part t ≡ true) × ((dots == t) ≡ false)
unfolding list_beq
starts_well-part [] h = cc
starts_well-part (c ∷ t) h = (ground (arith, h), ground (arith, h))

starts_well-take : (n : ℕ) (t : Text) → starts_well t ≡ true → starts_well (take (suc n) t) ≡ true
starts_well-take n [] h = h
starts_well-take n (c ∷ t) h = h

starts_well-heads :
    (p : ℕ → Bool) (t : Text)
    → p 46 ≡ true
    → is_empty t ≡ false
    → heads p t ≡ true
    → starts_well t ≡ true
starts_well-heads p [] dot h k = cc
starts_well-heads p (c ∷ t) dot h k = elim (Bool-cases (nat_beq c 46)) [
  | inl e ↦ absurd (ground (arith, k, dot, ap p ((nat_beq_iff c 46).0 e)))
  | inr e ↦ rw e refl
]

starts_well-All :
    (t : Text) → is_empty t ≡ false → All (λ c. nat_beq c 46 ≡ false) t → starts_well t ≡ true
starts_well-All [] h k = cc
starts_well-All (c ∷ t) h k = rw k.0 refl

abbrev IsName : Text → Type 0
IsName t = ArePlain t × (starts_well t ≡ true)

segment-IsName : (value : Text) → Returned IsName (segment value)
unfolding segment
segment-IsName value =
    let cleaned = strip_of (λ c. nat_beq c 45) (dashed in_segment false value) in
    Returned-bind IsName (raise_if (is_empty cleaned) invalid_key) _ (λ _ checked. (
      All-take _ 100 cleaned (
          strip-All _ _ _ (
            dashed-All (λ c. is_plain c ≡ true) in_segment false value (λ c h. ground (arith, h))
              refl)),
      starts_well-take 99 cleaned (
          starts_well-All cleaned (raise_if-false _ _ checked) (
            strip-All _ _ _ (
              dashed-All (λ c. nat_beq c 46 ≡ false) in_segment false value
                (λ c h. ground (arith, h)) refl))),
    ))

document-ArePlain : ArePlain (codes "document")
document-ArePlain = (refl, (refl, (refl, (refl, (refl, (refl, (refl, (refl, tt))))))))

safe_filename-IsName : (filename : Text) → IsName (safe_filename filename)
unfolding safe_filename strip_of
safe_filename-IsName filename =
    let p : ℕ → Bool = λ c. nat_beq c 46 || nat_beq c 45 in
    let spelled = dashed in_filename false (path_name (map slashed filename)) in
    let cleaned = strip_of p spelled in
    elim (Bool-cases (is_empty cleaned)) [
      | inl e ↦
          rw e (All-take (λ c. is_plain c ≡ true) 180 (codes "document") document-ArePlain, refl)
      | inr e ↦ rw e (
        All-take (λ c. is_plain c ≡ true) 180 cleaned
            (strip-All _ p spelled (
              dashed-All (λ c. is_plain c ≡ true) in_filename false _ (λ c h. ground (arith, h))
                refl)),
        starts_well-take 179 cleaned (
            starts_well-heads p cleaned refl e
              (rstrip-heads p (lstrip_of p spelled) (lstrip-heads p spelled))),
      )
    ]

names-IsPath :
    (names : List Text)
    → All IsName names
    → (All ArePlain names × All (λ part. is_part part ≡ true) names) × (member dots names ≡ false)
names-IsPath [] h = ((tt, tt), refl)
names-IsPath (name ∷ names) h =
    let ((plain, parts), inside) = names-IsPath names h.1 in
    let (part, apart) = starts_well-part name h.0.1 in
    (((h.0.0, plain), (part, parts)), rw (apart, inside) refl)

-- The store accepts the key unchanged, and it has five parts, of which the last is the file name.
abbrev pub BuiltSafely : Text → Text → Type 0
BuiltSafely filename key =
    (safe_key key ≡ ok key)
    × ((folders : List Text) × (length folders ≡ 4)
        × (path_parts key ≡ folders ++ safe_filename filename ∷ []))

built :
    (filename tenant collection document version : Text)
    → IsName tenant
    → IsName collection
    → IsName document
    → IsName version
    → BuiltSafely filename
        (join (47 ∷ []) (tenant ∷ collection ∷ document ∷ version ∷ safe_filename filename ∷ []))
unfolding safe_key path_text IsPath
built filename tenant collection document version h1 h2 h3 h4 =
    let names = tenant ∷ collection ∷ document ∷ version ∷ safe_filename filename ∷ [] in
    let (paths, inside) =
      names-IsPath names (h1, (h2, (h3, (h4, (safe_filename-IsName filename, tt))))) in
    let (normal, nonempty, start, reads) = path_text-lem names paths in
    (
      rw (normal, nonempty, start, reads, inside) refl,
      (tenant ∷ collection ∷ document ∷ version ∷ [], refl, reads),
    )

-- A key that is built, whatever the identifiers and the file name are, is accepted unchanged by the
-- store, and has five parts, of which the last is the safe file name.
pub build_blob_key-BuiltSafely :
    (tenant_id collection_id document_id version_id filename : Text) {key : Text}
    → build_blob_key tenant_id collection_id document_id version_id filename ≡ ok key
    → BuiltSafely filename key
unfolding build_blob_key
build_blob_key-BuiltSafely tenant_id collection_id document_id version_id filename h =
    let P = BuiltSafely filename in
    of-Returned P (build_blob_key tenant_id collection_id document_id version_id filename) h (
      Returned-bind P (segment tenant_id) _ (λ t e1.
        Returned-bind P (segment collection_id) _ (λ c e2.
          Returned-bind P (segment document_id) _ (λ d e3.
            Returned-bind P (segment version_id) _ (λ v e4.
              built filename t c d v (name tenant_id e1) (name collection_id e2)
                (name document_id e3) (name version_id e4))))))
  where
    name : (value : Text) {t : Text} → segment value ≡ ok t → IsName t
    name value h = of-Returned IsName (segment value) h (segment-IsName value)
