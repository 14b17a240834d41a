-- ===== src/Blobs/Paths.antt =====
-- The text of a path that `_safe_key` of blob_store.py returns reads back as its parts.
use project_rag.Prelude.{
  ℕ, ◌≡◌, refl, sym, ap, subst, ◌∙◌, Text, List, [], ◌∷◌, ◌++◌, append-nil, append_assoc, map, Bool,
  true, false, not, ◌&&◌, All, All-map, All-append, All-keep, keep, keep-All, keep-eq_self,
  is_empty, nat_beq, join, split_on, strip_of, lstrip_of, rstrip_of, starts_with, path_parts,
  list_beq, list_eq, nat_eq, ◌==◌, Bool-cases, List-cases, inl, inr, arith,
}
use project_rag.Blobs.Keys.{slashed, is_slash, path_text, normalized}

-- A character that a part of a stored key may have.
abbrev pub is_plain : ℕ → Bool
is_plain c = not (nat_beq c 47) && not (nat_beq c 92)

abbrev pub ArePlain : Text → Type 0
ArePlain = All (λ c. is_plain c ≡ true)

abbrev pub is_part : Text → Bool
is_part part = not (is_empty part) && not (part == (46 ∷ []))

plain-not-slash : (c : ℕ) → is_plain c ≡ true → nat_beq c 47 ≡ false
plain-not-slash c h = ground arith

split-plain : (s : Text) → ArePlain s → split_on 47 s ≡ s ∷ []
unfolding split_on
split-plain [] h = refl
split-plain (c ∷ s) h = rw (plain-not-slash c h.0, split-plain s h.1) refl

split-slash : (s rest : Text) → ArePlain s → split_on 47 (s ++ 47 ∷ rest) ≡ s ∷ split_on 47 rest
unfolding split_on
split-slash [] rest h = refl
split-slash (c ∷ s) rest h = rw (plain-not-slash c h.0, split-slash s rest h.1) refl

join-cons :
    (part other : Text) (parts : List Text)
    → join (47 ∷ []) (part ∷ other ∷ parts) ≡ part ++ 47 ∷ join (47 ∷ []) (other ∷ parts)
unfolding join
join-cons part other parts = append_assoc part (47 ∷ []) (join (47 ∷ []) (other ∷ parts))

split-join :
    (part : Text) (parts : List Text)
    → All ArePlain (part ∷ parts)
    → split_on 47 (join (47 ∷ []) (part ∷ parts)) ≡ part ∷ parts
unfolding join
split-join part [] h = split-plain part h.0
split-join part (other ∷ parts) h =
    ap (split_on 47) (join-cons part other parts)
    ∙ split-slash part (join (47 ∷ []) (other ∷ parts)) h.0
    ∙ ap (◌∷◌ part) (split-join other parts h.1)

-- The characters that a text is split at are in none of its parts.
split-All : (s : Text) → All (λ c. nat_beq c 92 ≡ false) s → All ArePlain (split_on 47 s)
unfolding split_on
split-All [] h = (tt, tt)
split-All (c ∷ s) h = elim (Bool-cases (nat_beq c 47)) [
  | inl e ↦ rw e (tt, split-All s h.1)
  | inr e ↦ elim (List-cases (split_on 47 s)) [
    | inl k ↦ rw (e, k) ((ground (arith, e, h.0), tt), tt)
    | inr (w, ws, k) ↦
        let rest = subst (All ArePlain) k (split-All s h.1) in
        rw (e, k) ((ground (arith, e, h.0), rest.0), rest.1)
  ]
]

pub lstrip-All : (P : ℕ → Type 0) (p : ℕ → Bool) (s : Text) → All P s → All P (lstrip_of p s)
unfolding lstrip_of
lstrip-All P p [] h = tt
lstrip-All P p (c ∷ s) h = elim (Bool-cases (p c)) [
  | inl e ↦ rw e (lstrip-All P p s h.1)
  | inr e ↦ rw e h
]

pub rstrip-All : (P : ℕ → Type 0) (p : ℕ → Bool) (s : Text) → All P s → All P (rstrip_of p s)
unfolding rstrip_of
rstrip-All P p [] h = tt
rstrip-All P p (c ∷ s) h = elim (Bool-cases (is_empty (rstrip_of p s) && p c)) [
  | inl e ↦ rw e tt
  | inr e ↦ rw e (h.0, rstrip-All P p s h.1)
]

slashed-All : (s : Text) → All (λ c. nat_beq c 92 ≡ false) (map slashed s)
slashed-All [] = tt
slashed-All (c ∷ s) = (ground arith, slashed-All s)

normalized-All : (key : Text) → All (λ c. nat_beq c 92 ≡ false) (normalized key)
unfolding strip_of
normalized-All key =
    rstrip-All _ is_slash _
      (lstrip-All (λ c. nat_beq c 92 ≡ false) is_slash (map slashed key) (slashed-All key))

-- The parts of a key.
unfoldable pub IsPath : List Text → Type 0
IsPath parts = All ArePlain parts × All (λ part. is_part part ≡ true) parts

pub path_parts-IsPath : (key : Text) → IsPath (path_parts (normalized key))
unfolding path_parts IsPath
path_parts-IsPath key = (
  All-keep ArePlain is_part (split_on 47 (normalized key))
      (split-All (normalized key) (normalized-All key)),
  keep-All is_part (split_on 47 (normalized key)),
)

nonempty-append : (s t : Text) → is_empty t ≡ false → is_empty (s ++ t) ≡ false
nonempty-append [] t h = h
nonempty-append (c ∷ s) t h = refl

rstrip-behind :
    (c : ℕ) (s : Text)
    → is_empty s ≡ false
    → rstrip_of is_slash s ≡ s
    → rstrip_of is_slash (c ∷ s) ≡ c ∷ s
unfolding rstrip_of
rstrip-behind c s h e = rw (e, h) refl

rstrip-append :
    (s t : Text)
    → is_empty t ≡ false
    → rstrip_of is_slash t ≡ t
    → rstrip_of is_slash (s ++ t) ≡ s ++ t
rstrip-append [] t h e = e
rstrip-append (c ∷ s) t h e =
    rstrip-behind c (s ++ t) (nonempty-append s t h) (rstrip-append s t h e)

rstrip-plain : (s : Text) → ArePlain s → rstrip_of is_slash s ≡ s
unfolding rstrip_of
rstrip-plain [] h = refl
rstrip-plain (c ∷ s) h = elim (Bool-cases (is_empty s)) [
  | inl e ↦ rw (rstrip-plain s h.1, e, plain-not-slash c h.0) refl
  | inr e ↦ rw (rstrip-plain s h.1, e) refl
]

part-nonempty : (part : Text) → is_part part ≡ true → is_empty part ≡ false
part-nonempty part h = ground arith

-- The text of parts has no slash at its end.
join-ends :
    (part : Text) (parts : List Text)
    → All ArePlain (part ∷ parts)
    → All (λ part. is_part part ≡ true) (part ∷ parts)
    → (is_empty (join (47 ∷ []) (part ∷ parts)) ≡ false)
      × (rstrip_of is_slash (join (47 ∷ []) (part ∷ parts)) ≡ join (47 ∷ []) (part ∷ parts))
unfolding join
join-ends part [] h k = (part-nonempty part k.0, rstrip-plain part h.0)
join-ends part (other ∷ parts) h k =
    let (nonempty, ends) = join-ends other parts h.1 k.1 in
    let rest = join (47 ∷ []) (other ∷ parts) in
    rw (join-cons part other parts) (
      nonempty-append part (47 ∷ rest) refl,
      rstrip-append part (47 ∷ rest) refl (rstrip-behind 47 rest nonempty ends),
    )

map-slashed : (s : Text) → All (λ c. nat_beq c 92 ≡ false) s → map slashed s ≡ s
map-slashed [] h = refl
map-slashed (c ∷ s) h = rw (h.0, map-slashed s h.1) refl

join-no-backslash :
    (part : Text) (parts : List Text)
    → All ArePlain (part ∷ parts)
    → All (λ c. nat_beq c 92 ≡ false) (join (47 ∷ []) (part ∷ parts))
unfolding join
join-no-backslash part [] h = All-map _ _ (λ c k. ground arith) part h.0
join-no-backslash part (other ∷ parts) h =
    subst (All (λ c. nat_beq c 92 ≡ false)) (sym (join-cons part other parts)) (
      All-append (λ c. nat_beq c 92 ≡ false) part (47 ∷ join (47 ∷ []) (other ∷ parts))
        (All-map _ _ (λ c k. ground arith) part h.0) (refl, join-no-backslash other parts h.1))

-- A path that starts with a part starts with no slash.
lstrip-join :
    (part : Text) (rest : Text)
    → ArePlain part
    → is_part part ≡ true
    → (lstrip_of is_slash (part ++ rest) ≡ part ++ rest)
      × (starts_with (part ++ rest) (47 ∷ []) ≡ false)
unfolding lstrip_of starts_with
lstrip-join [] rest h k = cc
lstrip-join (c ∷ part) rest h k = rw (plain-not-slash c h.0) (refl, refl)

join-starts :
    (part : Text) (parts : List Text)
    → (rest : Text) × (join (47 ∷ []) (part ∷ parts) ≡ part ++ rest)
unfolding join
join-starts part [] = ([], sym (append-nil part))
join-starts part (other ∷ parts) = (_, join-cons part other parts)

-- The text of a path is in normal form, starts with no slash, and reads back as its parts.
pub path_text-lem :
    (parts : List Text)
    → IsPath parts
    → (normalized (path_text parts) ≡ path_text parts)
      × (is_empty (path_text parts) ≡ false)
      × (starts_with (path_text parts) (47 ∷ []) ≡ false)
      × (path_parts (path_text parts) ≡ parts)
unfolding path_text path_parts strip_of lstrip_of rstrip_of starts_with split_on IsPath list_beq
path_text-lem [] h = (refl, refl, refl, refl)
path_text-lem (part ∷ parts) (plain, good) =
    let whole = join (47 ∷ []) (part ∷ parts) in
    let (nonempty, ends) = join-ends part parts plain good in
    let (rest, begins) = join-starts part parts in
    let (left, start) = lstrip-join part rest plain.0 good.0 in
    (
      ap (strip_of is_slash) (map-slashed whole (join-no-backslash part parts plain))
          ∙ ap (rstrip_of is_slash) (ap (lstrip_of is_slash) begins ∙ left ∙ sym begins)
          ∙ ends,
      nonempty,
      ap (λ t. starts_with t (47 ∷ [])) begins ∙ start,
      ap (keep is_part) (split-join part parts plain) ∙ keep-eq_self is_part (part ∷ parts) good,
    )
