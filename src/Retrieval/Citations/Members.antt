-- ===== src/Retrieval/Citations/Members.antt =====
-- The lists of labels of citations.py and what they hold.
use project_rag.Prelude.{
  ◌≡◌, refl, ◌↔◌, Text, List, [], ◌∷◌, map, Bool, true, false, not, ◌&&◌, ◌||◌, is_empty, keep,
  member, All, Distinct, list_eq, nat_eq, ◌==◌, arith, Bool-cases, inl, inr, ap, ◌∙◌, sym, list_beq,
  list_beq_iff, beq_refl, eq_of_beq, All-of_member, member_of_All,
}
use project_rag.Retrieval.Citations.{unique_from, ordered_unique}

member-unique_from :
    (v : Text) (seen vs : List Text)
    → member v (unique_from seen vs) ≡ (member v vs && not (member v seen))
unfolding unique_from
member-unique_from v seen [] = refl
member-unique_from v seen (w ∷ vs) = elim (Bool-cases (member w seen)) [
  | inl old ↦ rw old (ground (arith, list_beq_iff v w, old, member-unique_from v seen vs))
  | inr new ↦ rw new (ground (arith, list_beq_iff v w, new, member-unique_from v (w ∷ seen) vs))
]

pub member-ordered_unique : (v : Text) (vs : List Text) → member v (ordered_unique vs) ≡ member v vs
unfolding ordered_unique
member-ordered_unique v vs = member-unique_from v [] vs ∙ and_true (member v vs)
  where
    and_true : (b : Bool) → (b && true) ≡ b
    and_true true = refl
    and_true false = refl

unique_from-Distinct : (seen vs : List Text) → Distinct (unique_from seen vs)
unfolding unique_from
unique_from-Distinct seen [] = tt
unique_from-Distinct seen (w ∷ vs) = elim (Bool-cases (member w seen)) [
  | inl old ↦ rw old (unique_from-Distinct seen vs)
  | inr new ↦ rw new (
    ground (arith, member-unique_from w (w ∷ seen) vs, beq_refl w),
    unique_from-Distinct (w ∷ seen) vs,
  )
]

pub ordered_unique-Distinct : (vs : List Text) → Distinct (ordered_unique vs)
unfolding ordered_unique
ordered_unique-Distinct = unique_from-Distinct []

-- No reference is outside the allowed labels exactly if the list of invalid ones is empty.
pub none_invalid :
    (f : Text → Bool) (xs : List Text)
    → (is_empty (keep (λ v. not (f v)) xs) ≡ true) ↔ All (λ v. f v ≡ true) xs
none_invalid f [] = (λ _. tt, λ _. refl)
none_invalid f (x ∷ xs) = elim (Bool-cases (f x)) [
  | inl fine ↦ rw fine (λ h. (refl, (none_invalid f xs).0 h), λ h. (none_invalid f xs).1 h.1)
  | inr bad ↦ rw bad (λ h. cc, λ h. cc)
]

pub All-ordered_unique :
    (f : Text → Bool) (xs : List Text)
    → All (λ v. f v ≡ true) (ordered_unique xs) ↔ All (λ v. f v ≡ true) xs
All-ordered_unique f xs = (
  λ h.
      All-of_member f xs
        (λ v m. member_of_All f (ordered_unique xs) v h (member-ordered_unique v xs ∙ m)),
  λ h.
      All-of_member f (ordered_unique xs)
        (λ v m. member_of_All f xs v h (sym (member-ordered_unique v xs) ∙ m)),
)

pub first_member : (xs : List Text) → is_empty xs ≡ false → (x : Text) × (member x xs ≡ true)
first_member [] h = cc
first_member (x ∷ xs) h = (x, ground (arith, beq_refl x))

pub nonempty_of_member : (x : Text) (xs : List Text) → member x xs ≡ true → is_empty xs ≡ false
nonempty_of_member x [] h = cc
nonempty_of_member x (y ∷ xs) h = refl

pub member-map_label :
    (digits : Text) (found : List Text)
    → member (b'S' ∷ digits) (map (λ d. b'S' ∷ d) found) ≡ member digits found
unfolding list_beq
member-map_label digits [] = refl
member-map_label digits (d ∷ found) = ap (λ b. digits == d || b) (member-map_label digits found)

pub map_label-member :
    (v : Text) (found : List Text)
    → member v (map (λ d. b'S' ∷ d) found) ≡ true
    → (digits : Text) × (v ≡ b'S' ∷ digits) × (member digits found ≡ true)
map_label-member v [] h = cc
map_label-member v (d ∷ found) h = elim (Bool-cases (v == (b'S' ∷ d))) [
  | inl same ↦ (d, eq_of_beq v (b'S' ∷ d) same, ground (arith, beq_refl d))
  | inr other ↦
      let (digits, label, listed) = map_label-member v found (ground (arith, h, other)) in
      (digits, label, ground (arith, listed))
]
