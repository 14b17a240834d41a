-- ===== src/Store/Updates.antt =====
-- Rows that a call changes or adds, in the tables of repositories.py.
use project_rag.Prelude.{
  ◌≡◌, refl, subst, List, [], ◌∷◌, ◌++◌, Bool, true, ◌||◌, any, keep, All, list_eq, nat_eq,
  if◌then◌else◌, ok-injective, ok, Bool-cases, inl, inr, arith,
}
use project_rag.Store.Jobs.{update}
use project_rag.Store.Changes.{first}

pub update-All :
    {A : Type 0} (P : A → Type 0) (chosen : A → Bool) (change : A → A) (rows : List A)
    → ((row : A) → P row → P (change row))
    → All P rows
    → All P (update chosen change rows)
update-All P chosen change [] h k = tt
update-All P chosen change (row ∷ rows) h k = elim (Bool-cases (chosen row)) [
  | inl e ↦ rw e (h row k.0, update-All P chosen change rows h k.1)
  | inr e ↦ rw e (k.0, update-All P chosen change rows h k.1)
]

pub any-update :
    {A : Type 0} (p chosen : A → Bool) (change : A → A) (rows : List A)
    → ((row : A) → p (change row) ≡ p row)
    → any p (update chosen change rows) ≡ any p rows
any-update p chosen change [] h = refl
any-update p chosen change (row ∷ rows) h = ground (arith, h row, any-update p chosen change rows h)

pub any-append :
    {A : Type 0} (p : A → Bool) (xs ys : List A) → any p (xs ++ ys) ≡ (any p xs || any p ys)
any-append p [] ys = refl
any-append p (x ∷ xs) ys = ground (arith, any-append p xs ys)

-- The row that a query finds passes its test, so that some row does; and then the query finds one.
pub first-passes :
    {A : Type 0} (p : A → Bool) (rows : List A) {found : A}
    → first (keep p rows) ≡ ok found
    → p found ≡ true
first-passes p [] h = cc
first-passes p (row ∷ rows) {found} h = elim (Bool-cases (p row)) [
  | inl e ↦
      subst (λ r. p r ≡ true)
        (ok-injective
          (subst (λ b. first (if b then row ∷ keep p rows else keep p rows) ≡ ok found) e h))
        e
  | inr e ↦
      first-passes p rows
        (subst (λ b. first (if b then row ∷ keep p rows else keep p rows) ≡ ok found) e h)
]

pub taken-of-first :
    {A : Type 0} (p : A → Bool) (rows : List A) {found : A}
    → first (keep p rows) ≡ ok found
    → any p rows ≡ true
taken-of-first p [] h = cc
taken-of-first p (row ∷ rows) {found} h = elim (Bool-cases (p row)) [
  | inl e ↦ ground (arith, e)
  | inr e ↦ ground (
    arith,
    e,
    taken-of-first p rows
        (subst (λ b. first (if b then row ∷ keep p rows else keep p rows) ≡ ok found) e h),
  )
]

pub first-of-taken :
    {A : Type 0} (p : A → Bool) (rows : List A)
    → any p rows ≡ true
    → (found : A) × (first (keep p rows) ≡ ok found)
first-of-taken p [] h = cc
first-of-taken p (row ∷ rows) h = elim (Bool-cases (p row)) [
  | inl e ↦ (row, rw e refl)
  | inr e ↦ let (found, k) = first-of-taken p rows (ground (arith, e, h)) in (found, rw e k)
]
