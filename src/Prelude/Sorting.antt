-- ===== src/Prelude/Sorting.antt =====
-- Python's stable sort by a key, as insertion sort over a test `lt a b` for `key(a) < key(b)`.
use mathlib.Core.List.Perm
use project_rag.Prelude.Tests.{if◌then◌else◌, Bool-cases}
use project_rag.Prelude.Lists.{All, All-map, Pairwise}
use mathlib.Core.Path.{◌≡◌}
use mathlib.Core.Logic.{inl, inr}
use mathlib.Core.Bool.{Bool, true, false}
use mathlib.Core.List.{List, [], ◌∷◌, Perm}

module _ {ℓ} {A : Type ℓ} (lt : A → A → Bool) where
  unfoldable pub insert_by : A → List A → List A
  insert_by x [] = x ∷ []
  insert_by x (y ∷ ys) = if lt y x then y ∷ insert_by x ys else x ∷ y ∷ ys

  unfoldable pub sort_by : List A → List A
  unfolding insert_by
  sort_by [] = []
  sort_by (x ∷ xs) = insert_by x (sort_by xs)

  pub insert_by-perm : (x : A) (ys : List A) → Perm (insert_by x ys) (x ∷ ys)
  unfolding insert_by
  insert_by-perm x [] = Perm.rfl
  insert_by-perm x (y ∷ ys) = elim (Bool-cases (lt y x)) [
    | inl before ↦ rw before (Perm.trans (Perm.cons y (insert_by-perm x ys)) (Perm.swap x y ys))
    | inr after ↦ rw after Perm.rfl
  ]

  pub sort_by-perm : (xs : List A) → Perm (sort_by xs) xs
  unfolding sort_by
  sort_by-perm [] = Perm.rfl
  sort_by-perm (x ∷ xs) = Perm.trans (insert_by-perm x (sort_by xs)) (Perm.cons x (sort_by-perm xs))

  pub insert_by-All {κ} :
      (P : A → Type κ) (x : A) (ys : List A) → P x → All P ys → All P (insert_by x ys)
  unfolding insert_by
  insert_by-All P x [] h k = (h, tt)
  insert_by-All P x (y ∷ ys) h k = elim (Bool-cases (lt y x)) [
    | inl before ↦ rw before (k.0, insert_by-All P x ys h k.1)
    | inr after ↦ rw after (h, k)
  ]

  pub sort_by-All {κ} : (P : A → Type κ) (xs : List A) → All P xs → All P (sort_by xs)
  unfolding sort_by
  sort_by-All P [] h = tt
  sort_by-All P (x ∷ xs) h = insert_by-All P x (sort_by xs) h.0 (sort_by-All P xs h.1)

  -- No element stands before one that is less.
  abbrev pub IsSortedBy : List A → Type 0
  IsSortedBy [] = Unit
  IsSortedBy (x ∷ xs) = All (λ y. lt y x ≡ false) xs × IsSortedBy xs

  module _ (lt_asymm : (x y : A) → lt x y ≡ true → lt y x ≡ false)
      (lt_cotrans : (x y z : A) → lt x y ≡ false → lt y z ≡ false → lt x z ≡ false) where
    insert_by-IsSortedBy : (x : A) (ys : List A) → IsSortedBy ys → IsSortedBy (insert_by x ys)
    unfolding insert_by
    insert_by-IsSortedBy x [] h = (tt, tt)
    insert_by-IsSortedBy x (y ∷ ys) h = elim (Bool-cases (lt y x)) [
      | inl before ↦ rw before (
        insert_by-All (λ z. lt z y ≡ false) x ys (lt_asymm y x before) h.0,
        insert_by-IsSortedBy x ys h.1,
      )
      | inr after ↦ rw after (
        (
          after,
          All-map (λ z. lt z y ≡ false) (λ z. lt z x ≡ false) (λ z e. lt_cotrans z y x e after) ys
              h.0,
        ),
        h,
      )
    ]

    pub sort_by-IsSortedBy : (xs : List A) → IsSortedBy (sort_by xs)
    unfolding sort_by
    sort_by-IsSortedBy [] = tt
    sort_by-IsSortedBy (x ∷ xs) = insert_by-IsSortedBy x (sort_by xs) (sort_by-IsSortedBy xs)

module _ {A : Type 0} (lt : A → A → Bool) where
  -- A sorted list is in any order that the test decides.
  pub IsSortedBy-Pairwise :
      (R : A → A → Type 0)
      → ((x y : A) → lt y x ≡ false → R x y)
      → (xs : List A) → IsSortedBy lt xs
      → Pairwise R xs
  IsSortedBy-Pairwise R h [] k = tt
  IsSortedBy-Pairwise R h (x ∷ xs) k =
      (All-map (λ y. lt y x ≡ false) (R x) (h x) xs k.0, IsSortedBy-Pairwise R h xs k.1)
