-- ===== src/Prelude/Dicts.antt =====
-- Python's `dict` as an association list in the order of insertion.
use mathlib.Core.Path.{◌≡◌, refl}
use mathlib.Core.Logic.{inl, inr}
use mathlib.Core.Bool.{true, false}
use mathlib.Core.Option.{Option, none, some}
use mathlib.Core.List.{List, [], ◌∷◌, map}
use native.Mathlib.Omega.{arith}
use project_rag.Prelude.Tests.{Eq, ◌==◌, if◌then◌else◌, Bool-cases}
use project_rag.Prelude.Lists.{member, Distinct}

module _ {ℓ κ} {K : Type ℓ} {V : Type κ} ⦃e : Eq K⦄ where
  -- `d.get(k)`
  unfoldable pub dict_get : K → List (K × V) → Option V
  dict_get k [] = none
  dict_get k ((j, v) ∷ d) = if k == j then some v else dict_get k d

  -- `d[k] = v`
  unfoldable pub dict_set : K → V → List (K × V) → List (K × V)
  dict_set k v [] = (k, v) ∷ []
  dict_set k v ((j, w) ∷ d) = if k == j then (j, v) ∷ d else (j, w) ∷ dict_set k v d

  -- `d.setdefault(k, v)`
  unfoldable pub dict_default : K → V → List (K × V) → List (K × V)
  dict_default k v [] = (k, v) ∷ []
  dict_default k v ((j, w) ∷ d) = if k == j then (j, w) ∷ d else (j, w) ∷ dict_default k v d

  abbrev pub dict_keys : List (K × V) → List K
  dict_keys = map (λ p. p.0)

  pub dict_get_absent :
      (k : K) (d : List (K × V)) → member k (dict_keys d) ≡ false → dict_get k d ≡ none
  unfolding dict_get
  dict_get_absent k [] h = refl
  dict_get_absent k ((j, v) ∷ d) h = ground (arith, dict_get_absent k d)

  pub dict_get-set :
      (k j : K) (v : V) (d : List (K × V))
      → dict_get j (dict_set k v d) ≡ (if j == k then some v else dict_get j d)
  unfolding dict_get dict_set
  dict_get-set k j v [] = refl
  dict_get-set k j v ((i, w) ∷ d) =
      ground
        (arith, e.beq_iff k j, e.beq_iff j k, e.beq_iff k i, e.beq_iff j i, dict_get-set k j v d)

  pub member-keys-set :
      (k j : K) (v : V) (d : List (K × V))
      → member j (dict_keys (dict_set k v d)) ≡ (if j == k then true else member j (dict_keys d))
  unfolding dict_set
  member-keys-set k j v [] = ground arith
  member-keys-set k j v ((i, w) ∷ d) =
      ground (arith, e.beq_iff j k, e.beq_iff k i, e.beq_iff j i, member-keys-set k j v d)

  pub member-keys-default :
      (k j : K) (v : V) (d : List (K × V))
      → member j (dict_keys (dict_default k v d))
        ≡ (if j == k then true else member j (dict_keys d))
  unfolding dict_default
  member-keys-default k j v [] = ground arith
  member-keys-default k j v ((i, w) ∷ d) =
      ground (arith, e.beq_iff j k, e.beq_iff k i, e.beq_iff j i, member-keys-default k j v d)

  pub Distinct-keys-set :
      (k : K) (v : V) (d : List (K × V))
      → Distinct (dict_keys d)
      → Distinct (dict_keys (dict_set k v d))
  unfolding dict_set
  Distinct-keys-set k v [] h = (refl, tt)
  Distinct-keys-set k v ((i, w) ∷ d) h = elim (Bool-cases (k == i)) [
    | inl same ↦ rw same h
    | inr other ↦ rw other (
      ground (arith, e.beq_iff k i, e.beq_iff i k, member-keys-set k i v d),
      Distinct-keys-set k v d h.1,
    )
  ]

  pub Distinct-keys-default :
      (k : K) (v : V) (d : List (K × V))
      → Distinct (dict_keys d)
      → Distinct (dict_keys (dict_default k v d))
  unfolding dict_default
  Distinct-keys-default k v [] h = (refl, tt)
  Distinct-keys-default k v ((i, w) ∷ d) h = elim (Bool-cases (k == i)) [
    | inl same ↦ rw same h
    | inr other ↦ rw other (
      ground (arith, e.beq_iff k i, e.beq_iff i k, member-keys-default k i v d),
      Distinct-keys-default k v d h.1,
    )
  ]
