-- ===== src/Prelude/Floats.antt =====
-- Python's `float` is not defined in the repository: its type and operations are a parameter.
use Prim.Native.Nat.{ℕ}
use mathlib.Core.Path.{◌≡◌}
use project_rag.Prelude.Tests.{Bool-cases}
use mathlib.Core.Logic.{inl, inr}
use mathlib.Core.Bool.{Bool, true, false, ◌&&◌, ◌||◌, not}

pub record Floats : Type 1 where
  pub Float : Type 0
  -- The literal n / d.
  pub literal : ℕ → ℕ → Float
  pub lt : Float → Float → Bool
  pub eq : Float → Float → Bool
  pub add : Float → Float → Float
  pub sub : Float → Float → Float
  pub mul : Float → Float → Float
  pub div : Float → Float → Float
  pub sqrt : Float → Float
  pub is_finite : Float → Bool

-- What comparison promises for values that are no NaN.
pub record IsOrdered (fl : Floats) : Type 0 where
  pub lt_irrefl : (a : fl.Float) → fl.lt a a ≡ false
  pub lt_trans : (a b c : fl.Float) → fl.lt a b ≡ true → fl.lt b c ≡ true → fl.lt a c ≡ true
  pub lt_cotrans : (a b c : fl.Float) → fl.lt a b ≡ false → fl.lt b c ≡ false → fl.lt a c ≡ false
  pub eq_lt : (a b : fl.Float) → fl.eq a b ≡ (not (fl.lt a b) && not (fl.lt b a))

-- `a <= b`
abbrev pub le : (fl : Floats) → fl.Float → fl.Float → Bool
le fl a b = fl.lt a b || fl.eq a b

module _ (fl : Floats) (o : IsOrdered fl) where
  pub lt_asymm : (a b : fl.Float) → fl.lt a b ≡ true → fl.lt b a ≡ false
  lt_asymm a b h = elim (Bool-cases (fl.lt b a)) [
    | inl back ↦ cc (o.lt_trans a b a h back, o.lt_irrefl a)
    | inr e ↦ e
  ]
