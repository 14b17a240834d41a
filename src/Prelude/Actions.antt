-- ===== src/Prelude/Actions.antt =====
-- A call that reads and writes a state, and returns or raises. What was written stays written after
-- a raise.
use mathlib.Core.Bool.{Bool, true, false}
use project_rag.Prelude.Results.{Result, ok, raise}

abbrev pub Action : Type 0 → Type 0 → Type 0 → Type 0
Action S E A = S → Result E A × S

abbrev pub then_call : {S E A B : Type 0} → Result E A × S → (A → Action S E B) → Result E B × S
then_call (ok a, s) f = f a s
then_call (raise e, s) f = (raise e, s)

infixl 5 ◌>>=◌ ◌>>◌
abbrev pub ◌>>=◌ : {S E A B : Type 0} → Action S E A → (A → Action S E B) → Action S E B
◌>>=◌ m f s = then_call (m s) f

abbrev pub ◌>>◌ : {S E B : Type 0} → Action S E (Unit {0}) → Action S E B → Action S E B
m >> k = m >>= λ _. k

module _ {S E A : Type 0} where
  abbrev pub pure : A → Action S E A
  pure a s = (ok a, s)

  -- A computation that does not touch the state.
  abbrev pub lift : Result E A → Action S E A
  lift r s = (r, s)

-- `if b: raise e`
abbrev pub fail_if : {S E : Type 0} → Bool → E → Action S E (Unit {0})
fail_if true e s = (raise e, s)
fail_if false e s = (ok tt, s)
