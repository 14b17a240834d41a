-- ===== src/Prelude/Numerals.antt =====
-- `str(n)` and `int(s)` for natural numbers.
use Prim.Native.Nat.{ℕ, zero, suc, ◌+◌, ◌-◌, ◌*◌, ◌/◌, ◌%◌, ◌<◌}
use mathlib.Core.Path.{◌≡◌, refl, ap, sym, ◌∙◌}
use mathlib.Core.Logic.{inl, inr}
use mathlib.Core.Bool.{Bool, ◌&&◌}
use mathlib.Core.List.{[], ◌∷◌, ◌++◌}
use native.Mathlib.Omega.{arith}
use project_rag.Prelude.Tests.{leb, ltb, if◌then◌else◌, Bool-cases}
use project_rag.Prelude.Texts.{Text}

abbrev pub is_digit : ℕ → Bool
is_digit c = leb 48 c && leb c 57

-- The decimal digits, most significant first; each round divides by ten, so `n + 1` rounds do.
digits : ℕ → ℕ → Text
digits zero n = []
digits (suc fuel) n =
    let front = digits fuel (n / 10) in
    if ltb n 10 then (48 + n) ∷ [] else front ++ (48 + n % 10) ∷ []

unfoldable pub decimal : ℕ → Text
unfolding digits
decimal n = digits (suc n) n

-- `int(s)`, reading on from `acc`.
unfoldable pub int_from : ℕ → Text → ℕ
int_from acc [] = acc
int_from acc (c ∷ s) = int_from (acc * 10 + (c - 48)) s

abbrev pub int : Text → ℕ
int s = int_from 0 s

int_from-append : (acc : ℕ) (s t : Text) → int_from acc (s ++ t) ≡ int_from (int_from acc s) t
unfolding int_from
int_from-append acc [] t = refl
int_from-append acc (c ∷ s) t = int_from-append (acc * 10 + (c - 48)) s t

int-digits : (fuel n : ℕ) → n < fuel → int (digits fuel n) ≡ n
unfolding digits int_from
int-digits zero n h = absurd (omega arith)
int-digits (suc fuel) n h = elim (Bool-cases (ltb n 10)) [
  | inl small ↦ rw small (omega arith)
  | inr large ↦ rw large (
      int_from-append 0 (digits fuel (n / 10)) ((48 + n % 10) ∷ [])
      ∙ last_digit (int (digits fuel (n / 10))) (int-digits fuel (n / 10) (ground arith)))
]
  where
    last_digit : (q : ℕ) → q ≡ n / 10 → q * 10 + (48 + n % 10 - 48) ≡ n
    last_digit q e = omega arith

-- Reading back what `str` wrote.
pub int-decimal : (n : ℕ) → int (decimal n) ≡ n
unfolding decimal
int-decimal n = int-digits (suc n) n (omega arith)

-- Different numbers are written differently.
pub decimal_injective : (m n : ℕ) → decimal m ≡ decimal n → m ≡ n
decimal_injective m n e = sym (int-decimal m) ∙ ap int e ∙ int-decimal n
