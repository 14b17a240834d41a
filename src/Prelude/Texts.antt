-- ===== src/Prelude/Texts.antt =====
-- Python's `str` as the list of its code points, with the methods that the program calls.
use Prim.Native.Nat.{ℕ, ◌≤◌}
use Prim.Native.Char.{code}
use Prim.Native.String.{String}
use mathlib.Core.Path.{◌≡◌, refl}
use mathlib.Core.Bool.{Bool, true, false, ◌&&◌, ◌||◌}
use mathlib.Core.List.{List, [], ◌∷◌, ◌++◌}
use native.Mathlib.Omega.{arith}
use project_rag.Prelude.Tests.{nat_beq, leb, ltb, if◌then◌else◌}
use project_rag.Prelude.Lists.{length, is_empty}

abbrev pub Text : Type 0
Text = List ℕ

-- A literal.
abbrev pub codes : String → Text
codes String.[] = []
codes (String.◌∷◌ c s) = code c ∷ codes s

-- `str.isspace` of one character, and `\s` of `re`.
unfoldable pub is_space : ℕ → Bool
is_space c =
    (leb 9 c && leb c 13)
    || (leb 28 c && leb c 32)
    || nat_beq c 133
    || nat_beq c 160
    || nat_beq c 5760
    || (leb 8192 c && leb c 8202)
    || nat_beq c 8232
    || nat_beq c 8233
    || nat_beq c 8239
    || nat_beq c 8287
    || nat_beq c 12288

module _ (p : ℕ → Bool) where
  -- `lstrip` and `rstrip` of the characters that pass the test.
  unfoldable pub lstrip_of : Text → Text
  lstrip_of [] = []
  lstrip_of (c ∷ s) = let rest = lstrip_of s in if p c then rest else c ∷ s

  unfoldable pub rstrip_of : Text → Text
  rstrip_of [] = []
  rstrip_of (c ∷ s) = let rest = rstrip_of s in if is_empty rest && p c then [] else c ∷ rest

  unfoldable pub strip_of : Text → Text
  unfolding lstrip_of rstrip_of
  strip_of s = rstrip_of (lstrip_of s)

unfoldable pub strip : Text → Text
unfolding strip_of is_space
strip = strip_of is_space

unfoldable pub rstrip : Text → Text
unfolding rstrip_of is_space
rstrip = rstrip_of is_space

unfoldable pub lstrip : Text → Text
unfolding lstrip_of is_space
lstrip = lstrip_of is_space

-- `s.strip("\n")`
unfoldable pub strip_newlines : Text → Text
unfolding strip_of
strip_newlines = strip_of (λ c. nat_beq c 10)

unfoldable pub starts_with : Text → Text → Bool
starts_with s [] = true
starts_with [] (c ∷ p) = false
starts_with (d ∷ s) (c ∷ p) = nat_beq d c && starts_with s p

-- `sep.join(parts)`
unfoldable pub join : Text → List Text → Text
join sep [] = []
join sep (s ∷ []) = s
join sep (s ∷ t ∷ rest) = s ++ sep ++ join sep (t ∷ rest)

-- `s.split(d)` for a one-character separator.
abbrev cons_head : ℕ → List Text → List Text
cons_head c [] = (c ∷ []) ∷ []
cons_head c (w ∷ ws) = (c ∷ w) ∷ ws

unfoldable pub split_on : ℕ → Text → List Text
split_on d [] = [] ∷ []
split_on d (c ∷ s) = let rest = split_on d s in if nat_beq c d then [] ∷ rest else cons_head c rest

-- `s.split()`: the maximal runs of characters that are no white space. The flag says whether the
-- character before belongs to a run.
split_words : Bool → Text → List Text
split_words inside [] = if inside then [] ∷ [] else []
split_words inside (c ∷ s) =
    let space = split_words false s in
    let word = cons_head c (split_words true s) in
    if is_space c then (if inside then [] ∷ space else space) else word

unfoldable pub words : Text → List Text
unfolding split_words is_space
words = split_words false

-- `a < b`, by code points.
unfoldable pub text_lt : Text → Text → Bool
text_lt s [] = false
text_lt [] (d ∷ t) = true
text_lt (c ∷ s) (d ∷ t) = if nat_beq c d then text_lt s t else ltb c d

module _ (p : ℕ → Bool) where
  length-lstrip_of-le : (s : Text) → length (lstrip_of p s) ≤ length s
  unfolding lstrip_of
  length-lstrip_of-le [] = omega arith
  length-lstrip_of-le (c ∷ s) = ground (arith, length-lstrip_of-le s)

  length-rstrip_of-le : (s : Text) → length (rstrip_of p s) ≤ length s
  unfolding rstrip_of
  length-rstrip_of-le [] = omega arith
  length-rstrip_of-le (c ∷ s) = ground (arith, length-rstrip_of-le s)

  pub length-strip_of-le : (s : Text) → length (strip_of p s) ≤ length s
  unfolding strip_of
  length-strip_of-le s = omega (arith, length-rstrip_of-le (lstrip_of p s), length-lstrip_of-le s)

pub length-rstrip-le : (s : Text) → length (rstrip s) ≤ length s
unfolding rstrip
length-rstrip-le = length-rstrip_of-le is_space

pub length-strip-le : (s : Text) → length (strip s) ≤ length s
unfolding strip
length-strip-le = length-strip_of-le is_space

pub text_lt_irrefl : (s : Text) → text_lt s s ≡ false
unfolding text_lt
text_lt_irrefl [] = refl
text_lt_irrefl (c ∷ s) = ground (arith, text_lt_irrefl s)

pub text_lt_asymm : (s t : Text) → text_lt s t ≡ true → text_lt t s ≡ false
unfolding text_lt
text_lt_asymm s [] h = cc
text_lt_asymm [] (d ∷ t) h = refl
text_lt_asymm (c ∷ s) (d ∷ t) h = ground (arith, text_lt_asymm s t)

pub text_lt_cotrans :
    (r s t : Text) → text_lt r s ≡ false → text_lt s t ≡ false → text_lt r t ≡ false
unfolding text_lt
text_lt_cotrans r s [] h k = refl
text_lt_cotrans [] [] (d ∷ t) h k = k
text_lt_cotrans [] (c ∷ s) (d ∷ t) h k = cc
text_lt_cotrans (b ∷ r) [] (d ∷ t) h k = cc
text_lt_cotrans (b ∷ r) (c ∷ s) (d ∷ t) h k = ground (arith, text_lt_cotrans r s t)
