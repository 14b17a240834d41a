-- ===== src/Retrieval/Digits.antt =====
-- Decimal digits as Python 3.12 reads them, in `\d` and in `int` of citations.py: the characters of
-- Unicode 15 in the category Nd, which stand in runs of ten from zero to nine.
use project_rag.Prelude.{ℕ, ◌+◌, ◌-◌, ◌*◌, Text, List, [], ◌∷◌, Bool, ◌&&◌, any, leb, if◌then◌else◌}

-- The zeros.
abbrev zeros : List ℕ
zeros =
    48 ∷ 1632 ∷ 1776 ∷ 1984 ∷ 2406 ∷ 2534 ∷ 2662 ∷ 2790 ∷ 2918 ∷ 3046 ∷ 3174 ∷ 3302 ∷ 3430 ∷ 3558
    ∷ 3664 ∷ 3792 ∷ 3872 ∷ 4160 ∷ 4240 ∷ 6112 ∷ 6160 ∷ 6470 ∷ 6608 ∷ 6784 ∷ 6800 ∷ 6992 ∷ 7088
    ∷ 7232 ∷ 7248 ∷ 42528 ∷ 43216 ∷ 43264 ∷ 43472 ∷ 43504 ∷ 43600 ∷ 44016 ∷ 65296 ∷ 66720 ∷ 68912
    ∷ 69734 ∷ 69872 ∷ 69942 ∷ 70096 ∷ 70384 ∷ 70736 ∷ 70864 ∷ 71248 ∷ 71360 ∷ 71472 ∷ 71904 ∷ 72016
    ∷ 72784 ∷ 73040 ∷ 73120 ∷ 73552 ∷ 92768 ∷ 92864 ∷ 93008 ∷ 120782 ∷ 120792 ∷ 120802 ∷ 120812
    ∷ 120822 ∷ 123200 ∷ 123632 ∷ 124144 ∷ 125264 ∷ 130032 ∷ []

abbrev is_digit_from : ℕ → ℕ → Bool
is_digit_from c start = leb start c && leb c (start + 9)

unfoldable pub is_decimal : ℕ → Bool
is_decimal c = any (is_digit_from c) zeros

value_from : ℕ → List ℕ → ℕ
value_from c [] = 0
value_from c (start ∷ starts) =
    let rest = value_from c starts in if is_digit_from c start then c - start else rest

-- `int(s)` of a text of decimal digits, reading on from `total`.
unfoldable pub decimal_value : ℕ → Text → ℕ
unfolding value_from
decimal_value total [] = total
decimal_value total (c ∷ s) = decimal_value (total * 10 + value_from c zeros) s
