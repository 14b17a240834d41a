-- ===== src/Ingestion/Chunking/Search.antt =====
-- The binary search of `_split_long_span` in chunking.py.

use project_rag.Prelude.{
  ℕ, zero, suc, ◌+◌, ◌-◌, ◌/◌, ◌≤◌, ◌<◌, ◌≡◌, ◌≢◌, Text, leb, ltb, take, length, arith, Bool-cases,
  inl, inr, leb→le, le→leb, ltb→lt,
}
use project_rag.Ingestion.Chunking.Split.{best_prefix}

module _ (count : Text → ℕ) (limit : ℕ) where
  -- The search only ever returns its start value or a prefix length that passed the test.
  pub best_prefix-fits :
      (fuel : ℕ) (remaining : Text) (low high best : ℕ)
      → high ≤ length remaining
      → best ≤ length remaining
      → 0 < low
      → (best ≢ 0 → count (take best remaining) ≤ limit)
      → (best_prefix count limit fuel remaining low high best ≤ length remaining)
        × (best_prefix count limit fuel remaining low high best ≢ 0
            → count (take (best_prefix count limit fuel remaining low high best) remaining) ≤ limit)
  unfolding best_prefix
  best_prefix-fits zero remaining low high best hh hb hl h = (hb, h)
  best_prefix-fits (suc fuel) remaining low high best hh hb hl h =
      elim (Bool-cases (leb low high)) [
        | inr done ↦ rw done (hb, h)
        | inl more ↦ elim (Bool-cases (leb (count (take ((low + high) / 2) remaining)) limit)) [
          | inl fits ↦
              rw (more, fits)
                (best_prefix-fits fuel remaining ((low + high) / 2 + 1) high ((low + high) / 2) hh
                  (ground (arith, leb→le low high more)) (omega arith) (λ _. leb→le _ _ fits))
          | inr over ↦
              rw (more, over)
                (best_prefix-fits fuel remaining low ((low + high) / 2 - 1) best
                  (ground (arith, leb→le low high more)) hb hl h)
        ]
      ]

  best_prefix-pos :
      (fuel : ℕ) (remaining : Text) (low high best : ℕ)
      → best ≢ 0
      → 0 < low
      → best_prefix count limit fuel remaining low high best ≢ 0
  unfolding best_prefix
  best_prefix-pos zero remaining low high best some_best hl = some_best
  best_prefix-pos (suc fuel) remaining low high best some_best hl =
      elim (Bool-cases (leb low high)) [
        | inr done ↦ rw done some_best
        | inl more ↦ elim (Bool-cases (leb (count (take ((low + high) / 2) remaining)) limit)) [
          | inl fits ↦
              rw (more, fits)
                (best_prefix-pos fuel remaining ((low + high) / 2 + 1) high ((low + high) / 2)
                  (omega (arith, leb→le low high more)) (omega arith))
          | inr over ↦
              rw (more, over)
                (best_prefix-pos fuel remaining low ((low + high) / 2 - 1) best some_best hl)
        ]
      ]

  -- The search fails only if one character alone is over the limit.
  pub best_prefix-eq-zero :
      (fuel high : ℕ) (remaining : Text)
      → 0 < high
      → high ≤ fuel
      → best_prefix count limit fuel remaining 1 high 0 ≡ 0
      → limit < count (take 1 remaining)
  unfolding best_prefix
  best_prefix-eq-zero zero high remaining hh hf e = absurd (omega arith)
  best_prefix-eq-zero (suc fuel) high remaining hh hf e =
      elim (Bool-cases (leb (count (take ((1 + high) / 2) remaining)) limit)) [
        | inl fits ↦ absurd (
            best_prefix-pos fuel remaining ((1 + high) / 2 + 1) high ((1 + high) / 2) (omega arith)
              (omega arith) (rw (le→leb 1 high hh, fits) at e))
        | inr over ↦ elim (Bool-cases (ltb 1 ((1 + high) / 2))) [
          | inl many ↦
              best_prefix-eq-zero fuel ((1 + high) / 2 - 1) remaining
                (omega (arith, ltb→lt 1 ((1 + high) / 2) many)) (omega arith)
                (rw (le→leb 1 high hh, over) at e)
          | inr one ↦
              let middle : (1 + high) / 2 ≡ 1 = ground arith in
              let large : limit < count (take ((1 + high) / 2) remaining) = ground arith in
              rw middle at large
        ]
      ]
