-- ===== src/Retrieval/ExactCount/Totals.antt =====
-- The counts and the excerpts of exact_count.py.
use project_rag.Prelude.{
  ℕ, ◌<◌, All, zero, suc, ◌≡◌, ◌≤◌, ◌+◌, refl, Text, Option, none, some, List, [], ◌∷◌, ◌++◌, Bool,
  true, false, take, drop, length, length-append, length-take, length-drop, length-strip-le,
  get_elem?, is_empty, ltb, leb, sort_by, insert_by, strip, if◌then◌else◌, Bool-cases, inl, inr,
  arith,
}
use project_rag.Ingestion.Models.{Block}
use project_rag.Retrieval.ExactCount.Request.{ExactCountRequest, Regex}
use project_rag.Retrieval.ExactCount.Count.{
  CountableDocument, ExactCountEvidence, ExactCountResult, sum_counts, total, window_start,
  window_end, starts_at, evidence_excerpt, find_matches, evidence_of, count_blocks,
  count_exact_occurrences, full, with_item, select_round, select_rounds, evidence,
}

-- The occurrences in a list, one number for each element.
abbrev pub sum_of : {A : Type 0} → (A → ℕ) → List A → ℕ
sum_of f [] = 0
sum_of f (x ∷ xs) = f x + sum_of f xs

sum_of-append :
    {A : Type 0} (f : A → ℕ) (xs ys : List A) → sum_of f (xs ++ ys) ≡ sum_of f xs + sum_of f ys
sum_of-append f [] ys = omega arith
sum_of-append f (x ∷ xs) ys = omega (arith, sum_of-append f xs ys)

sum_of-insert :
    {A : Type 0} (f : A → ℕ) (lt : A → A → Bool) (x : A) (ys : List A)
    → sum_of f (insert_by lt x ys) ≡ f x + sum_of f ys
unfolding insert_by
sum_of-insert f lt x [] = refl
sum_of-insert f lt x (y ∷ ys) = ground (arith, sum_of-insert f lt x ys)

sum_of-sort :
    {A : Type 0} (f : A → ℕ) (lt : A → A → Bool) (xs : List A)
    → sum_of f (sort_by lt xs) ≡ sum_of f xs
unfolding sort_by
sum_of-sort f lt [] = refl
sum_of-sort f lt (x ∷ xs) = omega (arith, sum_of-insert f lt x (sort_by lt xs), sum_of-sort f lt xs)

length-is_empty : {A : Type 0} (xs : List A) → is_empty xs ≡ true → length xs ≡ 0
length-is_empty [] h = refl
length-is_empty (x ∷ xs) h = cc

length-marked :
    (before after : Bool) (c : ℕ) (s : Text)
    → length ((if before then c ∷ [] else []) ++ s ++ (if after then c ∷ [] else [])) ≤ length s + 2
length-marked true true c s = omega (arith, length-append s (c ∷ []))
length-marked true false c s = omega (arith, length-append s [])
length-marked false true c s = omega (arith, length-append s (c ∷ []))
length-marked false false c s = omega (arith, length-append s [])

module _ {V : Type 0} (re : Regex) (request : ExactCountRequest) where
  abbrev occurrences : Block V → ℕ
  occurrences block = length (find_matches re request block.text)

  count_blocks-totals :
      (document : CountableDocument V) (n : ℕ) (es : List ExactCountEvidence)
      (blocks : List (Block V))
      → ((count_blocks re request document n es blocks).0 ≡ n + sum_of occurrences blocks)
        × (sum_of (λ e. e.occurrence_count) (count_blocks re request document n es blocks).1
            ≡ sum_of (λ e. e.occurrence_count) es + sum_of occurrences blocks)
  unfolding count_blocks
  count_blocks-totals document n es [] = (omega arith, omega arith)
  count_blocks-totals document n es (block ∷ blocks) =
      elim (Bool-cases (is_empty (find_matches re request block.text))) [
        | inl e ↦
            let (counted, shown) = count_blocks-totals document n es blocks in
            let none_found = length-is_empty (find_matches re request block.text) e in
            rw e (omega (arith, counted, none_found), omega (arith, shown, none_found))
        | inr e ↦
            let here = evidence_of re request document block in
            let (counted, shown) =
              count_blocks-totals document (n + occurrences block) (es ++ here ∷ []) blocks in
            let added = sum_of-append (λ e. e.occurrence_count) es (here ∷ []) in
            rw e (omega (arith, counted), omega (arith, shown, added))
      ]

  -- The total is the number of matches in the blocks of the documents, each block taken once, and
  -- the evidence of a document accounts for its count.
  pub total-lem :
      (documents : List (CountableDocument V))
      → (total (count_exact_occurrences re request documents)
          ≡ sum_of (λ d. sum_of occurrences d.blocks) documents)
        × All
            (λ d. sum_of (λ e. e.occurrence_count) d.evidence ≡ d.count)
            (count_exact_occurrences re request documents).documents
  unfolding count_exact_occurrences sum_counts
  total-lem [] = (refl, tt)
  total-lem (d ∷ ds) =
      let (counted, shown) =
        count_blocks-totals d 0 [] (sort_by (λ a b. ltb a.order b.order) d.blocks) in
      let (rest, others) = total-lem ds in
      let sorted = sum_of-sort occurrences (λ a b. ltb a.order b.order) d.blocks in
      (omega (arith, counted, rest, sorted), (omega (arith, counted, shown), others))

-- At most 20 pieces of evidence are shown.
with_item-le :
    (selected : List ExactCountEvidence) (item : Option ExactCountEvidence)
    → length (with_item selected item) ≤ suc (length selected)
with_item-le selected none = omega arith
with_item-le selected (some item) = omega (arith, length-append selected (item ∷ []))

select_round-le :
    (offset : ℕ) (groups : List (List ExactCountEvidence)) (selected : List ExactCountEvidence)
    → length selected < 20
    → (length (select_round offset groups selected).0 ≤ 20)
      × ((select_round offset groups selected).1 ≡ false
          → length (select_round offset groups selected).0 < 20)
unfolding select_round
select_round-le offset [] selected h = (omega arith, λ _. h)
select_round-le offset (group ∷ groups) selected h =
    let next = with_item selected (get_elem? group offset) in
    let bound = with_item-le selected (get_elem? group offset) in
    elim (Bool-cases (full next)) [
      | inl e ↦ rw e (omega arith, λ k. cc)
      | inr e ↦ rw e (select_round-le offset groups next (ground (arith, e)))
    ]

select_rounds-le :
    (rounds offset : ℕ) (groups : List (List ExactCountEvidence))
    (selected : List ExactCountEvidence)
    → length selected < 20
    → length (select_rounds rounds offset groups selected) ≤ 20
unfolding select_rounds
select_rounds-le zero offset groups selected h = omega arith
select_rounds-le (suc rounds) offset groups selected h =
    let (bound, more) = select_round-le offset groups selected h in
    elim (Bool-cases (select_round offset groups selected).1) [
      | inl e ↦ rw e bound
      | inr e ↦ rw e (select_rounds-le rounds (offset + 1) groups _ (more e))
    ]

-- An answer shows at most 20 pieces of evidence.
pub length-evidence-le : (result : ExactCountResult) → length (evidence result) ≤ 20
unfolding evidence
length-evidence-le result = select_rounds-le 8 0 _ [] (omega arith)

length-window-le :
    (maximum first : ℕ) (text : Text)
    → length (
        drop
          (window_start (length text) maximum first)
          (take (window_end (length text) maximum first) text))
      ≤ maximum
length-window-le maximum first text =
    let start = window_start (length text) maximum first in
    let end = window_end (length text) maximum first in
    ground (arith, length-drop start (take end text), length-take end text)

-- An excerpt has at most the given number of characters and the two marks of a cut.
pub length-evidence_excerpt-le :
    (maximum : ℕ) (text : Text) (matches : List (ℕ × ℕ))
    → length (evidence_excerpt maximum text matches) ≤ maximum + 2
unfolding evidence_excerpt
length-evidence_excerpt-le maximum text matches =
    let start = window_start (length text) maximum (starts_at matches) in
    let end = window_end (length text) maximum (starts_at matches) in
    let excerpt = strip (drop start (take end text)) in
    let window = length-window-le maximum (starts_at matches) text in
    let stripped = length-strip-le (drop start (take end text)) in
    let marked = length-marked (leb 1 start) (ltb end (length text)) 8230 excerpt in
    elim (Bool-cases (leb (length (strip text)) maximum)) [
      | inl e ↦ rw e (ground (arith, e))
      | inr e ↦ rw e (omega (arith, marked, window, stripped))
    ]
