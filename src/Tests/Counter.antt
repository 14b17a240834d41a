-- ===== src/Tests/Counter.antt =====
-- A tokenizer to run the chunking on: it counts the characters that are no white space.
use project_rag.Prelude.{
  ℕ, ◌+◌, ◌≡◌, ◌≤◌, Text, List, [], ◌∷◌, ◌++◌, not, keep, keep-append, length, length-append,
  is_empty, is_space, strip, strip_of, lstrip_of, rstrip_of, join, map, arith, Bool-cases, inl, inr,
}
use project_rag.Ingestion.Chunking.Config.{IsCounter, join_texts, text_total}

abbrev pub marks : Text → ℕ
marks t = length (keep (λ c. not (is_space c)) t)

marks-append : (s t : Text) → marks (s ++ t) ≡ marks s + marks t
marks-append s t =
    rw (keep-append (λ c. not (is_space c)) s t)
      (length-append (keep (λ c. not (is_space c)) s) (keep (λ c. not (is_space c)) t))

marks-lstrip : (t : Text) → marks (lstrip_of is_space t) ≤ marks t
unfolding lstrip_of
marks-lstrip [] = omega arith
marks-lstrip (c ∷ t) = ground (arith, marks-lstrip t)

marks-rstrip : (t : Text) → marks (rstrip_of is_space t) ≤ marks t
unfolding rstrip_of
marks-rstrip [] = omega arith
marks-rstrip (c ∷ t) = ground (arith, marks-rstrip t)

marks-strip : (t : Text) → marks (strip t) ≤ marks t
unfolding strip strip_of
marks-strip t = omega (arith, marks-rstrip (lstrip_of is_space t), marks-lstrip t)

marks-join-cons :
    (s t : Text) (ts : List Text)
    → marks (join (10 ∷ 10 ∷ []) (s ∷ t ∷ ts)) ≡ marks s + marks (join (10 ∷ 10 ∷ []) (t ∷ ts))
marks-join-cons s t ts =
    let rest = join (10 ∷ 10 ∷ []) (t ∷ ts) in
    unfold join is_space in
    omega (arith, marks-append (s ++ (10 ∷ 10 ∷ [])) rest, marks-append s (10 ∷ 10 ∷ []))

marks-join : (ts : List Text) → marks (join (10 ∷ 10 ∷ []) ts) ≤ text_total marks ts
marks-join [] = unfold join in omega arith
marks-join (s ∷ []) = unfold join in omega arith
marks-join (s ∷ t ∷ ts) = omega (arith, marks-join-cons s t ts, marks-join (t ∷ ts))

marks-kept :
    (ts : List Text)
    → text_total marks (keep (λ t. not (is_empty t)) (map strip ts)) ≤ text_total marks ts
marks-kept [] = omega arith
marks-kept (t ∷ ts) = elim (Bool-cases (is_empty (strip t))) [
  | inl e ↦ rw e (omega (arith, marks-kept ts))
  | inr e ↦ rw e (omega (arith, marks-strip t, marks-kept ts))
]

pub marks-IsCounter : IsCounter marks
unfolding join_texts
marks-IsCounter = record {
  strip-le = marks-strip;
  join-le = λ ts. omega (
    arith,
    marks-strip (join (10 ∷ 10 ∷ []) (keep (λ t. not (is_empty t)) (map strip ts))),
    marks-join (keep (λ t. not (is_empty t)) (map strip ts)),
    marks-kept ts,
  );
}
