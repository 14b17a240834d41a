-- ===== src/Retrieval/Context/Cutting.antt =====
-- The cutting of a passage in context.py: what is left is a beginning of it, and each loop ends by
-- its test.
use project_rag.Prelude.{
  ℕ, zero, suc, ◌+◌, ◌-◌, ◌*◌, ◌/◌, ◌≤◌, ◌≡◌, refl, ◌⊎◌, inl, inr, ap, ◌∙◌, sym, Text, Option, none,
  some, [], ◌∷◌, ◌++◌, append_assoc, append-nil, Bool, true, false, not, ◌&&◌, is_empty, length,
  length-take, take, drop, take-append-drop, rstrip, rstrip_of, length-rstrip-le, ltb, leb, nat_beq,
  max, arith, Bool-cases,
}
use project_rag.Retrieval.Context.{shorten, shrink, cut_at, at_boundary, truncate_to_budget}

-- `t` is a beginning of `s`.
abbrev pub Begins : Text → Text → Type 0
Begins t s = (rest : Text) × (t ++ rest ≡ s)

pub Begins-refl : (s : Text) → Begins s s
Begins-refl s = ([], append-nil s)

pub Begins-trans : (r s t : Text) → Begins r s → Begins s t → Begins r t
Begins-trans r s t (a, p) (b, q) = (a ++ b, sym (append_assoc r a b) ∙ ap (λ u. u ++ b) p ∙ q)

pub Begins-take : (n : ℕ) (s : Text) → Begins (take n s) s
Begins-take n s = (drop n s, take-append-drop n s)

pub Begins-rstrip_of : (p : ℕ → Bool) (s : Text) → Begins (rstrip_of p s) s
unfolding rstrip_of
Begins-rstrip_of p [] = ([], refl)
Begins-rstrip_of p (c ∷ s) = elim (Bool-cases (is_empty (rstrip_of p s) && p c)) [
  | inl gone ↦ rw gone (c ∷ s, refl)
  | inr kept ↦ let (rest, e) = Begins-rstrip_of p s in rw kept (rest, ap (◌∷◌ c) e)
]

pub Begins-rstrip : (s : Text) → Begins (rstrip s) s
unfolding rstrip
Begins-rstrip s = Begins-rstrip_of _ s

pub Begins-cut : (n : ℕ) (s : Text) → Begins (rstrip (take n s)) s
Begins-cut n s = Begins-trans _ (take n s) s (Begins-rstrip (take n s)) (Begins-take n s)

pub Begins-shrink : (long : Text → Bool) (fuel : ℕ) (s : Text) → Begins (shrink long fuel s) s
unfolding shrink shorten
Begins-shrink long zero s = Begins-refl s
Begins-shrink long (suc fuel) s = elim (Bool-cases (not (is_empty s) && long s)) [
  | inl again ↦ rw again (
      Begins-trans _ (shorten s) s (Begins-shrink long fuel (shorten s))
        (Begins-cut (length s - 16) s))
  | inr done ↦ rw done (Begins-refl s)
]

pub Begins-cut_at : (s : Text) (o : Option ℕ) → Begins (cut_at s o) s
Begins-cut_at s none = Begins-refl s
Begins-cut_at s (some i) = elim (Bool-cases (leb (max 20 (length s / 2)) i)) [
  | inl cut ↦ rw cut (Begins-cut (i + 1) s)
  | inr whole ↦ rw whole (Begins-refl s)
]

pub Begins-truncate : (s : Text) (budget : ℕ) → Begins (truncate_to_budget s budget) s
unfolding truncate_to_budget at_boundary
Begins-truncate s budget = elim (Bool-cases (nat_beq budget 0)) [
  | inl nothing ↦ rw nothing (s, refl)
  | inr some_room ↦
      let first = rstrip (take (budget * 4) s) in
      rw some_room (elim (Bool-cases (ltb (length first) (length s))) [
        | inl cut ↦ rw cut (
            Begins-trans _ (at_boundary first) s
              (Begins-shrink _ (length (at_boundary first)) (at_boundary first))
              (Begins-trans _ first s (Begins-cut_at first _) (Begins-cut (budget * 4) s)))
        | inr whole ↦ rw whole (
            Begins-trans _ first s (Begins-shrink _ (length first) first)
              (Begins-cut (budget * 4) s))
      ])
]

-- The loop ends by its test: the text is empty or short enough.
pub shrink_stops :
    (long : Text → Bool) (fuel : ℕ) (s : Text)
    → length s ≤ fuel
    → (is_empty (shrink long fuel s) ≡ true) ⊎ (long (shrink long fuel s) ≡ false)
unfolding shrink
shrink_stops long zero [] h = inl refl
shrink_stops long zero (c ∷ s) h = absurd (omega arith)
shrink_stops long (suc fuel) [] h = inl refl
shrink_stops long (suc fuel) (c ∷ s) h = elim (Bool-cases (long (c ∷ s))) [
  | inl again ↦ rw again (shrink_stops long fuel (shorten (c ∷ s)) (shorter c s h))
  | inr done ↦ rw done (inr done)
]
  where
    shorter : (c : ℕ) (s : Text) → length (c ∷ s) ≤ suc fuel → length (shorten (c ∷ s)) ≤ fuel
    shorter c s h =
        unfold shorten in
        omega (
          arith,
          length-rstrip-le (take (length (c ∷ s) - 16) (c ∷ s)),
          length-take (length (c ∷ s) - 16) (c ∷ s),
        )
