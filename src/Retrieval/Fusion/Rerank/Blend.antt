-- ===== src/Retrieval/Fusion/Rerank/Blend.antt =====
-- What `attach_rerank_scores` of fusion.py promises: the scores and the order.
use mathlib.Core.List.{Perm}
use mathlib.Core.List.Perm
use project_rag.Prelude.{
  ◌≡◌, refl, ap, ◌⊎◌, some, List, [], ◌∷◌, map, Bool, true, false, ◌&&◌, length, sort_by,
  sort_by-perm, sort_by-IsSortedBy, IsSortedBy-Pairwise, Pairwise, text_lt, if◌then◌else◌,
  text_lt_asymm, text_lt_cotrans, ok, arith, nat_beq_iff, Bool-cases, inl, inr, subst, list_eq,
  nat_eq,
}
use project_rag.Prelude.Floats.{Floats, le, IsOrdered, lt_asymm}
use project_rag.Retrieval.Models.{RankedCandidate, chunk_id_of}
use project_rag.Retrieval.Fusion.Rerank.{
  least, greatest, minmax, rescore, rescore_all, final_before, rescored_of, attach_rerank_scores,
}

module _ (fl : Floats) where
  open fl use {Float, literal, sub, div, eq}

  -- A value on the scale on which the least of the values is 0 and the greatest 1; all are 1 if they
  -- are equal.
  pub scaled : List Float → Float → Float
  scaled [] value = value
  scaled (v ∷ vs) value =
      if eq (greatest fl v vs) (least fl v vs)
      then literal 1 1
      else div (sub value (least fl v vs)) (sub (greatest fl v vs) (least fl v vs))

  map_if :
      (b : Bool) (x : Float) (f : Float → Float) (xs : List Float)
      → (if b then map (λ _. x) xs else map f xs) ≡ map (λ v. if b then x else f v) xs
  map_if true x f xs = refl
  map_if false x f xs = refl

  minmax-scaled : (values : List Float) → minmax fl values ≡ map (scaled values) values
  unfolding minmax scaled
  minmax-scaled [] = refl
  minmax-scaled (v ∷ vs) =
      map_if (eq (greatest fl v vs) (least fl v vs)) (literal 1 1)
        (λ value. div (sub value (least fl v vs)) (sub (greatest fl v vs) (least fl v vs))) (v ∷ vs)

module _ (fl : Floats) {J : Type 0} where
  open fl use {Float, literal, add, sub, mul}

  -- Each candidate with its score of the reranker, and as the final score the weighted mean of its
  -- fusion score and that score, scaled among those of all.
  pub blended :
      Float
      → List Float
      → List Float
      → List (RankedCandidate Float J)
      → List Float
      → List (RankedCandidate Float J)
  blended weight fusions scores (r ∷ rs) (raw ∷ raws) =
      record r {
        rerank_score = some raw;
        final_score =
            add (mul (sub (literal 1 1) weight) (scaled fl fusions r.fusion_score))
              (mul weight (scaled fl scores raw));
      }
      ∷ blended weight fusions scores rs raws
  blended weight fusions scores (r ∷ rs) [] = []
  blended weight fusions scores [] raws = []

  rescore_all-blended :
      (weight : Float) (fusions scores : List Float) (rs : List (RankedCandidate Float J))
      (raws : List Float)
      → rescore_all fl weight rs raws
          (map (scaled fl fusions) (map (λ r. r.fusion_score) rs))
          (map (scaled fl scores) raws)
        ≡ blended weight fusions scores rs raws
  unfolding rescore_all blended
  rescore_all-blended weight fusions scores [] raws = refl
  rescore_all-blended weight fusions scores (r ∷ rs) [] = refl
  rescore_all-blended weight fusions scores (r ∷ rs) (raw ∷ raws) =
      ap
        (λ l. rescore fl weight r raw (scaled fl fusions r.fusion_score) (scaled fl scores raw) ∷ l)
        (rescore_all-blended weight fusions scores rs raws)

  rescored_of-blended :
      (weight : Float) (rs : List (RankedCandidate Float J)) (scores : List Float)
      → rescored_of fl weight rs scores
        ≡ blended weight (map (λ r. r.fusion_score) rs) scores rs scores
  unfolding rescored_of
  rescored_of-blended weight rs scores =
      let fusions = map (λ r. r.fusion_score) rs in
      rw (minmax-scaled fl fusions, minmax-scaled fl scores)
        (rescore_all-blended weight fusions scores rs scores)

  pub candidates-blended :
      (weight : Float) (fusions scores : List Float) (rs : List (RankedCandidate Float J))
      (raws : List Float)
      → length rs ≡ length raws
      → map (λ r. r.candidate) (blended weight fusions scores rs raws) ≡ map (λ r. r.candidate) rs
  unfolding blended
  candidates-blended weight fusions scores [] raws h = refl
  candidates-blended weight fusions scores (r ∷ rs) [] h = ground arith
  candidates-blended weight fusions scores (r ∷ rs) (raw ∷ raws) h =
      ap (◌∷◌ r.candidate) (candidates-blended weight fusions scores rs raws (omega arith))

module _ (fl : Floats) {J : Type 0} (o : IsOrdered fl) where
  final_asymm :
      (a b : RankedCandidate fl.Float J) → final_before fl a b ≡ true → final_before fl b a ≡ false
  unfolding final_before
  final_asymm a b h = ground (
    arith,
    o.eq_lt a.final_score b.final_score,
    o.eq_lt b.final_score a.final_score,
    lt_asymm fl o b.final_score a.final_score,
    text_lt_asymm (chunk_id_of a) (chunk_id_of b),
  )

  final_cotrans :
      (a b c : RankedCandidate fl.Float J)
      → final_before fl a b ≡ false
      → final_before fl b c ≡ false
      → final_before fl a c ≡ false
  unfolding final_before
  final_cotrans a b c h k =
      let x = a.final_score in
      let y = b.final_score in
      let z = c.final_score in
      ground (
        arith,
        o.eq_lt x y,
        o.eq_lt y z,
        o.eq_lt x z,
        o.lt_cotrans z y x,
        o.lt_cotrans x y z,
        o.lt_cotrans y z x,
        o.lt_cotrans z x y,
        o.lt_cotrans x z y,
        o.lt_cotrans y x z,
        text_lt_cotrans (chunk_id_of a) (chunk_id_of b) (chunk_id_of c),
      )

  -- The first may stand before the second: it has the better final score, or the same one and a chunk
  -- id that does not come later.
  pub FinalBefore : RankedCandidate fl.Float J → RankedCandidate fl.Float J → Type 0
  FinalBefore a b =
      (fl.lt b.final_score a.final_score ≡ true)
      ⊎ ((fl.eq a.final_score b.final_score ≡ true)
          × (text_lt (chunk_id_of b) (chunk_id_of a) ≡ false))

  FinalBefore-of-final :
      (a b : RankedCandidate fl.Float J) → final_before fl b a ≡ false → FinalBefore a b
  unfolding final_before FinalBefore
  FinalBefore-of-final a b h =
      let x = a.final_score in
      let y = b.final_score in
      elim (Bool-cases (fl.eq y x)) [
        | inr e ↦ inl (ground (arith, h, e, o.eq_lt y x))
        | inl e ↦ inr (ground (arith, e, o.eq_lt y x, o.eq_lt x y), ground (arith, h, e))
      ]

  -- With as many scores as candidates and a weight w between 0 and 1 the result holds each candidate
  -- once, its final score being (1 - w) times its scaled fusion score plus w times its scaled rerank
  -- score. Nobody stands behind one with a lower final score, or with the same one and a later chunk
  -- id.
  pub rerank_keeps :
      (rs : List (RankedCandidate fl.Float J)) (scores : List fl.Float) (weight : fl.Float)
      → length rs ≡ length scores
      → (le fl (fl.literal 0 1) weight && le fl weight (fl.literal 1 1)) ≡ true
      → (ranked : List (RankedCandidate fl.Float J)) × (attach_rerank_scores fl rs scores weight
          ≡ ok ranked)
        × Perm ranked (blended fl weight (map (λ r. r.fusion_score) rs) scores rs scores)
        × Perm (map (λ r. r.candidate) ranked) (map (λ r. r.candidate) rs)
        × Pairwise FinalBefore ranked
  unfolding attach_rerank_scores
  rerank_keeps [] scores weight h k = (
    [],
    rw ((nat_beq_iff 0 (length scores)).1 h, k) refl,
    unfold blended in Perm.rfl,
    Perm.rfl,
    tt,
  )
  rerank_keeps (r ∷ rs) scores weight h k =
      let fusions = map (λ r. r.fusion_score) (r ∷ rs) in
      let rescored = rescored_of fl weight (r ∷ rs) scores in
      let ranked = sort_by (final_before fl) rescored in
      let same : Perm ranked (blended fl weight fusions scores (r ∷ rs) scores) =
        subst (Perm ranked) (rescored_of-blended fl weight (r ∷ rs) scores)
          (sort_by-perm (final_before fl) rescored) in
      (
        ranked,
        rw ((nat_beq_iff (length (r ∷ rs)) (length scores)).1 h, k) refl,
        same,
        subst (Perm (map (λ r. r.candidate) ranked))
            (candidates-blended fl weight fusions scores (r ∷ rs) scores h)
            (Perm.map (λ r. r.candidate) same),
        IsSortedBy-Pairwise (final_before fl) FinalBefore FinalBefore-of-final ranked
            (sort_by-IsSortedBy (final_before fl) final_asymm final_cotrans rescored),
      )
