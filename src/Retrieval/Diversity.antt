-- ===== src/Retrieval/Diversity.antt =====
-- diversity.py: the choice of the sources. The counters of the loop are counts of the selected.
pub mod Caps
use project_rag.Prelude.{
  ℕ, zero, suc, ◌+◌, ◌*◌, ◌≡◌, refl, Text, Option, none, some, List, [], ◌∷◌, ◌++◌, map, Bool, true,
  false, not, ◌&&◌, ◌||◌, is_empty, length, member, keep, if◌then◌else◌, list_eq, nat_eq, ◌==◌, Eq,
  Result, ok, raise, raise_if, ◌>>=◌, ◌>>◌, text_lt, ltb, leb, nat_beq, every,
}
use project_rag.Prelude.Floats.{Floats, le}
use project_rag.Retrieval.Models.{RankedCandidate, chunk_id_of}

pub data DiversityError : Type 0 where
  bad_lambda bad_caps : DiversityError

module _ (fl : Floats) where
  open fl use {Float, literal, lt, eq, add, sub, mul, div, sqrt}

  -- `sum(a * b for a, b in zip(left, right))`, from the left
  unfoldable pub dot_from : Float → List Float → List Float → Float
  dot_from total (a ∷ left) (b ∷ right) = dot_from (add total (mul a b)) left right
  dot_from total [] right = total
  dot_from total (a ∷ left) [] = total

  abbrev pub norm : List Float → Float
  norm v = sqrt (dot_from (literal 0 1) v v)

  -- Called with vectors of one length.
  unfoldable pub cosine_similarity : List Float → List Float → Float
  cosine_similarity left right =
      if eq (norm left) (literal 0 1) || eq (norm right) (literal 0 1)
      then literal 0 1
      else div (dot_from (literal 0 1) left right) (mul (norm left) (norm right))

module _ (fl : Floats) where
  open fl use {Float, literal, lt}

  -- `max(values, default=0.0)`
  unfoldable pub max_from : Float → List Float → Float
  max_from best [] = best
  max_from best (v ∷ vs) = max_from (if lt best v then v else best) vs

  abbrev pub max_or_zero : List Float → Float
  max_or_zero [] = literal 0 1
  max_or_zero (v ∷ vs) = max_from v vs

module _ (fl : Floats) {J : Type 0} where
  open fl use {Float, literal, lt, eq, sub, mul}

  abbrev pub embedding_of : RankedCandidate Float J → Option (List Float)
  embedding_of r = r.candidate.embedding

  unfoldable pub similarities : List Float → List (RankedCandidate Float J) → List Float
  similarities embedding [] = []
  similarities embedding (prior ∷ rest) =
      let others = similarities embedding rest in
      elim (embedding_of prior) [
        | none ↦ others
        | some e ↦
            if not (nat_beq (length e) (length embedding))
            then others
            else cosine_similarity fl embedding e ∷ others
      ]

  unfoldable pub redundancy : Option (List Float) → List (RankedCandidate Float J) → Float
  redundancy none selected = literal 0 1
  redundancy (some embedding) selected = max_or_zero fl (similarities embedding selected)

  unfoldable pub mmr_score :
      RankedCandidate Float J → List (RankedCandidate Float J) → Float → Float
  mmr_score r selected lambda =
      sub (mul lambda r.final_score)
        (mul (sub (literal 1 1) lambda) (redundancy (embedding_of r) selected))

  -- `key(a) < key(b)` for the key (final_score, chunk id), and with the MMR score before it.
  unfoldable pub below : RankedCandidate Float J → RankedCandidate Float J → Bool
  below a b =
      if not (eq a.final_score b.final_score)
      then lt a.final_score b.final_score
      else text_lt (chunk_id_of a) (chunk_id_of b)

  unfoldable pub mmr_below :
      List (RankedCandidate Float J)
      → Float
      → RankedCandidate Float J
      → RankedCandidate Float J
      → Bool
  mmr_below selected lambda a b =
      if not (eq (mmr_score a selected lambda) (mmr_score b selected lambda))
      then lt (mmr_score a selected lambda) (mmr_score b selected lambda)
      else below a b

-- At least two vectors, all of one length.
unfoldable pub diversity_available : {F : Type 0} → List (List F) → Bool
diversity_available [] = false
diversity_available (v ∷ vs) = not (is_empty vs) && every (λ w. nat_beq (length w) (length v)) vs

-- Python's `max(items, key=…)` of `first ∷ rest`: the first of the greatest.
unfoldable pub best_by : {A : Type 0} → (A → A → Bool) → A → List A → A
best_by lt best [] = best
best_by lt best (x ∷ xs) = best_by lt (if lt best x then x else best) xs

module _ {F J : Type 0} where
  -- `section_key` is the pair of document and section path.
  abbrev pub same_document : RankedCandidate F J → RankedCandidate F J → Bool
  same_document a b = a.candidate.document_id == b.candidate.document_id

  abbrev pub same_section : RankedCandidate F J → RankedCandidate F J → Bool
  same_section a b = same_document a b && a.candidate.section_path == b.candidate.section_path

  -- The values of the two counters.
  abbrev pub document_count : List (RankedCandidate F J) → RankedCandidate F J → ℕ
  document_count selected r = length (keep (same_document r) selected)

  abbrev pub section_count : List (RankedCandidate F J) → RankedCandidate F J → ℕ
  section_count selected r = length (keep (same_section r) selected)

module _ {F J : Type 0} ⦃e : Eq (RankedCandidate F J)⦄ where
  -- `list.remove`: without the first equal item.
  unfoldable pub remove :
      RankedCandidate F J → List (RankedCandidate F J) → List (RankedCandidate F J)
  remove x [] = []
  remove x (y ∷ ys) = if x == y then ys else y ∷ remove x ys

module _ (fl : Floats) {J : Type 0} where
  open fl use {Float}

  abbrev pub choose :
      Bool
      → Float
      → List (RankedCandidate Float J)
      → RankedCandidate Float J
      → List (RankedCandidate Float J)
      → RankedCandidate Float J
  choose available lambda selected first others =
      if is_empty selected || not available
      then best_by (below fl) first others
      else best_by (mmr_below fl selected lambda) first others

  abbrev pub embeddings : List (RankedCandidate Float J) → List (List Float)
  embeddings [] = []
  embeddings (r ∷ rs) =
      let rest = embeddings rs in elim (embedding_of fl r) [ none ↦ rest | some v ↦ v ∷ rest ]

module _ (fl : Floats) {J : Type 0} (max_per_document max_per_section : ℕ) where
  open fl use {Float}

  unfoldable pub is_eligible : List (RankedCandidate Float J) → RankedCandidate Float J → Bool
  is_eligible selected r =
      ltb (document_count selected r) max_per_document
      && ltb (section_count selected r) max_per_section

  module _ ⦃e : Eq (RankedCandidate Float J)⦄ where
    -- The `while`, on fuel.
    unfoldable pub select_from :
        Bool
        → Float
        → ℕ
        → ℕ
        → List (RankedCandidate Float J)
        → List (RankedCandidate Float J)
        → List (RankedCandidate Float J)
    select_from available lambda limit zero remaining selected = selected
    select_from available lambda limit (suc fuel) remaining selected =
        if is_empty remaining || leb limit (length selected)
        then selected
        else elim (keep (is_eligible selected) remaining) [
          | [] ↦ selected
          | first ∷ others ↦
              let chosen = choose fl available lambda selected first others in
              select_from available lambda limit fuel (remove chosen remaining)
                (selected ++ (chosen ∷ []))
        ]

    unfoldable pub select_diverse_candidates :
        List (RankedCandidate Float J)
        → ℕ
        → Float
        → Result DiversityError (List (RankedCandidate Float J) × Bool)
    select_diverse_candidates candidates limit lambda =
        if ltb limit 1
        then ok ([], false)
        else (raise_if (not (le fl (fl.literal 0 1) lambda && le fl lambda (fl.literal 1 1)))
              bad_lambda
            >> raise_if (ltb max_per_document 1 || ltb max_per_section 1) bad_caps
            >> (let available = diversity_available (embeddings fl candidates) in
                let selected =
                  select_from available lambda limit (length candidates) candidates [] in
                ok (selected, available && ltb 1 (length selected))))
