-- ===== src/Retrieval/Fusion/Dedupe.antt =====
-- `deduplicate_ranked_candidates` of fusion.py. The normal form of a passage (NFKC, one space for
-- white space, case folding) and its `\w+` tokens are computed by the standard library's tables:
-- `normalize` and `word_tokens` are parameters.
use mathlib.Core.List.{Sublist}
use mathlib.Core.List.Sublist
use project_rag.Prelude.{
  ◌+◌, ◌*◌, ◌≡◌, refl, Text, Option, none, some, List, [], ◌∷◌, ◌++◌, map, Bool, true, false, not,
  ◌&&◌, ◌||◌, is_empty, length, member, any, keep, if◌then◌else◌, list_eq, nat_eq, ◌==◌, Result, ok,
  raise_if, ◌>>◌, arith, Bool-cases, inl, inr, sym, member-append,
}
use project_rag.Prelude.Floats.{Floats, le}
use project_rag.Retrieval.Models.{RankedCandidate}
use project_rag.Retrieval.Fusion.Rrf.{FusionError, bad_threshold}

-- `content_hash` where it is given and not empty.
abbrev pub hash_of : Option Text → List Text
hash_of none = []
hash_of (some hash) = if is_empty hash then [] else hash ∷ []

-- `set(tokens)`: each token once.
unfoldable pub token_set : List Text → List Text
token_set [] = []
token_set (w ∷ ws) = let rest = token_set ws in if member w rest then rest else w ∷ rest

module _ (fl : Floats) (threshold : fl.Float) where
  open fl use {Float, literal, div, lt}

  unfoldable pub token_similarity : List Text → List Text → Float
  token_similarity left right =
      if is_empty left && is_empty right
      then literal 1 1
      else if is_empty left || is_empty right
      then literal 0 1
      else div (literal (2 * length (keep (λ w. member w right) left)) 1)
          (literal (length left + length right) 1)

  abbrev pub too_similar : List Text → List Text → Bool
  too_similar tokens prior = not (is_empty prior) && le fl threshold (token_similarity tokens prior)

-- `any(h in seen for h in hash_of(...))`
abbrev pub hash_seen : List Text → Option Text → Bool
hash_seen seen hash = any (λ h. member h seen) (hash_of hash)

-- Two hashes are given, not empty, and equal.
abbrev pub same_hash : Option Text → Option Text → Bool
same_hash prior hash = hash_seen (hash_of prior) hash

hash_seen-cons :
    (hash prior : Option Text) (seen : List Text)
    → hash_seen (hash_of prior ++ seen) hash ≡ (same_hash prior hash || hash_seen seen hash)
hash_seen-cons none prior seen = refl
hash_seen-cons (some h) prior seen = elim (Bool-cases (is_empty h)) [
  | inl e ↦ rw e refl
  | inr e ↦ rw (e, member-append h (hash_of prior) seen) (ground arith)
]

regroup :
    (h m a h' m' a' t : Bool)
    → ((h || h') || (m || m') || (t && (a || a')))
      ≡ ((h || m || (t && a)) || (h' || m' || (t && a')))
regroup h m a h' m' a' t = ground arith

module _ (fl : Floats) {J : Type 0} (normalize : Text → Text) (word_tokens : Text → List Text)
    (threshold : fl.Float) where
  open fl use {Float, literal}

  abbrev pub passage_of : RankedCandidate Float J → Text
  passage_of r = normalize r.candidate.text

  abbrev pub tokens_of : RankedCandidate Float J → List Text
  tokens_of r = token_set (word_tokens (passage_of r))

  abbrev pub is_duplicate :
      List Text → List Text → List (List Text) → RankedCandidate Float J → Bool
  is_duplicate hashes texts token_sets r =
      hash_seen hashes r.candidate.content_hash
      || member (passage_of r) texts
      || (not (is_empty (tokens_of r)) && any (too_similar fl threshold (tokens_of r)) token_sets)

  -- The loop, with what it has seen.
  unfoldable pub deduplicate_from :
      List Text
      → List Text
      → List (List Text)
      → List (RankedCandidate Float J)
      → List (RankedCandidate Float J)
  deduplicate_from hashes texts token_sets [] = []
  deduplicate_from hashes texts token_sets (r ∷ rest) =
      let skipped = deduplicate_from hashes texts token_sets rest in
      let taken =
        deduplicate_from (hash_of r.candidate.content_hash ++ hashes) (passage_of r ∷ texts)
          (tokens_of r ∷ token_sets) rest in
      if is_duplicate hashes texts token_sets r then skipped else r ∷ taken

  unfoldable pub deduplicate_ranked_candidates :
      List (RankedCandidate Float J) → Result FusionError (List (RankedCandidate Float J))
  unfolding deduplicate_from
  deduplicate_ranked_candidates candidates = do
    raise_if (not (le fl (literal 0 1) threshold && le fl threshold (literal 1 1))) bad_threshold
    ok (deduplicate_from [] [] [] candidates)

  -- The specification: two passages clash if they have one content hash, one normal form, or
  -- token sets as similar as the threshold.
  unfoldable pub clash : RankedCandidate Float J → RankedCandidate Float J → Bool
  clash r prior =
      same_hash prior.candidate.content_hash r.candidate.content_hash
      || passage_of r == passage_of prior
      || (not (is_empty (tokens_of r)) && too_similar fl threshold (tokens_of r) (tokens_of prior))

  -- Keep what clashes with nothing kept before.
  unfoldable pub first_of_clash :
      List (RankedCandidate Float J)
      → List (RankedCandidate Float J)
      → List (RankedCandidate Float J)
  first_of_clash kept [] = []
  first_of_clash kept (r ∷ rest) =
      let skipped = first_of_clash kept rest in
      let taken = first_of_clash (r ∷ kept) rest in
      if any (clash r) kept then skipped else r ∷ taken

  hashes_of : List (RankedCandidate Float J) → List Text
  hashes_of [] = []
  hashes_of (r ∷ kept) = hash_of r.candidate.content_hash ++ hashes_of kept

  is_duplicate-eq-any :
      (kept : List (RankedCandidate Float J)) (r : RankedCandidate Float J)
      → is_duplicate (hashes_of kept) (map passage_of kept) (map tokens_of kept) r
        ≡ any (clash r) kept
  unfolding hashes_of clash
  is_duplicate-eq-any [] r = no_hash r.candidate.content_hash (is_empty (tokens_of r))
    where
      no_hash : (o : Option Text) (e : Bool) → (hash_seen [] o || false || (not e && false)) ≡ false
      no_hash o e = ground arith
  is_duplicate-eq-any (prior ∷ kept) r =
      rw
        (
          hash_seen-cons r.candidate.content_hash prior.candidate.content_hash (hashes_of kept),
          sym (is_duplicate-eq-any kept r),
        )
        (regroup (same_hash prior.candidate.content_hash r.candidate.content_hash)
          (passage_of r == passage_of prior)
          (too_similar fl threshold (tokens_of r) (tokens_of prior))
          (hash_seen (hashes_of kept) r.candidate.content_hash)
          (member (passage_of r) (map passage_of kept))
          (any (too_similar fl threshold (tokens_of r)) (map tokens_of kept))
          (not (is_empty (tokens_of r))))

  deduplicate_from-first_of_clash :
      (kept xs : List (RankedCandidate Float J))
      → deduplicate_from (hashes_of kept) (map passage_of kept) (map tokens_of kept) xs
        ≡ first_of_clash kept xs
  unfolding deduplicate_from first_of_clash hashes_of
  deduplicate_from-first_of_clash kept [] = refl
  deduplicate_from-first_of_clash kept (r ∷ rest) =
      rw
        (
          is_duplicate-eq-any kept r,
          deduplicate_from-first_of_clash kept rest,
          deduplicate_from-first_of_clash (r ∷ kept) rest,
        )
        refl

  first_of_clash-Sublist :
      (kept xs : List (RankedCandidate Float J)) → Sublist (first_of_clash kept xs) xs
  unfolding first_of_clash
  first_of_clash-Sublist kept [] = Sublist.refl []
  first_of_clash-Sublist kept (r ∷ rest) = elim (Bool-cases (any (clash r) kept)) [
    | inl e ↦ rw e (Sublist.cons r (first_of_clash-Sublist kept rest))
    | inr e ↦ rw e (Sublist.cons-cons r (first_of_clash-Sublist (r ∷ kept) rest))
  ]

  -- For a threshold between 0 and 1 deduplication returns the candidates, in their order, that
  -- clash with no candidate kept before them; a sublist of what it was given.
  pub deduplicate_ranked_candidates_lem :
      (xs : List (RankedCandidate Float J))
      → (le fl (literal 0 1) threshold && le fl threshold (literal 1 1)) ≡ true
      → (deduplicate_ranked_candidates xs ≡ ok (first_of_clash [] xs))
        × Sublist (first_of_clash [] xs) xs
  unfolding deduplicate_ranked_candidates hashes_of
  deduplicate_ranked_candidates_lem xs valid =
      (rw (valid, deduplicate_from-first_of_clash [] xs) refl, first_of_clash-Sublist [] xs)
