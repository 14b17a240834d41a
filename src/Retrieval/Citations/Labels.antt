-- ===== src/Retrieval/Citations/Labels.antt =====
-- The labels that `_INLINE_CITATION_RE` of citations.py finds, against where labels stand in a text.
use project_rag.Prelude.{
  ◌≡◌, refl, sym, ap, ◌∙◌, ◌↔◌, Text, Option, none, some, List, [], ◌∷◌, ◌++◌, append-nil,
  append_assoc, true, false, not, ◌&&◌, is_empty, every, member, nat_beq, list_eq, nat_eq, ◌==◌,
  beq_refl, eq_of_beq, Bool-cases, Option-cases, inl, inr, arith,
}
use project_rag.Retrieval.Digits.{is_decimal}
use project_rag.Retrieval.Citations.{read_digits, label_at, with_label, inline_labels}

-- Digits, at least one, and decimal in any script.
abbrev pub AreDigits : Text → Type 0
AreDigits digits = (is_empty digits ≡ false) × (every is_decimal digits ≡ true)

-- The label `[S…]` with these digits stands somewhere in the text.
abbrev pub Occurs : Text → Text → Type 0
Occurs digits text =
    (before after : Text) × (text ≡ before ++ (b'[' ∷ b'S' ∷ (digits ++ b']' ∷ after)))
    × AreDigits digits

bracket-not-decimal : is_decimal b']' ≡ false
unfolding is_decimal
bracket-not-decimal = refl

read_digits_sound :
    (found s : Text) {digits : Text}
    → read_digits found s ≡ some digits
    → (read after : Text) × (digits ≡ found ++ read)
      × (s ≡ read ++ b']' ∷ after)
      × (every is_decimal read ≡ true)
      × (is_empty digits ≡ false)
unfolding read_digits
read_digits_sound found [] h = cc
read_digits_sound found (c ∷ s) {digits} h = elim (Bool-cases (is_decimal c)) [
  | inl e ↦
      let (read, after, whole, rest, decimals, nonempty) =
        read_digits_sound (found ++ c ∷ []) s (ground (arith, h, e)) in
      (
        c ∷ read,
        after,
        whole ∙ append_assoc found (c ∷ []) read,
        ap (◌∷◌ c) rest,
        rw e decimals,
        nonempty,
      )
  | inr e ↦ elim (Bool-cases (nat_beq c b']' && not (is_empty found))) [
    | inl f ↦
        let same : digits ≡ found = ground (arith, h, e, f) in
        ([], s, same ∙ sym (append-nil found), ground (arith, f), refl, rw same (ground (arith, f)))
    | inr f ↦ absurd (ground (arith, h, e, f))
  ]
]

read_digits_complete :
    (found read after : Text)
    → every is_decimal read ≡ true
    → is_empty (found ++ read) ≡ false
    → read_digits found (read ++ b']' ∷ after) ≡ some (found ++ read)
unfolding read_digits
read_digits_complete found [] after h k =
    let nonempty : is_empty found ≡ false = ap is_empty (sym (append-nil found)) ∙ k in
    rw (bracket-not-decimal, nonempty) (ap (λ t. some t) (sym (append-nil found)))
read_digits_complete found (c ∷ read) after h k =
    let digit : is_decimal c ≡ true = ground (arith, h) in
    let others : every is_decimal read ≡ true = ground (arith, h) in
    let whole = append_assoc found (c ∷ []) read in
    rw digit (
      read_digits_complete (found ++ c ∷ []) read after others (ap is_empty whole ∙ k)
      ∙ ap (λ t. some t) whole)

label_at_sound :
    (text : Text) {digits : Text}
    → label_at text ≡ some digits
    → (after : Text) × (text ≡ b'[' ∷ b'S' ∷ (digits ++ b']' ∷ after)) × AreDigits digits
unfolding label_at
label_at_sound [] h = cc
label_at_sound (c ∷ []) h = cc
label_at_sound (c ∷ d ∷ s) {digits} h = elim (Bool-cases (nat_beq c b'[' && nat_beq d b'S')) [
  | inl e ↦
      let (read, after, whole, rest, decimals, nonempty) =
        read_digits_sound [] s {digits = digits} (ground (arith, h, e)) in
      let first : c ≡ b'[' = ground (arith, e) in
      let second : d ≡ b'S' = ground (arith, e) in
      (
        after,
        rw (first, second, rest, whole) refl,
        (nonempty, ap (every is_decimal) whole ∙ decimals),
      )
  | inr e ↦ absurd (ground (arith, h, e))
]

label_at_complete :
    (digits after : Text)
    → AreDigits digits
    → label_at (b'[' ∷ b'S' ∷ (digits ++ b']' ∷ after)) ≡ some digits
unfolding label_at
label_at_complete digits after h = read_digits_complete [] digits after h.1 h.0

member-with_label :
    (digits : Text) (o : Option Text) (others : List Text)
    → member digits others ≡ true
    → member digits (with_label o others) ≡ true
member-with_label digits none others h = h
member-with_label digits (some first) others h = ground (arith, h)

inline_labels_sound :
    (digits text : Text) → member digits (inline_labels text) ≡ true → Occurs digits text
unfolding inline_labels
inline_labels_sound digits [] h = cc
inline_labels_sound digits (c ∷ s) h = elim (Option-cases (label_at (c ∷ s))) [
  | inl e ↦
      let (before, after, place, good) =
        inline_labels_sound digits s
          (ap (λ o. member digits (with_label o (inline_labels s))) (sym e) ∙ h) in
      (c ∷ before, after, ap (◌∷◌ c) place, good)
  | inr (first, e) ↦
      let listed = ap (λ o. member digits (with_label o (inline_labels s))) (sym e) ∙ h in
      elim (Bool-cases (digits == first)) [
        | inl same ↦
            let (after, place, good) =
              label_at_sound (c ∷ s) (e ∙ ap (λ t. some t) (sym (eq_of_beq digits first same))) in
            ([], after, place, good)
        | inr other ↦
            let (before, after, place, good) =
              inline_labels_sound digits s (ground (arith, listed, other)) in
            (c ∷ before, after, ap (◌∷◌ c) place, good)
      ]
]

inline_labels_complete :
    (digits before after : Text)
    → AreDigits digits
    → member digits (inline_labels (before ++ (b'[' ∷ b'S' ∷ (digits ++ b']' ∷ after)))) ≡ true
unfolding inline_labels
inline_labels_complete digits [] after h =
    rw (label_at_complete digits after h) (ground (arith, beq_refl digits))
inline_labels_complete digits (b ∷ before) after h =
    member-with_label digits _ _ (inline_labels_complete digits before after h)

-- The regular expression finds the labels that stand in the text.
pub inline_labels_iff :
    (digits text : Text) → (member digits (inline_labels text) ≡ true) ↔ Occurs digits text
inline_labels_iff digits text = (
  inline_labels_sound digits text,
  λ (before, after, place, good).
      ap (λ t. member digits (inline_labels t)) place
      ∙ inline_labels_complete digits before after good,
)
