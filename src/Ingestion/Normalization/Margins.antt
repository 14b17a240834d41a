-- ===== src/Ingestion/Normalization/Margins.antt =====
-- `Normalizer` of normalization.py.
use project_rag.Prelude.{
  ℕ, ◌++◌, ◌+◌, ◌*◌, ◌/◌, max, Text, Option, none, some, List, [], ◌∷◌, map, Bool, true, false, not,
  ◌&&◌, is_empty, length, member, keep, leb, ltb, sort_by, list_eq, nat_eq, option_eq, ◌==◌,
  if◌then◌else◌,
}
use project_rag.Ingestion.Models.{BlockKind, heading, paragraph, list, table, code, Block}
use project_rag.Ingestion.Normalization.Clean.{normalize_text}

abbrev pub preserves_layout : BlockKind → Bool
preserves_layout list = true
preserves_layout table = true
preserves_layout code = true
preserves_layout heading = false
preserves_layout paragraph = false

-- A text that may be a margin: one line of one to 120 characters.
abbrev pub is_margin_text : Text → Bool
is_margin_text text = not (member 10 text) && leb 1 (length text) && leb (length text) 120

-- The numbers that are there, each once, in the order in which they are first met.
unfoldable pub add_pages : List ℕ → List (Option ℕ) → List ℕ
add_pages seen [] = seen
add_pages seen (none ∷ pages) = add_pages seen pages
add_pages seen (some page ∷ pages) =
    let old = add_pages seen pages in
    let new = add_pages (seen ++ page ∷ []) pages in if member page seen then old else new

-- Three fifths of the pages, rounded up, and at least three.
abbrev pub threshold : List ℕ → ℕ
threshold pages = max 3 ((length pages * 3 + 4) / 5)

module _ {V : Type 0} where
  abbrev pub by_order : Block V → Block V → Bool
  by_order a b = ltb a.order b.order

  abbrev pub first_of : List (Block V) → List Text
  first_of [] = []
  first_of (b ∷ blocks) = b.text ∷ []

  unfoldable pub last_of : List (Block V) → List Text
  last_of [] = []
  last_of (b ∷ []) = b.text ∷ []
  last_of (b ∷ c ∷ blocks) = last_of (c ∷ blocks)

  -- The candidates of a page: the texts of its first and last block, where they may be margins.
  unfoldable pub page_edges : ℕ → List (Block V) → List Text
  page_edges page blocks =
      let ordered = sort_by by_order (keep (λ b. b.page == some page) blocks) in
      keep is_margin_text (first_of ordered ++ last_of ordered)

  -- On how many pages the text is a candidate.
  abbrev pub edge_count : Text → List (Block V) → List ℕ → ℕ
  edge_count text blocks pages = length (keep (λ page. member text (page_edges page blocks)) pages)

  abbrev pub is_edge : Block V → List (Block V) → Bool
  is_edge b blocks = elim b.page [
    | none ↦ false
    | some page ↦ member b.text (page_edges page blocks)
  ]

  abbrev pub is_repeated : Block V → List (Block V) → List ℕ → Bool
  is_repeated b blocks pages =
      leb (threshold pages) (edge_count b.text blocks pages) && is_edge b blocks

  unfoldable pub remove_repeated_page_margins : List (Block V) → List (Block V)
  remove_repeated_page_margins blocks =
      let pages = add_pages [] (map (λ b. b.page) blocks) in
      let kept = keep (λ b. not (is_repeated b blocks pages)) blocks in
      if ltb (length pages) 3 then blocks else kept

  -- The loop of `normalize`.
  unfoldable pub cleaned : (Text → Text) → List (Block V) → List (Block V)
  cleaned nfc [] = []
  cleaned nfc (b ∷ blocks) =
      let text = normalize_text nfc (preserves_layout b.kind) b.text in
      let rest = cleaned nfc blocks in
      if is_empty text then rest else record b { text = text } ∷ rest

  unfoldable pub normalize : (Text → Text) → Bool → List (Block V) → List (Block V)
  normalize nfc remove_margins blocks =
      let normalized = cleaned nfc (sort_by by_order blocks) in
      if remove_margins then remove_repeated_page_margins normalized else normalized
