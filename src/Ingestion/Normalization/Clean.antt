-- ===== src/Ingestion/Normalization/Clean.antt =====
-- `normalize_text` of normalization.py. NFC is a parameter; a control character of Unicode has a
-- code below 32 or from 127 to 159.
use project_rag.Prelude.{
  ℕ, zero, suc, ◌+◌, Text, List, [], ◌∷◌, ◌++◌, map, Bool, true, false, not, ◌&&◌, ◌||◌, is_empty,
  nat_beq, leb, join, split_on, strip, rstrip, strip_newlines, keep, if◌then◌else◌,
}

-- `text.replace("\r\n", "\n").replace("\r", "\n")`. The flag says whether the character before is a
-- carriage return.
unfoldable pub with_newlines : Bool → Text → Text
with_newlines after [] = []
with_newlines after (c ∷ s) =
    let returned = with_newlines true s in
    let rest = with_newlines false s in
    if nat_beq c 13 then 10 ∷ returned else if nat_beq c 10 && after then rest else c ∷ rest

abbrev pub is_control : ℕ → Bool
is_control c = leb c 31 || leb 127 c && leb c 159

-- `_strip_control_characters`
unfoldable pub strip_control_characters : Text → Text
strip_control_characters text = keep (λ c. nat_beq c 10 || nat_beq c 9 || not (is_control c)) text

abbrev pub is_blank : ℕ → Bool
is_blank c = nat_beq c 32 || nat_beq c 9

abbrev pub is_lower : ℕ → Bool
is_lower c = leb 97 c && leb c 122

abbrev pub is_letter : ℕ → Bool
is_letter c = is_lower c || leb 65 c && leb c 90

-- How many characters of `[ \t]*\n[ \t]*(?=[a-z])` stand at the start, or none; the flag says whether
-- the line break has been read.
unfoldable pub wrap_length : Bool → ℕ → Text → ℕ
wrap_length broken n [] = 0
wrap_length broken n (c ∷ s) =
    let blank = wrap_length broken (n + 1) s in
    let line = wrap_length true (n + 1) s in
    if is_blank c
    then blank
    else if nat_beq c 10 && not broken
    then line
    else if is_lower c && broken
    then n
    else 0

-- `_LINE_WRAP_HYPHEN_RE.sub("", text)`, with the number of characters still to drop and whether the
-- character before is a letter.
unfoldable pub unwrap_hyphens : ℕ → Bool → Text → Text
unwrap_hyphens skip letter [] = []
unwrap_hyphens (suc skip) letter (c ∷ s) = unwrap_hyphens skip (is_letter c) s
unwrap_hyphens zero letter (c ∷ s) =
    let wrapped = unwrap_hyphens (wrap_length false 0 s) false s in
    let rest = unwrap_hyphens 0 (is_letter c) s in
    if nat_beq c 45 && letter && leb 1 (wrap_length false 0 s) then wrapped else c ∷ rest

abbrev pub is_prose_space : ℕ → Bool
is_prose_space c = is_blank c || nat_beq c 12 || nat_beq c 11

-- `_PROSE_SPACE_RE.sub(" ", line)`. The flag says whether the character before is in a run.
unfoldable pub one_space : Bool → Text → Text
one_space inside [] = []
one_space inside (c ∷ s) =
    let run = one_space true s in
    let rest = one_space false s in
    if is_prose_space c then (if inside then run else 32 ∷ run) else c ∷ rest

-- The loop over the lines, with the lines of the paragraph that is open.
unfoldable pub paragraphs : List Text → List Text → List Text
paragraphs current [] = if is_empty current then [] else join (32 ∷ []) current ∷ []
paragraphs current (line ∷ lines) =
    let longer = paragraphs (current ++ line ∷ []) lines in
    let closed = paragraphs [] lines in
    if not (is_empty line)
    then longer
    else if is_empty current
    then closed
    else join (32 ∷ []) current ∷ closed

unfoldable pub normalize_text : (Text → Text) → Bool → Text → Text
normalize_text nfc preserve_layout source =
    let text = strip_control_characters (with_newlines false (nfc source)) in
    let kept = strip_newlines (join (10 ∷ []) (map rstrip (split_on 10 text))) in
    let lines =
      map (λ line. strip (one_space false line)) (split_on 10 (unwrap_hyphens 0 false text)) in
    let prose = strip (join (10 ∷ 10 ∷ []) (paragraphs [] lines)) in
    if preserve_layout then kept else prose
