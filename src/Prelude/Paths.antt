-- ===== src/Prelude/Paths.antt =====
-- The parts of a POSIX path, as Python's `PurePosixPath` reads them.
use mathlib.Core.Bool.{Bool, not, ◌&&◌}
use mathlib.Core.List.{List, [], ◌∷◌}
use project_rag.Prelude.Tests.{if◌then◌else◌, nat_beq, ◌==◌, list_eq, nat_eq}
use project_rag.Prelude.Lists.{keep, is_empty}
use project_rag.Prelude.Texts.{Text, split_on}

-- `.parts` without the root: empty parts and `.` are dropped.
unfoldable pub path_parts : Text → List Text
path_parts path = keep (λ part. not (is_empty part) && not (part == (46 ∷ []))) (split_on 47 path)

-- The last part, or the empty text.
unfoldable pub last_text : List Text → Text
last_text [] = []
last_text (t ∷ []) = t
last_text (t ∷ u ∷ rest) = last_text (u ∷ rest)

-- `.name`
unfoldable pub path_name : Text → Text
path_name path = last_text (path_parts path)

-- A name cut at its last dot: before it, and from it on, which is empty if there is none.
unfoldable pub cut_dot : Text → Text × Text
cut_dot [] = ([], [])
cut_dot (c ∷ t) =
    let rest = cut_dot t in
    if is_empty rest.1 && nat_beq c 46
    then ([], c ∷ t)
    else if is_empty rest.1
    then (c ∷ t, [])
    else (c ∷ rest.0, rest.1)

-- `.stem` and `.suffix`: a dot at the start or at the end of the name cuts nothing.
abbrev pub cuts : Text × Text → Bool
cuts cut = not (is_empty cut.0) && not (is_empty cut.1) && not (cut.1 == (46 ∷ []))

unfoldable pub path_stem : Text → Text
path_stem path = let cut = cut_dot (path_name path) in if cuts cut then cut.0 else path_name path

unfoldable pub path_suffix : Text → Text
path_suffix path = let cut = cut_dot (path_name path) in if cuts cut then cut.1 else []
