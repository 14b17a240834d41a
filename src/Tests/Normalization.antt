-- ===== src/Tests/Normalization.antt =====
-- Blocks on one page, cleaned.
use project_rag.Prelude.{
  ◌≡◌, refl, ◌∷◌, ◌++◌, codes, true, false, is_empty, keep, All, sort_by, strip_newlines, strip_of,
  lstrip_of, rstrip_of, rstrip, strip, join, split_on, is_space,
}
use project_rag.Ingestion.Normalization.Clean.{
  normalize_text, with_newlines, strip_control_characters, wrap_length, unwrap_hyphens, one_space,
  paragraphs,
}
use project_rag.Ingestion.Normalization.Margins.{by_order, cleaned, normalize}
use project_rag.Ingestion.Normalization.Kept.{is_content, normalize-keeps}
use project_rag.Tests.Chunking.{two_blocks}

normalize-keeps_example :
    (keep is_content (normalize (λ t. t) true two_blocks)
      ≡ keep is_content (cleaned (λ t. t) (sort_by by_order two_blocks)))
    × All (λ b. is_empty b.text ≡ false) (normalize (λ t. t) true two_blocks)
normalize-keeps_example = normalize-keeps (λ t. t) true two_blocks

-- A hyphen at a line break joins a word, and a blank line parts paragraphs.
unwraps :
    normalize_text (λ t. t) false (codes "infor-" ++ 10 ∷ codes " mation  x" ++ 10 ∷ 13 ∷ codes "b")
    ≡ codes "information x" ++ 10 ∷ 10 ∷ codes "b"
unfolding normalize_text with_newlines strip_control_characters wrap_length unwrap_hyphens one_space
    paragraphs strip_newlines strip_of lstrip_of rstrip_of rstrip strip join split_on is_space
unwraps = refl
