-- ===== src/Retrieval/Models.antt =====
-- src/rag/retrieval/models.py. `F` is the type of floats and `J` that of metadata.
use project_rag.Prelude.{
  ℕ, Text, Option, List, map, is_empty, strip, Result, ok, raise_if, ◌>>◌, Bool, Eq, eq_by,
  first_eq, option_eq, list_eq, nat_eq, refl,
}

pub record RetrievalFilters : Type 0 where
  pub tenant_id : Text
  pub collection_id : Option Text
  pub document_ids : List Text
  pub tags : List Text
  pub created_after : Option Text
  pub created_before : Option Text

pub data ModelError : Type 0 where
  tenant_required chunk_id_required document_id_required version_id_required : ModelError
  empty_text : ModelError

-- `RetrievalFilters.__post_init__`
unfoldable pub check_filters : RetrievalFilters → Result ModelError RetrievalFilters
check_filters filters = do raise_if (is_empty (strip filters.tenant_id)) tenant_required; ok filters

pub record SearchCandidate (F J : Type 0) : Type 0 where
  pub chunk_id : Text
  pub document_id : Text
  pub version_id : Text
  pub filename : Text
  pub text : Text
  pub score : F
  pub page_start : Option ℕ
  pub page_end : Option ℕ
  pub section_path : List Text
  pub content_hash : Option Text
  pub embedding : Option (List F)
  pub metadata : J

-- `SearchCandidate.__post_init__`
unfoldable pub check_candidate :
    {F J : Type 0} → SearchCandidate F J → Result ModelError (SearchCandidate F J)
check_candidate c = do
  raise_if (is_empty c.chunk_id) chunk_id_required
  raise_if (is_empty c.document_id) document_id_required
  raise_if (is_empty c.version_id) version_id_required
  raise_if (is_empty (strip c.text)) empty_text
  ok c

pub record RankedCandidate (F J : Type 0) : Type 0 where
  pub candidate : SearchCandidate F J
  pub fusion_score : F
  pub final_score : F
  pub dense_rank : Option ℕ
  pub lexical_rank : Option ℕ
  pub dense_score : Option F
  pub lexical_score : Option F
  pub rerank_score : Option F

-- The equality that `@dataclass` generates, where that of floats and metadata is right.
module _ {F J : Type 0} ⦃e : Eq F⦄ ⦃k : Eq J⦄ where
  instance abbrev pub candidate_eq : Eq (SearchCandidate F J)
  candidate_eq =
      eq_by
        ⦃e = first_eq (
          first_eq (
            first_eq (
              first_eq
                (first_eq (first_eq (first_eq (first_eq (first_eq (first_eq (first_eq k))))))))))⦄
        (λ c. (
          c.chunk_id,
          (
            c.document_id,
            (
              c.version_id,
              (
                c.filename,
                (
                  c.text,
                  (
                    c.score,
                    (
                      c.page_start,
                      (c.page_end, (c.section_path, (c.content_hash, (c.embedding, c.metadata)))),
                    ),
                  ),
                ),
              ),
            ),
          ),
        ))
        (λ (
          id,
          (
            document,
            (version, (filename, (text, (score, (first, (last, (path, (hash, (vector, m))))))))),
          ),
        ).
          record {
            chunk_id = id;
            document_id = document;
            version_id = version;
            filename = filename;
            text = text;
            score = score;
            page_start = first;
            page_end = last;
            section_path = path;
            content_hash = hash;
            embedding = vector;
            metadata = m;
          })
        (λ c. refl)

  instance abbrev pub ranked_eq : Eq (RankedCandidate F J)
  ranked_eq =
      eq_by
        ⦃e = first_eq ⦃e = candidate_eq⦄
          (first_eq (first_eq (first_eq (first_eq (first_eq (first_eq option_eq))))))⦄
        (λ r. (
          r.candidate,
          (
            r.fusion_score,
            (
              r.final_score,
              (r.dense_rank, (r.lexical_rank, (r.dense_score, (r.lexical_score, r.rerank_score)))),
            ),
          ),
        ))
        (λ (c, (fusion, (final, (dense, (lexical, (dense_score, (lexical_score, rerank))))))).
          record {
            candidate = c;
            fusion_score = fusion;
            final_score = final;
            dense_rank = dense;
            lexical_rank = lexical;
            dense_score = dense_score;
            lexical_score = lexical_score;
            rerank_score = rerank;
          })
        (λ r. refl)

abbrev pub chunk_id_of : {F J : Type 0} → RankedCandidate F J → Text
chunk_id_of r = r.candidate.chunk_id

pub record SourceExcerpt (F J : Type 0) : Type 0 where
  pub source_id : Text
  pub chunk_id : Text
  pub document_id : Text
  pub version_id : Text
  pub filename : Text
  pub text : Text
  pub score : F
  pub page_start : Option ℕ
  pub page_end : Option ℕ
  pub section_path : List Text
  pub truncated : Bool
  pub metadata : J

pub record ChatMessage : Type 0 where
  pub from_user : Bool
  pub content : Text

pub record GenerationRequest (F J : Type 0) : Type 0 where
  pub question : Text
  pub context : Text
  pub sources : List (SourceExcerpt F J)
  pub conversation : List ChatMessage
  pub validation_feedback : Option Text

unfoldable pub allowed_source_ids : {F J : Type 0} → List (SourceExcerpt F J) → List Text
allowed_source_ids = map (λ s. s.source_id)

pub record GenerationResult (F J : Type 0) : Type 0 where
  pub answer : Text
  pub cited_source_ids : List Text
  pub confidence : Option F
  pub missing_information : List Text
  pub abstained : Bool
  pub provider_metadata : J

pub record RetrievalDiagnostics : Type 0 where
  pub normalized_query : Text
  pub embedding_provider : Text
  pub dense_candidates : ℕ
  pub lexical_candidates : ℕ
  pub fused_candidates : ℕ
  pub deduplicated_candidates : ℕ
  pub selected_candidates : ℕ
  pub context_estimated_tokens : ℕ
  pub context_truncated : Bool
  pub reranker_used : Bool
  pub diversity_used : Bool
  pub invalid_citations : List Text
  pub generation_attempts : ℕ
  pub warnings : List Text

pub record RetrievalResult (F J : Type 0) : Type 0 where
  pub question : Text
  pub candidates : List (RankedCandidate F J)
  pub diagnostics : RetrievalDiagnostics

pub record AnswerResult (F J : Type 0) : Type 0 where
  pub question : Text
  pub answer : Text
  pub sources : List (SourceExcerpt F J)
  pub cited_source_ids : List Text
  pub confidence : Option F
  pub missing_information : List Text
  pub abstained : Bool
  pub abstention_reason : Option Text
  pub diagnostics : RetrievalDiagnostics
