-- ===== src/Ingestion/Errors.antt =====
-- src/rag/ingestion/errors.py: the lifecycle states and the errors of the pipeline, with the
-- status and the machine-readable code that each class carries.
use project_rag.Prelude.{Text, codes}

pub data IngestionStatus : Type 0 where
  uploaded queued parsing chunking embedding indexing ready rejected needs_ocr : IngestionStatus
  failed_parse failed_embed failed_index cancelled : IngestionStatus

-- `IngestionError` and its subclasses; a message or a filename is not kept.
pub data IngestionError : Type 0 where
  ingestion_error unsupported_file_type parser_dependency document_parse : IngestionError
  empty_document needs_ocr_error chunking_error embedding_error : IngestionError
  embedding_validation indexing_error : IngestionError

unfoldable pub code_of : IngestionError → Text
code_of ingestion_error = codes "ingestion_error"
code_of unsupported_file_type = codes "unsupported_file_type"
code_of parser_dependency = codes "parser_dependency_missing"
code_of document_parse = codes "document_parse_failed"
code_of empty_document = codes "empty_document"
code_of needs_ocr_error = codes "needs_ocr"
code_of chunking_error = codes "chunking_failed"
code_of embedding_error = codes "embedding_failed"
code_of embedding_validation = codes "invalid_embedding_response"
code_of indexing_error = codes "indexing_failed"

unfoldable pub status_of : IngestionError → IngestionStatus
status_of ingestion_error = failed_parse
status_of unsupported_file_type = rejected
status_of parser_dependency = failed_parse
status_of document_parse = failed_parse
status_of empty_document = failed_parse
status_of needs_ocr_error = needs_ocr
status_of chunking_error = failed_parse
status_of embedding_error = failed_embed
status_of embedding_validation = failed_embed
status_of indexing_error = failed_index
