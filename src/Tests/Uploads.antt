-- ===== src/Tests/Uploads.antt =====
-- Uploads of the same bytes, and the indexing of what they register.
use project_rag.Prelude.{
  ℕ, ◌≡◌, true, false, refl, codes, none, some, Text, [], All, IsIn, list_eq, nat_eq, ok, list_beq,
  sort_by,
}
use project_rag.Store.Rows.{DocumentVersion, Store}
use project_rag.Store.Changes.{get_document}
use project_rag.Store.Uploads.{
  Upload, DrawnIds, UploadRegistration, has_content, find_by_content_hash, the_document,
  create_document, create_version, create_job, register_upload,
}
use project_rag.Store.Registration.{register_upload-again}
use project_rag.Store.Numbering.{is_numbered_below, create_version-number}
use project_rag.Tests.Deletion.{lower}

abbrev digest : Text
digest = codes "0123456789abcdef0123456789abcdef0123456789abcdef0123456789abcdef"

abbrev upload : Text → Upload
upload hash = record {
  tenant_id = codes "t";
  collection_id = codes "c";
  filename = codes "f.txt";
  title = none;
  tags = [];
  content_hash = hash;
  blob_uri = codes "local://f.txt";
  mime_type = codes "text/plain";
  byte_size = 4;
}

abbrev spelled : Text
spelled = codes "0123456789ABCDEF0123456789abcdef0123456789abcdef0123456789abcdef"

abbrev ids : Text → DrawnIds
ids name = record { document_id = name; version_id = name; job_id = name }

abbrev empty : Store ℕ
empty = record { documents = []; versions = []; chunks = []; jobs = [] }

registers :
    (r : UploadRegistration × Store ℕ) × (register_upload lower
        (upload digest)
        (ids (codes "v"))
        3
        empty
      ≡ ok r)
unfolding register_upload find_by_content_hash create_document create_version the_document
    create_job list_beq sort_by
registers = (_, refl)

register_upload-again_example :
    (r : UploadRegistration) × (register_upload lower
        (upload spelled)
        (ids (codes "w"))
        8
        registers.0.1
      ≡ ok (r, registers.0.1))
    × (r.created ≡ false)
    × IsIn r.document registers.0.1.documents
    × IsIn r.version registers.0.1.versions
    × (has_content (codes "t") (codes "c") (lower digest) (r.document, r.version) ≡ true)
register_upload-again_example =
    register_upload-again lower (upload digest) (upload spelled) (ids (codes "v")) (ids (codes "w"))
      3 8 empty registers.1 refl refl refl

second :
    (r : DocumentVersion × Store ℕ) × (create_version lower none
        (some (codes "v"))
        (upload digest)
        2
        (codes "w")
        9
        registers.0.1
      ≡ ok r)
unfolding get_document create_version the_document register_upload find_by_content_hash
    create_document create_job list_beq sort_by registers
second = (_, refl)

create_version-number_example :
    All (λ w. is_numbered_below second.0.0 w ≡ true) registers.0.1.versions
create_version-number_example =
    create_version-number lower none (some (codes "v")) (upload digest) 2 (codes "w") 9
      registers.0.1 second.1
