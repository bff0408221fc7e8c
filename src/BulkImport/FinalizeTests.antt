-- ===== src/BulkImport/FinalizeTests.antt =====
-- A file that is finalized.
use wealth_management.Prelude.{none, List, [], ◌∷◌, ◌≡◌, refl}
use wealth_management.Prelude.Int.{pos}
use wealth_management.Prelude.Text.{Text, codes, text_eq, trim_space, is_space}
use wealth_management.GoTime.{Time}
use wealth_management.Reconciliation.Validation.{join}
use wealth_management.BulkImport.Types.{invoice, File, uploaded, success}
use wealth_management.BulkImport.Requests.{bulk_extension}
use wealth_management.BulkImport.Batch.{
  draft, BatchCounters, document_draft, Document, Batch, Uploads,
}
use wealth_management.BulkImport.Finalize.{
  find_in_files, find_in_documents, object_path, before_semicolon, as_declared, on_metadata,
  on_found, on_batch, finalize_file,
}
use wealth_management.BulkImport.Finalized.{IsFinalized, finalize_file_sound}

abbrev midnight : Time
midnight = record { instant = 0; wall = 0 }

abbrev sample_file : File
sample_file = record {
  id = codes "f";
  document_id = codes "d";
  sort_order = pos 0;
  display_filename = codes "a.pdf";
  declared_mime = codes "application/pdf";
  declared_bytes = pos 9;
  declared_sha256 = [];
  status = uploaded;
  reservation_expires_at = midnight;
  finalized_at = none;
}

abbrev sample_document : Document
sample_document = record {
  id = codes "d";
  batch_id = codes "b";
  source_scope_id = codes "s";
  data_source_id = none;
  sort_order = pos 0;
  display_label = [];
  status = document_draft;
  attempt_generation = pos 0;
  page_count = pos 0;
  candidate_count = pos 0;
  created_count = pos 0;
  attached_count = pos 0;
  review_count = pos 0;
  failed_count = pos 0;
  duplicate_count = pos 0;
  files = sample_file ∷ [];
  document_summary = [];
  specialized_result = none;
}

abbrev no_counts : BatchCounters
no_counts = record {
  files = pos 1;
  documents = pos 1;
  pages = pos 0;
  parsed_candidates = pos 0;
  created = pos 0;
  attached = pos 0;
  review = pos 0;
  failures = pos 0;
  duplicates = pos 0;
}

abbrev sample_batch : Batch
sample_batch = record {
  id = codes "b";
  user_id = codes "u";
  template_id = none;
  template_version = pos 1;
  title_snapshot = codes "Receipts";
  document_type_snapshot = invoice;
  parsing_prompt_snapshot = [];
  status = draft;
  accounts = [];
  documents = sample_document ∷ [];
  counters = no_counts;
  cancel_requested_at = none;
  error_summary = none;
  started_at = none;
  completed_at = none;
  created_at = midnight;
  updated_at = midnight;
}

-- The state is the list of the paths that were inspected.
abbrev sample_uploads : Uploads (List Text)
sample_uploads = record {
  get_batch = λ user batch s. (s, success sample_batch);
  finalize_file = λ user file metadata s. (s, success sample_file);
  stat = λ user scope path s. (
    path ∷ s,
    success (record {
      byte_size = pos 9;
      content_type = codes "application/pdf; charset=binary";
      etag = [];
    }),
  );
}

run_finalize :
    finalize_file sample_uploads text_eq (codes "u") (codes "b") (codes "f") []
    ≡ (codes "u/s/f.pdf" ∷ [], success sample_file)
unfolding finalize_file on_batch on_found on_metadata as_declared before_semicolon find_in_documents
    find_in_files object_path join bulk_extension text_eq trim_space is_space
run_finalize = refl

finalize_file_sound_example :
    (batch : Batch) × (loaded : List Text) × (sample_uploads.get_batch (codes "u") (codes "b") []
      ≡ (loaded, success batch))
    × IsFinalized sample_uploads text_eq
        (codes "u")
        (codes "f")
        loaded
        batch.documents
        (codes "u/s/f.pdf" ∷ [], success sample_file)
finalize_file_sound_example =
    finalize_file_sound sample_uploads text_eq (codes "u") (codes "b") (codes "f") []
      (codes "u/s/f.pdf" ∷ []) sample_file run_finalize
