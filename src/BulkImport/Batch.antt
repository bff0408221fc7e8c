-- ===== src/BulkImport/Batch.antt =====
-- Batches and their documents (backend/internal/bulkimport/model.go), and what finalizing a file asks
-- of the store and the storage.
use wealth_management.Prelude.{Option, List}
use wealth_management.Prelude.Int.{ℤ}
use wealth_management.Prelude.Text.{Text}
use wealth_management.GoTime.{Time}
use wealth_management.BulkImport.Types.{Result, DocumentType, File}

pub record AccountSelection : Type 0 where
  pub account_id : Text
  pub account_ref : Text
  pub name : Text
  pub institution_name : Text
  pub account_type : Text
  pub sort_order : ℤ

pub data BatchStatus : Type 0 where
  draft queued running cancelling completed completed_with_errors failed cancelled : BatchStatus

pub record BatchCounters : Type 0 where
  pub files : ℤ
  pub documents : ℤ
  pub pages : ℤ
  pub parsed_candidates : ℤ
  pub created : ℤ
  pub attached : ℤ
  pub review : ℤ
  pub failures : ℤ
  pub duplicates : ℤ

pub data DocumentStatus : Type 0 where
  document_draft document_queued preparing parsing aggregating reconciling : DocumentStatus
  document_completed document_completed_with_errors document_failed : DocumentStatus
  document_cancelled : DocumentStatus

pub record SpecializedResult : Type 0 where
  pub kind : Text
  pub resource_id : Text
  pub path : Text

pub record Document : Type 0 where
  pub id : Text
  pub batch_id : Text
  pub source_scope_id : Text
  pub data_source_id : Option Text
  pub sort_order : ℤ
  pub display_label : Text
  pub status : DocumentStatus
  pub attempt_generation : ℤ
  pub page_count : ℤ
  pub candidate_count : ℤ
  pub created_count : ℤ
  pub attached_count : ℤ
  pub review_count : ℤ
  pub failed_count : ℤ
  pub duplicate_count : ℤ
  pub files : List File
  pub document_summary : Text
  pub specialized_result : Option SpecializedResult

pub record Batch : Type 0 where
  pub id : Text
  pub user_id : Text
  pub template_id : Option Text
  pub template_version : ℤ
  pub title_snapshot : Text
  pub document_type_snapshot : DocumentType
  pub parsing_prompt_snapshot : Text
  pub status : BatchStatus
  pub accounts : List AccountSelection
  pub documents : List Document
  pub counters : BatchCounters
  pub cancel_requested_at : Option Time
  pub error_summary : Option Text
  pub started_at : Option Time
  pub completed_at : Option Time
  pub created_at : Time
  pub updated_at : Time

pub record ObjectMetadata : Type 0 where
  pub byte_size : ℤ
  pub content_type : Text
  pub etag : Text

-- `GetBatch` and `FinalizeFile` of the store, and `Stat` of the storage, as actions on a state.
pub record Uploads (S : Type 0) : Type 0 where
  pub get_batch : Text → Text → S → S × Result Batch
  pub finalize_file : Text → Text → ObjectMetadata → S → S × Result File
  pub stat : Text → Text → Text → S → S × Result ObjectMetadata
