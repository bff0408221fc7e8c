-- ===== src/BulkImport/Types.antt =====
-- The data of backend/internal/bulkimport/model.go that the service looks at. A UUID is its text form.
use wealth_management.Prelude.{ℕ, Bool, Option, List}
use wealth_management.Prelude.Int.{ℤ}
use wealth_management.Prelude.Text.{Text}
use wealth_management.GoTime.{Time}

pub data Error : Type 0 where
  not_found conflict duplicate_file invalid version_conflict read_only_candidate : Error
  -- an error of the store or of the storage, with its text
  other : Text → Error
  -- `create signed upload: %w`
  create_signed_upload_error : Error → Error
  -- `inspect finalized upload: %w`
  inspect_upload_error : Error → Error

pub data Result (A : Type 0) : Type 0 where
  failure : Error → Result A
  success : A → Result A

pub data DocumentType : Type 0 where
  physical_receipt invoice e_wallet_history bank_statement credit_card_bill : DocumentType
  transaction_confirmation other_document : DocumentType
  unknown_document : Text → DocumentType

pub record TemplateInput : Type 0 where
  pub title : Text
  pub document_type : DocumentType
  pub parsing_prompt : Text
  pub account_ids : List Text
  pub expected_version : Option ℤ

pub data FileStatus : Type 0 where
  reserved uploaded verified failed cleanup_pending : FileStatus

pub record File : Type 0 where
  pub id : Text
  pub document_id : Text
  pub sort_order : ℤ
  pub display_filename : Text
  pub declared_mime : Text
  pub declared_bytes : ℤ
  pub declared_sha256 : Text
  pub status : FileStatus
  pub reservation_expires_at : Time
  pub finalized_at : Option Time

pub record ReservationInput : Type 0 where
  pub display_filename : Text
  pub mime_type : Text
  pub byte_size : ℤ
  pub sha256 : Text
  pub intentional_duplicate : Bool

pub record Reservation : Type 0 where
  pub file : File
  pub upload_url : Text
  pub method : Text
  pub headers : List (Text × Text)

pub record ReservedFile : Type 0 where
  pub file : File
  pub source_scope_id : Text
  pub object_path : Text

pub record DocumentLayout : Type 0 where
  pub document_id : Text
  pub label : Text
  pub file_ids : List Text

pub data CandidateAction : Type 0 where
  set_account attach create internal_transfer : CandidateAction
  other_action : Text → CandidateAction

pub record CandidateResolution : Type 0 where
  pub action : CandidateAction
  pub account_id : Option Text
  pub transaction_id : Option Text
  pub debit_account_id : Option Text
  pub credit_account_id : Option Text
  pub category_id : Option Text
  pub expected_generation : ℤ

-- The methods of the store and the storage that the modelled operations call, as actions on a state
-- `S`. What they answer is passed on unseen, so its type is a parameter: templates, batches and
-- candidates.
pub record Store (S T B C : Type 0) : Type 0 where
  pub create_template : Text → TemplateInput → S → S × Result T
  pub update_template : Text → Text → TemplateInput → S → S × Result T
  pub create_batch : Text → Text → List Text → S → S × Result B
  pub reserve_file : Text → Text → ReservationInput → Time → S → S × Result ReservedFile
  pub mark_reservation_failed : Text → Text → Text → S → S
  pub replace_document_layout : Text → Text → List DocumentLayout → S → S × Result B
  pub resolve_candidate : Text → Text → CandidateResolution → S → S × Result C
  pub create_signed_upload : Text → Text → Text → ℕ → S → S × Result Text

-- What is taken from `path/filepath`, `mime`, `regexp` and `unicode`: the last element of a path with
-- slashes, the media type of a header, if it can be parsed, whether a pattern matches, and the lower
-- case of a rune.
pub record Platform : Type 0 where
  pub base : Text → Text
  pub media_type : Text → Option Text
  pub matches : Text → Text → Bool
  pub lower_rune : ℕ → ℕ
