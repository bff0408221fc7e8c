-- ===== src/BulkImport/Finalize.antt =====
-- `FinalizeFile` (backend/internal/bulkimport/service.go).
use wealth_management.Prelude.{
  Bool, true, false, ◌&&◌, ◌||◌, Option, none, some, List, [], ◌∷◌, ◌++◌, ◌==◌, if◌then◌else◌,
}
use wealth_management.Prelude.Int.{eqb_ℤ}
use wealth_management.Prelude.Text.{Text, codes, text_eq, trim_space}
use wealth_management.Reconciliation.Validation.{join}
use wealth_management.BulkImport.Types.{
  invalid, not_found, conflict, inspect_upload_error, File, Result, failure, success,
}
use wealth_management.BulkImport.Requests.{is_nil, bulk_extension}
use wealth_management.BulkImport.Batch.{Document, Batch, ObjectMetadata, Uploads}

-- The loops over the files of the documents: the last file with the identifier, and its scope.
unfoldable pub find_in_files : Text → Text → Option (File × Text) → List File → Option (File × Text)
find_in_files file_id scope found [] = found
find_in_files file_id scope found (f ∷ fs) = elim (text_eq f.id file_id) [
  | true ↦ find_in_files file_id scope (some (f, scope)) fs
  | false ↦ find_in_files file_id scope found fs
]

unfoldable pub find_in_documents :
    Text → Option (File × Text) → List Document → Option (File × Text)
find_in_documents file_id found [] = found
find_in_documents file_id found (d ∷ ds) =
    find_in_documents file_id (find_in_files file_id d.source_scope_id found d.files) ds

-- `strings.Split(s, ";")[0]`.
unfoldable pub before_semicolon : Text → Text
before_semicolon [] = []
before_semicolon (c ∷ s) = if c == b';' then [] else c ∷ before_semicolon s

unfoldable pub object_path : Text → Text → File → Text → Text
object_path user_id scope file extension =
    join (codes "/") (user_id ∷ scope ∷ (file.id ++ codes "." ++ extension) ∷ [])

-- What is stored is what was declared.
unfoldable pub as_declared : (Text → Text → Bool) → File → ObjectMetadata → Bool
as_declared equal_fold file metadata =
    eqb_ℤ metadata.byte_size file.declared_bytes
    && equal_fold (trim_space (before_semicolon metadata.content_type)) file.declared_mime

module _ {S : Type 0} (uploads : Uploads S) (equal_fold : Text → Text → Bool) where
  unfoldable pub on_metadata : Text → Text → File → S × Result ObjectMetadata → S × Result File
  on_metadata user_id file_id file (s, failure e) = (s, failure (inspect_upload_error e))
  on_metadata user_id file_id file (s, success metadata) =
      if as_declared equal_fold file metadata
      then uploads.finalize_file user_id file_id metadata s
      else (s, failure conflict)

  unfoldable pub on_found : Text → Text → Option (File × Text) → S → S × Result File
  on_found user_id file_id none s = (s, failure not_found)
  on_found user_id file_id (some (file, scope)) s =
      if is_nil scope then (s, failure not_found) else elim (bulk_extension file.declared_mime) [
        | none ↦ (s, failure invalid)
        | some extension ↦
            on_metadata user_id file_id file
              (uploads.stat user_id scope (object_path user_id scope file extension) s)
      ]

  unfoldable pub on_batch : Text → Text → S × Result Batch → S × Result File
  on_batch user_id file_id (s, failure e) = (s, failure e)
  on_batch user_id file_id (s, success batch) =
      on_found user_id file_id (find_in_documents file_id none batch.documents) s

  unfoldable pub finalize_file : Text → Text → Text → S → S × Result File
  finalize_file user_id batch_id file_id s =
      if is_nil user_id || is_nil batch_id || is_nil file_id
      then (s, failure invalid)
      else on_batch user_id file_id (uploads.get_batch user_id batch_id s)
