-- ===== src/BulkImport/Service.antt =====
-- The operations of `Service` that check or combine (backend/internal/bulkimport/service.go). The store
-- is there, and the storage where it is used; the methods that only pass a call on are left out.
use wealth_management.Prelude.{
  ℕ, true, false, not, ◌&&◌, ◌||◌, none, some, List, [], ◌∷◌, ◌++◌, ltb, leb, ◌*◌, if◌then◌else◌,
}
use wealth_management.Prelude.Int.{ℤ, pos, negsuc, ltb_ℤ}
use wealth_management.Prelude.Text.{Text, codes, text_eq}
use wealth_management.GoTime.{Time, second, add, utc}
use wealth_management.Reconciliation.Validation.{join}
use wealth_management.BulkImport.Types.{
  Error, conflict, invalid, create_signed_upload_error, TemplateInput, ReservationInput,
  Reservation, ReservedFile, DocumentLayout, CandidateResolution, Result, failure, success, Store,
  Platform,
}
use wealth_management.BulkImport.Requests.{
  is_nil, unique_uuids, validate_template_input, validate_reservation, validate_layout,
  valid_resolution,
}

-- A duration that is not set, not positive or above an hour is 15 minutes.
unfoldable pub reservation_lifetime : ℤ → ℕ
reservation_lifetime (negsuc _) = 900 * second
reservation_lifetime (pos d) = if ltb 0 d && leb d (3600 * second) then d else 900 * second

-- The path under which a reserved file is stored.
unfoldable pub expected_path : Text → ReservedFile → Text → Text
expected_path user_id r extension =
    join (codes "/") (user_id ∷ r.source_scope_id ∷ (r.file.id ++ codes "." ++ extension) ∷ [])

module _ {S T B C : Type 0} (store : Store S T B C) where
  unfoldable pub create_template : Text → TemplateInput → S → S × Result T
  create_template user_id input s =
      if is_nil user_id then (s, failure invalid) else elim (validate_template_input input false) [
        | none ↦ (s, failure invalid)
        | some clean ↦ store.create_template user_id clean s
      ]

  unfoldable pub update_template : Text → Text → TemplateInput → S → S × Result T
  update_template user_id template_id input s =
      if is_nil user_id || is_nil template_id
      then (s, failure invalid)
      else elim (validate_template_input input true) [
        | none ↦ (s, failure invalid)
        | some clean ↦ store.update_template user_id template_id clean s
      ]

  unfoldable pub create_batch : Text → Text → List Text → S → S × Result B
  create_batch user_id template_id account_override s =
      if is_nil user_id || is_nil template_id
      then (s, failure invalid)
      else store.create_batch user_id template_id (unique_uuids account_override) s

  unfoldable pub replace_document_layout : Text → Text → List DocumentLayout → S → S × Result B
  replace_document_layout user_id batch_id layout s =
      if is_nil user_id || is_nil batch_id
      then (s, failure invalid)
      else elim (validate_layout layout) [
        | none ↦ (s, failure invalid)
        | some clean ↦ store.replace_document_layout user_id batch_id clean s
      ]

  unfoldable pub resolve_candidate : Text → Text → CandidateResolution → S → S × Result C
  resolve_candidate user_id candidate_id r s =
      if is_nil user_id
        || is_nil candidate_id
        || ltb_ℤ r.expected_generation (pos 1)
        || not (valid_resolution r r.action)
      then (s, failure invalid)
      else store.resolve_candidate user_id candidate_id r s

  -- The reservation is marked as failed, and the error is returned.
  unfoldable pub give_up : Text → ReservedFile → Text → Error → S → S × Result Reservation
  give_up user_id r reason error s =
      (store.mark_reservation_failed user_id r.file.id reason s, failure error)

  unfoldable pub on_signed :
      Text → ReservationInput → ReservedFile → S × Result Text → S × Result Reservation
  on_signed user_id clean r (s, failure e) =
      give_up user_id r (codes "signed upload could not be created") (create_signed_upload_error e)
        s
  on_signed user_id clean r (s, success url) = (
    s,
    success (record {
      file = r.file;
      upload_url = url;
      method = codes "PUT";
      headers = (codes "Content-Type", clean.mime_type) ∷ (codes "x-upsert", codes "false") ∷ [];
    }),
  )

  -- What is done with the file that the store has reserved.
  unfoldable pub on_reserved :
      ℕ → Text → ReservationInput → Text → ReservedFile → S → S × Result Reservation
  on_reserved lifetime user_id clean extension r s =
      if is_nil r.file.document_id || is_nil r.file.id || is_nil r.source_scope_id
      then give_up user_id r (codes "reservation returned no document scope") conflict s
      else if not (text_eq r.object_path (expected_path user_id r extension))
      then give_up user_id r (codes "reservation path was invalid") conflict s
      else on_signed user_id clean r
          (store.create_signed_upload user_id r.source_scope_id r.object_path lifetime s)

  unfoldable pub reserve_file :
      Platform → Time → ℤ → Text → Text → ReservationInput → S → S × Result Reservation
  reserve_file p now configured user_id batch_id input s =
      if is_nil user_id || is_nil batch_id
      then (s, failure invalid)
      else elim (validate_reservation p input) [
        | none ↦ (s, failure invalid)
        | some (clean, extension) ↦
            let lifetime = reservation_lifetime configured in
            let (s', answer) =
              store.reserve_file user_id batch_id clean (add (utc now) lifetime) s in
            elim answer [
              | failure e ↦ (s', failure e)
              | success r ↦ on_reserved lifetime user_id clean extension r s'
            ]
      ]
