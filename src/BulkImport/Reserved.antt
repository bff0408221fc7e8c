-- ===== src/BulkImport/Reserved.antt =====
-- What becomes of a file that the store has reserved (backend/internal/bulkimport/service.go).
use wealth_management.Prelude.{ℕ, ◌≡◌, ◌⊎◌}
use wealth_management.Prelude.Text.{Text}
use wealth_management.BulkImport.Types.{
  Error, ReservationInput, Reservation, ReservedFile, Result, failure, success, Store,
}
use wealth_management.BulkImport.Service.{expected_path}

module _ {S T B C : Type 0} (store : Store S T B C) (lifetime : ℕ) (user_id extension : Text)
    (clean : ReservationInput) (r : ReservedFile) (s : S) where
  -- The upload is signed for the path of the file in the user's own folder, in the scope that the store
  -- gave it, and nothing else is done.
  abbrev pub IsSigned : S × Result Reservation → Type 0
  IsSigned out =
      (reservation : Reservation) × (out.1 ≡ success reservation)
      × (reservation.file ≡ r.file)
      × (r.object_path ≡ expected_path user_id r extension)
      × (store.create_signed_upload user_id r.source_scope_id (expected_path user_id r extension)
            lifetime s
          ≡ (out.0, success reservation.upload_url))

  -- The last thing that is done is to mark the reservation as failed; the error is returned.
  abbrev pub IsGivenUp : S × Result Reservation → Type 0
  IsGivenUp out =
      (reason : Text) × (before : S) × (e : Error) × (out
        ≡ (store.mark_reservation_failed user_id r.file.id reason before, failure e))

  abbrev pub IsOutcome : S × Result Reservation → Type 0
  IsOutcome out = IsSigned out ⊎ IsGivenUp out
