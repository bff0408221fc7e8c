-- ===== src/CreditCard/Service/Import.antt =====
-- `ProjectBulkBill` (backend/internal/creditcard/service.go).
use wealth_management.Prelude.{ℕ, Bool, not, ◌||◌, none, [], ◌∷◌, ltb, ◌==◌, if◌then◌else◌}
use wealth_management.Prelude.Decimal.{decimal}
use wealth_management.CreditCard.Types.{Uuid, nil_uuid, validation, review, Bill, is_review}
use wealth_management.CreditCard.Action.{
  Action, pure, lift, ◌>>=◌, ◌>>◌, fail_if, Service, transact,
}
use wealth_management.CreditCard.Matching.{validate_projected_lines}
use wealth_management.CreditCard.Payment.{PaymentResolution, no_search, resolve_payment}
use wealth_management.CreditCard.Requests.{save_resolved}

abbrev pub has_wrong_identity : Bill → Uuid → ℕ → Bool
has_wrong_identity bill document_id generation =
    bill.id == nil_uuid
    || bill.account_id == nil_uuid
    || not (bill.bulk_document_id == document_id)
    || not (bill.bulk_attempt_generation == generation)
    || ltb bill.version 1

module _ {S : Type 0} (s : Service S) (user : Uuid) where
  -- Unresolved candidates or failures keep the new bill in Review without a search.
  unfoldable pub resolve_projection : Bill → Action S (Bill × PaymentResolution)
  resolve_projection bill =
      if ltb 0 bill.unresolved_candidate_count || bill.projection_has_failures
      then pure
          (record bill { status = review; payoff_transfer_id = none; paid_at = none }, no_search)
      else resolve_payment s user bill

  -- What follows a projection that made a new bill.
  unfoldable pub finish_projection : Uuid → ℕ → Bill → Action S Bill
  finish_projection document_id generation bill = do
    fail_if (not (is_review bill.status)) (validation "a new Bulk projection must begin in Review")
    lift (validate_projected_lines bill)
    (resolved, resolution) ← resolve_projection bill
    save_resolved s user resolved.version "imported" []
        (("bulk_document_id", s.uuid_text document_id)
          ∷ ("attempt_generation", decimal generation)
          ∷ [])
        bill.status resolved resolution

  unfoldable pub project_bulk_bill : Uuid → ℕ → Action S Bill
  project_bulk_bill document_id generation = do
    fail_if (user == nil_uuid || document_id == nil_uuid || ltb generation 1)
        (validation "invalid Bulk bill identity")
    transact s do
      projection ← s.tx.project_bill_from_bulk user document_id generation
      fail_if (has_wrong_identity projection.bill document_id generation)
          (validation "Bulk projection returned inconsistent identity")
      if not projection.created
          then pure projection.bill
          else finish_projection document_id generation projection.bill
