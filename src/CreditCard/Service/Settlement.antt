-- ===== src/CreditCard/Service/Settlement.antt =====
-- `SelectPaymentCandidate`, `ConfirmPaymentCandidate`, `PayInFull`, `VoidBill` and
-- `DiscardReviewBill` (backend/internal/creditcard/service.go).
use wealth_management.Prelude.{
  ℕ, String, Bool, true, false, not, ◌||◌, none, some, List, [], ◌∷◌, ◌++◌, ◌==◌, if◌then◌else◌,
  is_some,
}
use wealth_management.Prelude.Text.{Text, codes}
use wealth_management.Prelude.Decimal.{decimal}
use wealth_management.GoTime.{utc, add}
use wealth_management.CreditCard.Types.{
  Uuid, nil_uuid, validation, plain, idempotency_in_flight, BillStatus, unpaid, void, Bill,
  acquired, replay, busy, IdempotencyClaim, is_review, is_unpaid,
}
use wealth_management.CreditCard.Action.{
  Result, ok, err, Action, pure, lift, ◌>>=◌, ◌>>◌, fail_if, Service, now, transact,
}
use wealth_management.CreditCard.Rules.{
  holds, header_complete, contains_uuid, bounded_reason, mark_paid, validate_idempotency_key,
  request_hash,
}
use wealth_management.CreditCard.Matching.{validate_bank_debit_candidate}
use wealth_management.CreditCard.Payment.{
  deref, lock_payoff_treatments, append_event, append_status_change_event, save_mutated_bill,
}
use wealth_management.CreditCard.Requests.{
  PaymentCandidateRequest, PayoffRequest, ReasonedMutationRequest, idempotency_lifetime,
  claim_bill_mutation, or_replay, load_bill,
}

abbrev pub select_candidate : Bill → Uuid → Bill
select_candidate bill candidate = record bill {
  payment_candidate_transaction_id = some candidate;
  payment_candidate_selected = true;
  ambiguous_payment_candidates = [];
  status = unpaid;
}

abbrev pub voided : Bill → Text → Bill
voided bill reason = record bill {
  status = void;
  payment_candidate_transaction_id = none;
  ambiguous_payment_candidates = [];
  payment_candidate_selected = false;
  void_reason = some reason;
}

-- The claim's outcome for `DiscardReviewBill`, which answers with no bill: whether it is a replay.
unfoldable pub replayed_discard : IdempotencyClaim → Result Bool
replayed_discard claim = elim claim.state [
  | replay ↦
      if not (claim.response_status == 204) || is_some claim.bill
      then err (plain "invalid idempotency replay")
      else ok true
  | acquired ↦ ok false
  | busy ↦ err idempotency_in_flight
]

-- The hash of a request that names a version and one more value.
unfoldable pub versioned_hash : {S : Type 0} → Service S → String → Uuid → ℕ → Text → Text
versioned_hash s action bill_id expected value =
    request_hash s (codes action) bill_id (decimal expected ++ (0 ∷ []) ++ value)

module _ {S : Type 0} (s : Service S) (user : Uuid) where
  -- The end of the methods that settle a bill: save, record what happened, complete the claim.
  unfoldable pub save_settled :
      Bill
      → BillStatus
      → ℕ
      → String
      → Text
      → List (String × Text)
      → Text
      → String
      → Uuid
      → Text
      → Action S Bill
  save_settled bill from expected kind reason details key operation bill_id hash = do
    result ← save_mutated_bill s user bill expected
    append_event s user bill.id kind reason details none none
    append_status_change_event s user bill.id from result.status
    s.tx.complete_idempotency user key operation bill_id hash (some result) 200
    pure result

  unfoldable pub select_payment_candidate : Uuid → PaymentCandidateRequest → Text → Action S Bill
  select_payment_candidate bill_id request key = do
    lift (validate_idempotency_key key)
    let hash =
        versioned_hash s "select-payment-candidate" bill_id request.expected_version
          (s.uuid_text request.bank_transaction_id)
    transact s do
      stored ← claim_bill_mutation s user key "select_payment_candidate" bill_id hash
      or_replay stored do
        bill ← load_bill s user bill_id request.expected_version
        fail_if
            (not (is_review bill.status)
              || not (contains_uuid bill.ambiguous_payment_candidates request.bank_transaction_id))
            (validation "payment candidate is not selectable")
        candidate ← s.tx.get_transaction_for_update user request.bank_transaction_id
        lift (validate_bank_debit_candidate bill candidate)
        save_settled (select_candidate bill candidate.id) bill.status request.expected_version
            "payment_selected" [] (("transaction_id", s.uuid_text candidate.id) ∷ []) key
            "select_payment_candidate" bill_id hash

  unfoldable pub confirm_payment_candidate : Uuid → PaymentCandidateRequest → Text → Action S Bill
  confirm_payment_candidate bill_id request key = do
    lift (validate_idempotency_key key)
    let hash =
        versioned_hash s "confirm-payment-candidate" bill_id request.expected_version
          (s.uuid_text request.bank_transaction_id)
    transact s do
      stored ← claim_bill_mutation s user key "confirm_payment_candidate" bill_id hash
      or_replay stored do
        bill ← load_bill s user bill_id request.expected_version
        fail_if
            (not (is_unpaid bill.status)
              || not (
                  holds (λ id. id == request.bank_transaction_id)
                    bill.payment_candidate_transaction_id))
            (validation "payment suggestion changed")
        candidate ← s.tx.get_transaction_for_update user request.bank_transaction_id
        lift (validate_bank_debit_candidate bill candidate)
        currency ← deref bill.settlement_currency
        amount ← deref bill.amount_due_minor
        payoff ←
            s.tx.create_missing_card_leg_and_transfer user bill.id candidate.id bill.account_id
              currency amount
        lock_payoff_treatments s user payoff
        time ← now s
        save_settled (mark_paid bill payoff.transfer.id time) bill.status request.expected_version
            "payment_confirmed" [] (("transfer_id", s.uuid_text payoff.transfer.id) ∷ []) key
            "confirm_payment_candidate" bill_id hash

  unfoldable pub pay_in_full : Uuid → PayoffRequest → Text → Action S Bill
  pay_in_full bill_id request key = do
    fail_if (request.bank_account_id == nil_uuid) (validation "bank_account_id is required")
    lift (validate_idempotency_key key)
    let hash =
        versioned_hash s "payoff" bill_id request.expected_version
          (s.uuid_text request.bank_account_id)
    transact s do
      stored ← claim_bill_mutation s user key "payoff" bill_id hash
      or_replay stored do
        bill ← load_bill s user bill_id request.expected_version
        fail_if (not (is_unpaid bill.status) || not (header_complete bill))
            (validation "only a complete Unpaid bill can be paid")
        currency ← deref bill.settlement_currency
        amount ← deref bill.amount_due_minor
        occurred_at ← now s
        payoff ←
            s.tx.create_full_payoff_transfer user request.bank_account_id bill.account_id currency
              amount (utc occurred_at)
        lock_payoff_treatments s user payoff
        time ← now s
        save_settled (mark_paid bill payoff.transfer.id time) bill.status request.expected_version
            "payoff_created" [] (("transfer_id", s.uuid_text payoff.transfer.id) ∷ []) key "payoff"
            bill_id hash

  unfoldable pub void_bill : Uuid → ReasonedMutationRequest → Text → Action S Bill
  void_bill bill_id request key = do
    lift (validate_idempotency_key key)
    reason ← lift (bounded_reason request.reason)
    let hash = versioned_hash s "void" bill_id request.expected_version reason
    transact s do
      stored ← claim_bill_mutation s user key "void" bill_id hash
      or_replay stored do
        bill ← load_bill s user bill_id request.expected_version
        fail_if (not (is_unpaid bill.status)) (validation "only Unpaid bills can be voided")
        save_settled (voided bill reason) bill.status request.expected_version "voided" reason []
            key "void" bill_id hash

  unfoldable pub claim_discard : Text → Uuid → Text → Action S Bool
  claim_discard key bill_id hash = do
    time ← now s
    claim ←
        s.tx.claim_idempotency user key "discard" bill_id hash (add (utc time) idempotency_lifetime)
    lift (replayed_discard claim)

  unfoldable pub discard_review_bill : Uuid → ℕ → Text → Action S (Unit {0})
  discard_review_bill bill_id expected key = do
    lift (validate_idempotency_key key)
    let hash = request_hash s (codes "discard") bill_id (decimal expected)
    transact s do
      done ← claim_discard key bill_id hash
      if done then pure tt else do
        bill ← load_bill s user bill_id expected
        fail_if (not (is_review bill.status)) (validation "only Review bills can be discarded")
        s.tx.delete_review_bill user bill_id expected
        s.tx.complete_idempotency user key "discard" bill_id hash none 204
