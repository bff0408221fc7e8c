-- ===== src/CreditCard/Requests.antt =====
-- The request records of backend/internal/creditcard/service.go, and what the methods share: the
-- claim of an idempotency key, the loading of a line and the end of a mutation.
use wealth_management.Prelude.{
  ℕ, ◌*◌, String, not, ◌||◌, Option, none, some, List, ◌==◌, if◌then◌else◌, is_some,
}
use wealth_management.Prelude.Text.{Text}
use wealth_management.GoTime.{add, utc, second}
use wealth_management.CreditCard.Types.{
  Uuid, idempotency_in_flight, validation, plain, BillStatus, acquired, replay, busy,
  IdempotencyClaim, Bill, BillLine, CorrectHeaderInput, is_review, is_pending, is_summary,
}
use wealth_management.CreditCard.Action.{
  Result, ok, err, Action, pure, lift, ◌>>=◌, ◌>>◌, fail_if, Service, now,
}
use wealth_management.CreditCard.Rules.{require_version}
use wealth_management.CreditCard.Payment.{
  PaymentResolution, append_event, append_payment_resolution_events, save_mutated_bill,
}

pub record AttachLineRequest : Type 0 where
  pub expected_version : ℕ
  pub transaction_id : Uuid
  pub link_exception_reason : Option Text

pub record CreateLineRequest : Type 0 where
  pub expected_version : ℕ
  pub category_id : Uuid

pub record ReasonedMutationRequest : Type 0 where
  pub expected_version : ℕ
  pub reason : Text

pub record HeaderCorrectionRequest : Type 0 where
  pub expected_version : ℕ
  pub header : CorrectHeaderInput

pub record PaymentCandidateRequest : Type 0 where
  pub expected_version : ℕ
  pub bank_transaction_id : Uuid

pub record PayoffRequest : Type 0 where
  pub expected_version : ℕ
  pub bank_account_id : Uuid

-- `idempotencyLifetime`, 24 hours.
abbrev pub idempotency_lifetime : ℕ
idempotency_lifetime = 86400 * second

-- The claim's outcome for a request that answers with a bill: the stored bill of a replay, or
-- nothing if the key was acquired.
unfoldable pub replayed_bill : IdempotencyClaim → Result (Option Bill)
replayed_bill claim = elim claim.state [
  | replay ↦
      if not (is_some claim.bill) || not (claim.response_status == 200)
      then err (plain "invalid idempotency replay")
      else ok claim.bill
  | acquired ↦ ok none
  | busy ↦ err idempotency_in_flight
]

-- A replay answers with the stored bill, and the request is not carried out again.
unfoldable pub or_replay : {S : Type 0} → Option Bill → Action S Bill → Action S Bill
or_replay none m = m
or_replay (some bill) m = pure bill

module _ {S : Type 0} (s : Service S) (user : Uuid) where
  unfoldable pub claim_bill_mutation : Text → String → Uuid → Text → Action S (Option Bill)
  claim_bill_mutation key operation bill_id hash = do
    time ← now s
    claim ←
        s.tx.claim_idempotency user key operation bill_id hash (add (utc time) idempotency_lifetime)
    lift (replayed_bill claim)

  unfoldable pub load_bill : Uuid → ℕ → Action S Bill
  load_bill bill_id expected = do
    bill ← s.tx.get_bill_for_update user bill_id
    lift (require_version bill expected)
    pure bill

  unfoldable pub load_mutable_line : Uuid → Uuid → ℕ → Action S (Bill × BillLine)
  load_mutable_line bill_id line_id expected = do
    bill ← load_bill bill_id expected
    fail_if (not (is_review bill.status))
        (validation "lines can be resolved only while the bill is in Review")
    line ← s.tx.get_line_for_update user bill_id line_id
    fail_if (not (is_pending line.status) || is_summary line.kind)
        (validation "line is not pending")
    pure (bill, line)

  -- The end of the methods that look for the payment again: save, and record what happened.
  unfoldable pub save_resolved :
      ℕ
      → String
      → Text
      → List (String × Text)
      → BillStatus
      → Bill
      → PaymentResolution
      → Action S Bill
  save_resolved expected kind reason details from bill resolution = do
    result ← save_mutated_bill s user bill expected
    append_event s user bill.id kind reason details none none
    append_payment_resolution_events s user bill.id from result.status resolution
    pure result
