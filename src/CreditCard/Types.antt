-- ===== src/CreditCard/Types.antt =====
-- The data of backend/internal/creditcard/store.go. A UUID is its 128-bit value, so `uuid.Nil` is 0;
-- an `int` that the code only tests against 0 or 1 from below is a natural number, since a
-- negative value goes the way of 0. A string that the code only compares with literals is a
-- `String`, other strings are `Text`. A pointer is an `Option`.
use wealth_management.Prelude.{ℕ, String, Bool, true, false, Option, List}
use wealth_management.Prelude.Int.{ℤ}
use wealth_management.Prelude.Text.{Text}
use wealth_management.GoTime.{Time}

abbrev pub Uuid : Type 0
Uuid = ℕ

-- `uuid.Nil`.
abbrev pub nil_uuid : Uuid
nil_uuid = 0

-- The sentinel errors, wrapped with a message by `fmt.Errorf` where there is one, and errors of
-- the layers below.
pub data Error : Type 0 where
  not_found version_conflict idempotency_conflict idempotency_in_flight : Error
  duplicate_transaction : Error
  validation : String → Error
  plain : String → Error
  wrapped : String → Error → Error

pub data BillStatus : Type 0 where
  review unpaid paid void : BillStatus

-- `other` is any further string: `validateProjectedLines` tests for it.
pub data LineKind : Type 0 where
  activity refund fee interest payment summary : LineKind
  other : String → LineKind

pub data LineStatus : Type 0 where
  pending linked ignored : LineStatus
  other : String → LineStatus

pub data TransactionDirection : Type 0 where
  debit credit : TransactionDirection

pub record InternalTransfer : Type 0 where
  pub id : Uuid
  pub debit_transaction_id : Uuid
  pub credit_transaction_id : Uuid
  pub debit_account_id : Uuid
  pub debit_account_type : String
  pub credit_account_id : Uuid
  pub currency : Text
  pub amount_minor : ℤ
  pub occurred_at : Time

pub record CanonicalTransaction : Type 0 where
  pub id : Uuid
  pub account_id : Uuid
  pub account_type : String
  pub direction : TransactionDirection
  pub original_currency : Text
  pub original_amount_minor : ℤ
  pub occurred_at : Time
  pub time_precision : String
  pub transfer : Option InternalTransfer

pub record BillLine : Type 0 where
  pub id : Uuid
  pub bill_id : Uuid
  pub bulk_candidate_id : Option Uuid
  pub kind : LineKind
  pub status : LineStatus
  pub resolution_reason : Option Text
  pub link_exception_reason : Option Text
  pub index : ℕ
  pub occurred_on : Option Time
  pub occurred_at : Option Time
  pub time_precision : Option String
  pub description : Text
  pub amount_minor : Option ℤ
  pub currency : Option Text
  pub transaction_id : Option Uuid
  pub transaction : Option CanonicalTransaction
  pub created_at : Time
  pub updated_at : Time

pub record BillEvent : Type 0 where
  pub id : Uuid
  pub bill_id : Uuid
  pub kind : String
  pub reason : Text
  pub from_status : Option BillStatus
  pub to_status : Option BillStatus
  pub details : List (String × Text)
  pub created_at : Time

pub record Bill : Type 0 where
  pub id : Uuid
  pub account_id : Uuid
  pub bulk_document_id : Uuid
  pub bulk_attempt_generation : ℕ
  pub period_start : Option Time
  pub period_end : Option Time
  pub statement_date : Option Time
  pub due_date : Option Time
  pub settlement_currency : Option Text
  pub amount_due_minor : Option ℤ
  pub minimum_payment_minor : Option ℤ
  pub previous_balance_minor : Option ℤ
  pub unresolved_candidate_count : ℕ
  pub status : BillStatus
  pub payoff_transfer_id : Option Uuid
  pub payment_candidate_transaction_id : Option Uuid
  pub payment_candidate_selected : Bool
  pub ambiguous_payment_candidates : List Uuid
  pub version : ℕ
  pub void_reason : Option Text
  pub created_at : Time
  pub updated_at : Time
  pub paid_at : Option Time
  pub evidence_url : Text
  pub projection_has_failures : Bool
  pub lines : List BillLine
  pub events : List BillEvent

pub record CorrectHeaderInput : Type 0 where
  pub period_start : Option Time
  pub period_end : Option Time
  pub statement_date : Option Time
  pub due_date : Option Time
  pub settlement_currency : Option Text
  pub amount_due_minor : Option ℤ
  pub reason : Text

pub record LineCreateResult : Type 0 where
  pub transaction : CanonicalTransaction
  pub bulk_candidate_outcome_id : Uuid

pub record PayoffResult : Type 0 where
  pub transfer : InternalTransfer
  pub treatment_transaction_ids : List Uuid

pub record BulkProjectionResult : Type 0 where
  pub bill : Bill
  pub created : Bool

pub data IdempotencyClaimState : Type 0 where
  acquired replay busy : IdempotencyClaimState

pub record IdempotencyClaim : Type 0 where
  pub state : IdempotencyClaimState
  pub bill : Option Bill
  pub response_status : ℕ

-- Tests for equality, `==` on the strings of the source.
abbrev pub is_review : BillStatus → Bool
is_review review = true
is_review _ = false

abbrev pub is_unpaid : BillStatus → Bool
is_unpaid unpaid = true
is_unpaid _ = false

abbrev pub is_paid : BillStatus → Bool
is_paid paid = true
is_paid _ = false

abbrev pub is_void : BillStatus → Bool
is_void void = true
is_void _ = false

abbrev pub status_eq : BillStatus → BillStatus → Bool
status_eq review s = is_review s
status_eq unpaid s = is_unpaid s
status_eq paid s = is_paid s
status_eq void s = is_void s

abbrev pub is_payment : LineKind → Bool
is_payment payment = true
is_payment _ = false

abbrev pub is_summary : LineKind → Bool
is_summary summary = true
is_summary _ = false

abbrev pub is_pending : LineStatus → Bool
is_pending pending = true
is_pending _ = false

abbrev pub is_ignored : LineStatus → Bool
is_ignored ignored = true
is_ignored _ = false

abbrev pub direction_eq : TransactionDirection → TransactionDirection → Bool
direction_eq debit debit = true
direction_eq debit credit = false
direction_eq credit debit = false
direction_eq credit credit = true

-- `IsConflict`: `errors.Is` looks through the wrapping.
unfoldable pub is_conflict : Error → Bool
is_conflict version_conflict = true
is_conflict idempotency_conflict = true
is_conflict duplicate_transaction = true
is_conflict (wrapped _ e) = is_conflict e
is_conflict not_found = false
is_conflict idempotency_in_flight = false
is_conflict (validation _) = false
is_conflict (plain _) = false
