-- ===== src/CreditCard/Matching.antt =====
-- Which transactions may stand for a bill line or a payment, and which lines a new projection may
-- hold (backend/internal/creditcard/service.go).
use wealth_management.Prelude.{
  ℕ, ◌*◌, String, Bool, true, false, not, ◌&&◌, ◌||◌, Option, none, some, List, [], ◌∷◌, ltb, ◌==◌,
  if◌then◌else◌, is_some,
}
use wealth_management.Prelude.Int.{eqb_ℤ}
use wealth_management.Prelude.Text.{Text, text_eq, trim_space, byte_len, is_empty}
use wealth_management.GoTime.{Time, time_eq, distance, date_only, second}
use text.Mathlib.Text.{◌==◌ as str_eq}
use wealth_management.CreditCard.Types.{
  Uuid, nil_uuid, validation, LineKind, refund, payment, summary, LineStatus, TransactionDirection,
  debit, credit, InternalTransfer, CanonicalTransaction, BillLine, Bill, is_payment, is_summary,
  is_ignored, direction_eq,
}
use wealth_management.CreditCard.Action.{Result, ok, err}
use wealth_management.CreditCard.Rules.{
  holds, header_complete, date_within, optional_bounded_reason, contains_uuid,
}

abbrev pub wanted_direction : LineKind → TransactionDirection
wanted_direction refund = credit
wanted_direction payment = credit
wanted_direction _ = debit

-- The transfer of which a payment line's transaction must be the credit leg.
unfoldable pub is_card_credit_leg : Bill → CanonicalTransaction → InternalTransfer → Bool
is_card_credit_leg bill transaction transfer =
    transfer.credit_transaction_id == transaction.id
    && transfer.credit_account_id == bill.account_id
    && str_eq transfer.debit_account_type "bank_account"
    && text_eq transfer.currency transaction.original_currency
    && eqb_ℤ transfer.amount_minor transaction.original_amount_minor

abbrev outside : Time → Option Time → Option Time → Bool
outside value none _ = true
outside value (some _) none = true
outside value (some start) (some end) = not (date_within value start end)

-- The mismatch in time: by day or within ten minutes where the line has a time, by day where it
-- has only a date.
abbrev time_differs : Time → Option Time → Option String → Option Time → Bool
time_differs at (some line_at) (some precision) _ =
    if str_eq precision "date"
    then not (time_eq (date_only at) (date_only line_at))
    else ltb (600 * second) (distance at line_at)
time_differs at none _ occurred_on =
    holds (λ on. not (time_eq (date_only at) (date_only on))) occurred_on
time_differs at (some _) none occurred_on =
    holds (λ on. not (time_eq (date_only at) (date_only on))) occurred_on

unfoldable pub mismatch : Bill → BillLine → CanonicalTransaction → Bool
mismatch bill line transaction =
    holds (λ amount. not (eqb_ℤ transaction.original_amount_minor amount)) line.amount_minor
    || holds (λ currency. not (text_eq transaction.original_currency currency)) line.currency
    || (if is_payment line.kind
        then outside transaction.occurred_at bill.statement_date bill.due_date
        else outside transaction.occurred_at bill.period_start bill.period_end)
    || time_differs transaction.occurred_at line.occurred_at line.time_precision line.occurred_on

-- The last third of `validateLineTransaction`: a mismatch wants a reason, a match allows none.
unfoldable pub link_exception : Bool → Option Text → Result (Option Text)
unfolding optional_bounded_reason
link_exception true supplied = elim (optional_bounded_reason supplied true) [
  | ok reason ↦ ok reason
  | err _ ↦ err (validation "link_exception_reason is required for a non-exact match")
]
link_exception false none = ok none
link_exception false (some _) =
    err (validation "link_exception_reason is not allowed for an exact match")

unfoldable pub validate_line_transaction :
    Bill → BillLine → CanonicalTransaction → Option Text → Result (Option Text)
unfolding is_card_credit_leg mismatch link_exception
validate_line_transaction bill line transaction supplied =
    if not (transaction.account_id == bill.account_id)
      || not (str_eq transaction.account_type "credit_card")
    then err (validation "transaction must belong to this Credit Card")
    else if not (direction_eq transaction.direction (wanted_direction line.kind))
    then err (validation "transaction direction does not match the bill line")
    else if is_payment line.kind
        && not (holds (is_card_credit_leg bill transaction) transaction.transfer)
    then err (validation "payment lines require a Bank to Card transfer credit leg")
    else link_exception (mismatch bill line transaction) supplied

abbrev within_header : Time → Option Time → Option Time → Bool
within_header value none _ = false
within_header value (some _) none = false
within_header value (some start) (some end) = date_within value start end

unfoldable pub validate_bank_debit_candidate : Bill → CanonicalTransaction → Result (Unit {0})
unfolding header_complete
validate_bank_debit_candidate bill transaction =
    if not (header_complete bill)
      || not (str_eq transaction.account_type "bank_account")
      || not (direction_eq transaction.direction debit)
      || not (holds (text_eq transaction.original_currency) bill.settlement_currency)
      || not (holds (eqb_ℤ transaction.original_amount_minor) bill.amount_due_minor)
      || not (within_header transaction.occurred_at bill.statement_date bill.due_date)
      || is_some transaction.transfer
    then err (validation "transaction is not an exact Bank debit candidate")
    else ok tt

abbrev is_evidence_kind : LineKind → Bool
is_evidence_kind (LineKind.other _) = false
is_evidence_kind summary = false
is_evidence_kind _ = true

abbrev is_resolution : LineStatus → Bool
is_resolution (LineStatus.other _) = false
is_resolution _ = true

-- The tests on one evidence-backed line, and the candidates seen after it.
unfoldable pub check_evidence_line : BillLine → List Uuid → Result (List Uuid)
unfolding contains_uuid
check_evidence_line line candidates =
    if not (is_evidence_kind line.kind)
    then err (validation "invalid bill line kind")
    else elim line.bulk_candidate_id [
      | none ↦ err (validation "evidence-backed line has no pinned candidate")
      | some candidate ↦
          if contains_uuid candidates candidate
          then err (validation "duplicate pinned bill candidate")
          else if not (is_resolution line.status)
          then err (validation "invalid bill line resolution")
          else ok (candidate ∷ candidates)
    ]

-- One round of the loop of `validateProjectedLines`: the candidates seen after the line.
unfoldable pub check_projected_line : Bill → BillLine → List ℕ → List Uuid → Result (List Uuid)
unfolding check_evidence_line contains_uuid
check_projected_line bill line indexes candidates =
    if line.id == nil_uuid
      || not (line.bill_id == bill.id)
      || ltb line.index 1
      || is_empty (trim_space line.description)
      || ltb 500 (byte_len line.description)
    then err (validation "Bulk projection returned an invalid bill line")
    else if contains_uuid indexes line.index
    then err (validation "duplicate bill line index")
    else if is_summary line.kind
    then (if not (is_ignored line.status) || is_some line.transaction_id
        then err (validation "summary lines must be ignored")
        else ok candidates)
    else check_evidence_line line candidates

unfoldable pub check_projected_lines : Bill → List BillLine → List ℕ → List Uuid → Result (Unit {0})
unfolding check_projected_line
check_projected_lines bill [] indexes candidates = ok tt
check_projected_lines bill (line ∷ lines) indexes candidates =
    elim (check_projected_line bill line indexes candidates) [
      | err e ↦ err e
      | ok candidates' ↦ check_projected_lines bill lines (line.index ∷ indexes) candidates'
    ]

unfoldable pub validate_projected_lines : Bill → Result (Unit {0})
unfolding check_projected_lines
validate_projected_lines bill = check_projected_lines bill bill.lines [] []
