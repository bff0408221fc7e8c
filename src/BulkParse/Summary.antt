-- ===== src/BulkParse/Summary.antt =====
-- `validateBillSummary` (backend/internal/bulkparse/decoder.go). The loops over the dates and the
-- amounts run in the order in which they are written here; in Go the order of a map is arbitrary, and
-- with it which one of several invalid values the error names.
use wealth_management.Prelude.{
  Bool, true, false, not, ◌&&◌, ◌||◌, Option, none, some, List, [], ◌∷◌, ◌++◌, if◌then◌else◌,
  is_some,
}
use wealth_management.Prelude.Int.{ℤ, pos, ltb_ℤ, eqb_ℤ}
use wealth_management.Prelude.Text.{Text, codes, text_lt}
use wealth_management.BulkParse.Types.{BillSummary, Platform}
use wealth_management.BulkParse.Fields.{
  currency_pattern, refuse_if, first_problem, contains, validate_evidence,
}
use wealth_management.BulkParse.Candidates.{is_set_and, fields_if}

abbrev pub dates : BillSummary → List (Text × Option Text)
dates s =
    (codes "period_start", s.period_start)
    ∷ (codes "period_end", s.period_end)
    ∷ (codes "statement_date", s.statement_date)
    ∷ (codes "due_date", s.due_date)
    ∷ []

abbrev pub amounts : BillSummary → List (Text × Option ℤ)
amounts s =
    (codes "amount_due_minor", s.amount_due_minor)
    ∷ (codes "minimum_payment_minor", s.minimum_payment_minor)
    ∷ (codes "previous_balance_minor", s.previous_balance_minor)
    ∷ []

-- The names whose values are there.
unfoldable pub set_fields : {A : Type 0} → List (Text × Option A) → List Text
set_fields [] = []
set_fields ((name, value) ∷ rest) =
    if is_some value then name ∷ set_fields rest else set_fields rest

unfoldable pub card_problem : List Text → Bool → Option Text → Option Text
card_problem allowed server_bound none =
    refuse_if (not server_bound)
      (codes "bill summary account_ref is required when multiple accounts are allowed")
card_problem allowed server_bound (some ref) =
    refuse_if (not (contains ref allowed)) (codes "bill summary account_ref is not allowed")

-- The first text is after the second, both being there.
unfoldable pub is_after : Option Text → Option Text → Bool
is_after (some a) (some b) = text_lt b a
is_after none _ = false
is_after (some _) none = false

module _ (p : Platform) where
  unfoldable pub dates_problem : List (Text × Option Text) → Option Text
  dates_problem [] = none
  dates_problem ((name, value) ∷ rest) = elim (is_set_and (λ day. not (p.is_date day)) value) [
    | true ↦ some (codes "bill summary " ++ name ++ codes " must be a date")
    | false ↦ dates_problem rest
  ]

-- Whether an amount is refused; only the amount due must not be 0.
abbrev pub is_bad_amount : Bool → Option ℤ → Bool
is_bad_amount is_due =
    is_set_and (λ amount. ltb_ℤ amount (pos 0) || (is_due && eqb_ℤ amount (pos 0)))

abbrev pub amount_problem : Text → Bool → Option ℤ → Option Text
amount_problem name is_due value =
    refuse_if (is_bad_amount is_due value) (codes "bill summary " ++ name ++ codes " is invalid")

-- `allowedEvidence`; the card is required only if the server did not bind it.
unfoldable pub summary_fields : BillSummary → List Text
summary_fields s =
    set_fields (dates s)
    ++ (set_fields ((codes "settlement_currency", s.settlement_currency) ∷ [])
        ++ set_fields (amounts s))

abbrev pub card_field : BillSummary → List Text
card_field s = set_fields ((codes "card_account_ref", s.card_account_ref) ∷ [])

unfoldable pub validate_bill_summary :
    Platform → BillSummary → List Text → Bool → Option (List Text) → Option Text
validate_bill_summary p s allowed server_bound manifest = first_problem (
    card_problem allowed server_bound s.card_account_ref
    ∷ dates_problem p (dates s)
    ∷ refuse_if (is_after s.period_start s.period_end)
        (codes "bill period start follows period end")
    ∷ refuse_if (is_after s.statement_date s.due_date) (codes "statement date follows due date")
    ∷ refuse_if (is_set_and (λ code. not (p.matches currency_pattern code)) s.settlement_currency)
        (codes "bill settlement currency is invalid")
    ∷ amount_problem (codes "amount_due_minor") true s.amount_due_minor
    ∷ amount_problem (codes "minimum_payment_minor") false s.minimum_payment_minor
    ∷ amount_problem (codes "previous_balance_minor") false s.previous_balance_minor
    ∷ validate_evidence p s.evidence
        (fields_if (not server_bound) (card_field s) ++ summary_fields s)
        (card_field s ++ summary_fields s) (codes "document_summary.") manifest
    ∷ [])
