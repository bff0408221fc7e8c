-- ===== src/AccountBalances/Treatment.antt =====
-- The checks of `SetUserTreatment` (backend/internal/accountbalances/service.go).
use wealth_management.Prelude.{
  Bool, true, false, not, ◌&&◌, ◌||◌, none, some, List, [], ◌∷◌, ltb, ◌==◌, if◌then◌else◌,
}
use wealth_management.Prelude.Int.{ℤ, pos, ◌+ℤ◌, ◌-ℤ◌, ltb_ℤ, eqb_ℤ, wrap_int64}
use wealth_management.Prelude.Text.{Text, text_eq, trim_space, byte_len}
use wealth_management.AccountBalances.Types.{
  Result, ok, err, validation, SpendingBasis, line_items, LineItemAmount, TransactionForTreatment,
}

-- One line item, after the sum of those before it.
unfoldable pub add_line_item : TransactionForTreatment → ℤ → LineItemAmount → Result ℤ
add_line_item transaction sum item = elim item.line_total_minor [
  | none ↦ err (validation "line items are incomplete or use another currency")
  | some total ↦
      if not (text_eq item.currency transaction.original_currency) || ltb_ℤ total (pos 0)
      then err (validation "line items are incomplete or use another currency")
      else if ltb_ℤ (pos 0) total
          && ltb_ℤ (wrap_int64 (transaction.original_amount_minor -ℤ total)) sum
      then err (validation "line-item total overflows or exceeds the transaction")
      else ok (wrap_int64 (sum +ℤ total))
]

unfoldable pub sum_line_items : TransactionForTreatment → ℤ → List LineItemAmount → Result ℤ
sum_line_items transaction sum [] = ok sum
sum_line_items transaction sum (item ∷ items) = elim (add_line_item transaction sum item) [
  | err e ↦ err e
  | ok sum' ↦ sum_line_items transaction sum' items
]

-- The branch for `SpendingLineItems`.
unfoldable pub check_line_items : TransactionForTreatment → Result (Unit {0})
check_line_items transaction = elim transaction.line_items [
  | [] ↦ err (validation "complete line items are required")
  | item ∷ items ↦ elim (sum_line_items transaction (pos 0) (item ∷ items)) [
    | err e ↦ err e
    | ok sum ↦
        if not (eqb_ℤ sum transaction.original_amount_minor)
        then err (validation "line items must exactly equal the transaction total")
        else ok tt
  ]
]

abbrev pub is_basis : SpendingBasis → Bool
is_basis (SpendingBasis.other _) = false
is_basis _ = true

abbrev pub uses_line_items : SpendingBasis → Bool
uses_line_items line_items = true
uses_line_items _ = false

-- The reason as it is stored.
unfoldable pub treatment_reason : Text → Result Text
treatment_reason given =
    let reason = trim_space given in
    if byte_len reason == 0 || ltb 500 (byte_len reason)
    then err (validation "treatment reason must contain 1 to 500 characters")
    else ok reason
