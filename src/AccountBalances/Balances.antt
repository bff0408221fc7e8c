-- ===== src/AccountBalances/Balances.antt =====
-- `balanceView` (backend/internal/accountbalances/service.go): the current balances of an account are
-- its opening balances and the movements after them.
use wealth_management.Prelude.{Bool, true, false, not, ◌&&◌, ◌||◌, List, [], ◌∷◌, if◌then◌else◌}
use wealth_management.Prelude.Int.{ℤ, pos, ◌+ℤ◌, ◌-ℤ◌, ltb_ℤ, max_int64, min_int64, wrap_int64}
use wealth_management.Prelude.Text.{Text, text_eq}
use wealth_management.GoTime.{Time, after}
use wealth_management.AccountBalances.Types.{
  Result, ok, err, validation, AccountSide, asset, liability, TransactionKind, debit, credit,
  BalanceAmount, ConfirmedMovement,
}

-- The map `totals`, as the list of its entries: `totals[currency]` is 0 if there is none.
unfoldable pub amount_of : Text → List BalanceAmount → ℤ
amount_of currency [] = pos 0
amount_of currency (x ∷ xs) =
    if text_eq x.currency currency then x.minor_units else amount_of currency xs

-- `totals[currency] = amount`.
unfoldable pub put_amount : Text → ℤ → List BalanceAmount → List BalanceAmount
put_amount currency amount [] = record { currency = currency; minor_units = amount } ∷ []
put_amount currency amount (x ∷ xs) =
    if text_eq x.currency currency
    then record { currency = currency; minor_units = amount } ∷ xs
    else x ∷ put_amount currency amount xs

-- The opening balances as a map: a later entry of one currency replaces an earlier one.
unfoldable pub opening_totals : List BalanceAmount → List BalanceAmount → List BalanceAmount
unfolding put_amount
opening_totals totals [] = totals
opening_totals totals (x ∷ xs) = opening_totals (put_amount x.currency x.minor_units totals) xs

abbrev pub lowers : AccountSide → TransactionKind → Bool
lowers asset debit = true
lowers asset credit = false
lowers liability debit = false
lowers liability credit = true

unfoldable pub signed_delta : AccountSide → ConfirmedMovement → ℤ
signed_delta side movement =
    if lowers side movement.kind
    then wrap_int64 (pos 0 -ℤ movement.minor_units)
    else movement.minor_units

-- The `continue` of the loop: a movement that is not after the baseline, or is negative.
unfoldable pub is_skipped : Time → ConfirmedMovement → Bool
is_skipped as_of movement =
    not (after movement.occurred_at as_of) || ltb_ℤ movement.minor_units (pos 0)

-- The test that the sum would leave the range of an int64, made without leaving it.
unfoldable pub overflows : ℤ → ℤ → Bool
overflows current delta =
    (ltb_ℤ (pos 0) delta && ltb_ℤ (wrap_int64 (max_int64 -ℤ delta)) current)
    || (ltb_ℤ delta (pos 0) && ltb_ℤ current (wrap_int64 (min_int64 -ℤ delta)))

-- One movement that counts.
unfoldable pub add_movement :
    AccountSide → List BalanceAmount → ConfirmedMovement → Result (List BalanceAmount)
unfolding amount_of put_amount signed_delta overflows
add_movement side totals movement =
    let current = amount_of movement.currency totals in
    let delta = signed_delta side movement in
    if overflows current delta
    then err (validation "calculated balance exceeds signed bigint range")
    else ok (put_amount movement.currency (wrap_int64 (current +ℤ delta)) totals)

unfoldable pub apply_movements :
    AccountSide → Time → List BalanceAmount → List ConfirmedMovement → Result (List BalanceAmount)
apply_movements side as_of totals [] = ok totals
apply_movements side as_of totals (movement ∷ movements) = elim (is_skipped as_of movement) [
  | true ↦ apply_movements side as_of totals movements
  | false ↦ elim (add_movement side totals movement) [
    | err e ↦ err e
    | ok totals' ↦ apply_movements side as_of totals' movements
  ]
]
