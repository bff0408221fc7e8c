-- ===== src/AccountBalances/Opening.antt =====
-- `normalizeBalances`, `balanceAmountsEqual` and the checks of `SetOpeningBalance`
-- (backend/internal/accountbalances/service.go).
use wealth_management.Prelude.{
  ℕ, String, Bool, true, false, not, ◌&&◌, ◌||◌, Option, none, some, List, [], ◌∷◌, map, ltb, ◌==◌,
  if◌then◌else◌, length, all, leb,
}
use text.Mathlib.Text.{◌==◌ as str_eq}
use wealth_management.Prelude.Int.{ℤ, pos, ltb_ℤ, eqb_ℤ}
use wealth_management.Prelude.Text.{text_lt, Text, text_eq, trim_space, byte_len}
use wealth_management.Currency.{is_iso4217}
use wealth_management.AccountBalances.Types.{validation, Result, ok, err, ◌>>=◌, BalanceAmount}
use wealth_management.AccountBalances.MinorUnits.{parse_minor_units}

unfoldable pub insert_sorted : BalanceAmount → List BalanceAmount → List BalanceAmount
unfolding text_lt
insert_sorted x [] = x ∷ []
insert_sorted x (y ∷ ys) =
    if text_lt y.currency x.currency then y ∷ insert_sorted x ys else x ∷ y ∷ ys

-- `sort.Slice` by currency.
unfoldable pub sort_by_currency : List BalanceAmount → List BalanceAmount
unfolding insert_sorted
sort_by_currency [] = []
sort_by_currency (x ∷ xs) = insert_sorted x (sort_by_currency xs)

module _ (upper_rune : ℕ → ℕ) (parse_iso : Text → Bool) where
  -- One round of the loop of `normalizeBalances`.
  unfoldable pub normalize_balance : String → Text × Text → Result BalanceAmount
  normalize_balance account_type (currency, raw) =
      if not (text_eq currency (map upper_rune currency))
        || not (is_iso4217 upper_rune parse_iso currency)
      then err (validation "invalid currency")
      else elim (parse_minor_units raw) [
        | err e ↦ err e
        | ok amount ↦
            if ltb_ℤ amount (pos 0) && not (str_eq account_type "bank_account")
            then err (validation "negative opening amounts require a bank account")
            else ok (record { currency = currency; minor_units = amount })
      ]

  unfoldable pub normalize_each : String → List (Text × Text) → Result (List BalanceAmount)
  normalize_each account_type [] = ok []
  normalize_each account_type (value ∷ values) = normalize_balance account_type value >>= λ amount.
      normalize_each account_type values >>= λ amounts. ok (amount ∷ amounts)

  unfoldable pub normalize_balances : List (Text × Text) → String → Result (List BalanceAmount)
  normalize_balances values account_type =
      if length values == 0 || ltb 20 (length values)
      then err (validation "one to twenty currencies are required")
      else normalize_each account_type values >>= λ amounts. ok (sort_by_currency amounts)

-- `values[currency]` for the map that the loop over `left` fills: the last entry counts.
unfoldable pub last_amount : Text → List BalanceAmount → Option ℤ
last_amount currency [] = none
last_amount currency (x ∷ xs) = elim (last_amount currency xs) [
  | some amount ↦ some amount
  | none ↦ if text_eq x.currency currency then some x.minor_units else none
]

unfoldable pub all_recorded : List BalanceAmount → List BalanceAmount → Bool
unfolding last_amount
all_recorded left [] = true
all_recorded left (x ∷ xs) =
    elim (last_amount x.currency left) [ none ↦ false | some amount ↦ eqb_ℤ amount x.minor_units ]
    && all_recorded left xs

unfoldable pub balance_amounts_equal : List BalanceAmount → List BalanceAmount → Bool
unfolding all_recorded
balance_amounts_equal left right = length left == length right && all_recorded left right

-- The correction reason that `SetOpeningBalance` stores: none with the first balance, and 1 to 500
-- bytes afterwards.
unfoldable pub correction_reason : ℤ → Option Text → Result (Option Text)
correction_reason expected none =
    if eqb_ℤ expected (pos 0) then ok none else err (validation "correction reason is required")
correction_reason expected (some reason) =
    if eqb_ℤ expected (pos 0)
    then err (validation "first opening balance cannot have a correction reason")
    else (let trimmed = trim_space reason in
        if byte_len trimmed == 0 || ltb 500 (byte_len trimmed)
        then err (validation "correction reason must contain 1 to 500 characters")
        else ok (some trimmed))

-- `validateIdempotencyKey`: `^[\x21-\x7e]{32,128}$`.
unfoldable pub is_safe_key : Text → Bool
unfolding all
is_safe_key key =
    all (λ c. leb 0x21 c && leb c 0x7e) key && leb 32 (length key) && leb (length key) 128
