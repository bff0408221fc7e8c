-- ===== src/AccountBalances/MinorUnits.antt =====
-- `ParseMinorUnits` (backend/internal/accountbalances/service.go): an amount is a canonical decimal
-- integer that fits 64 bits.
use wealth_management.Prelude.{
  ℕ, zero, suc, ◌+◌, ◌-◌, ◌*◌, Bool, true, false, not, ◌&&◌, ◌||◌, Option, none, some, [], ◌∷◌, leb,
  ◌==◌, if◌then◌else◌, all,
}
use wealth_management.Prelude.Int.{ℤ, pos, negsuc}
use wealth_management.Prelude.Text.{Text, codes, text_eq}
use wealth_management.Prelude.Decimal.{is_digit, decimal}
use wealth_management.AccountBalances.Types.{Result, ok, err, validation}

-- `0|[1-9][0-9]*`.
unfoldable pub is_canonical : Text → Bool
unfolding all
is_canonical [] = false
is_canonical (c ∷ s) = (c == b'0' && text_eq s []) || (leb b'1' c && leb c b'9' && all is_digit s)

-- The expression `canonicalMinorUnits`, `^-?(0|[1-9][0-9]*)$`.
unfoldable pub canonical_minor_units : Text → Bool
unfolding is_canonical
canonical_minor_units [] = false
canonical_minor_units (c ∷ s) = if c == b'-' then is_canonical s else is_canonical (c ∷ s)

-- The number that a row of digits stands for, after `acc`.
unfoldable pub digits_value : ℕ → Text → ℕ
digits_value acc [] = acc
digits_value acc (c ∷ s) = digits_value (acc * 10 + (c - b'0')) s

abbrev pub negated : ℕ → ℤ
negated zero = pos 0
negated (suc n) = negsuc n

abbrev pub in_range : Bool → ℕ → Option ℤ
in_range true magnitude =
    if leb magnitude 9223372036854775808 then some (negated magnitude) else none
in_range false magnitude = if leb magnitude 9223372036854775807 then some (pos magnitude) else none

-- `strconv.ParseInt(raw, 10, 64)` on a canonical numeral.
unfoldable pub parse_int64 : Text → Option ℤ
unfolding digits_value
parse_int64 [] = none
parse_int64 (c ∷ s) =
    if c == b'-' then in_range true (digits_value 0 s) else in_range false (digits_value 0 (c ∷ s))

unfoldable pub parse_minor_units : Text → Result ℤ
unfolding canonical_minor_units parse_int64
parse_minor_units raw =
    if not (canonical_minor_units raw) || text_eq raw (codes "-0")
    then err (validation "amount must be a canonical integer string")
    else elim (parse_int64 raw) [
      | none ↦ err (validation "amount is outside bigint range")
      | some value ↦ ok value
    ]

-- `strconv.FormatInt(value, 10)`.
unfoldable pub format_int : ℤ → Text
unfolding decimal
format_int (pos n) = decimal n
format_int (negsuc n) = b'-' ∷ decimal (suc n)
