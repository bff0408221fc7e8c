-- ===== src/Reconciliation/Amounts.antt =====
-- How an amount may be written in a mail: `amountRepresentations`, `formatMinorAmount` and
-- `groupedAmount` (backend/internal/reconciliation/corroboration.go). A text that the code reads from
-- its end is reversed here.
use wealth_management.Prelude.{
  ℕ, zero, suc, ◌-◌, ◌/◌, ◌%◌, ◌^◌, Bool, true, false, List, [], ◌∷◌, ◌++◌, any, ◌==◌,
  if◌then◌else◌, length,
}
use mathlib.Core.List.{reverse}
use wealth_management.Prelude.Text.{Text, text_eq}
use wealth_management.Prelude.Decimal.{decimal}

unfoldable pub zeros : ℕ → Text
zeros zero = []
zeros (suc n) = b'0' ∷ zeros n

-- `%0*d`.
unfoldable pub padded : ℕ → ℕ → Text
unfolding decimal zeros
padded width n = zeros (width - length (decimal n)) ++ decimal n

-- The amount in the units of a currency with `scale` decimals.
unfoldable pub format_minor_amount : ℕ → ℕ → Text
unfolding decimal padded
format_minor_amount minor scale =
    if scale == 0
    then decimal minor
    else decimal (minor / 10 ^ scale) ++ (b'.' ∷ padded scale (minor % 10 ^ scale))

-- The loop that takes a `0` from the end, and then a point, on the reversed text.
unfoldable pub abbreviations : Text → List Text
abbreviations [] = []
abbreviations (c ∷ []) = elim (c == b'0') [ true ↦ [] ∷ [] | false ↦ [] ]
abbreviations (c ∷ d ∷ s) = elim (c == b'0') [
  | false ↦ []
  | true ↦ elim (d == b'.') [
    | true ↦ reverse s ∷ abbreviations s
    | false ↦ reverse (d ∷ s) ∷ abbreviations (d ∷ s)
  ]
]

-- The digits of a reversed number in groups of three.
unfoldable pub grouped_digits : Text → Text
grouped_digits (a ∷ b ∷ c ∷ d ∷ s) = a ∷ b ∷ c ∷ b',' ∷ grouped_digits (d ∷ s)
grouped_digits s = s

-- The text before the first point, and the rest from it on.
unfoldable pub whole_part : Text → Text
whole_part [] = []
whole_part (c ∷ s) = elim (c == b'.') [ true ↦ [] | false ↦ c ∷ whole_part s ]

unfoldable pub fraction_part : Text → Text
fraction_part [] = []
fraction_part (c ∷ s) = elim (c == b'.') [ true ↦ c ∷ s | false ↦ fraction_part s ]

-- A value has one point at most.
unfoldable pub grouped_amount : Text → Text
unfolding grouped_digits whole_part fraction_part
grouped_amount value = reverse (grouped_digits (reverse (whole_part value))) ++ fraction_part value

abbrev pub has_point : Text → Bool
has_point value = any (λ c. c == b'.') value

unfoldable pub values_of : Text → List Text
unfolding abbreviations any
values_of canonical =
    canonical ∷ (if has_point canonical then abbreviations (reverse canonical) else [])

unfoldable pub add_new : Text → List Text → List Text
unfolding any
add_new value seen = if any (text_eq value) seen then seen else seen ++ (value ∷ [])

-- Each value and its grouped form, the first time that they occur.
unfoldable pub representations : List Text → List Text → List Text
unfolding add_new grouped_amount
representations seen [] = seen
representations seen (value ∷ values) =
    representations (add_new (grouped_amount value) (add_new value seen)) values

unfoldable pub amount_representations : ℕ → ℕ → List Text
unfolding format_minor_amount values_of representations
amount_representations minor scale =
    representations [] (values_of (format_minor_amount minor scale))
