-- ===== src/Reconciliation/Validation.antt =====
-- `ValidateCandidate` and what it calls (backend/internal/reconciliation/reconciliation.go). A
-- validation returns the text of its error, if there is one.
use wealth_management.Prelude.{
  ℕ, suc, Bool, true, false, not, ◌||◌, Option, none, some, List, [], ◌∷◌, ◌++◌, ltb, if◌then◌else◌,
  length, any,
}
use wealth_management.Prelude.Int.{ℤ, pos, ltb_ℤ, leb_ℤ, eqb_ℤ}
use wealth_management.Prelude.Text.{Text, codes, trim_space, is_empty}
use wealth_management.Prelude.Decimal.{decimal}
use wealth_management.Currency.{is_iso4217}
use wealth_management.GoTime.{is_zero}
use wealth_management.Reconciliation.Types.{
  valid_confidence, TransactionKind, LineItem, Candidate, Platform,
}

-- `strings.Join`.
unfoldable pub join : Text → List Text → Text
join separator [] = []
join separator (x ∷ []) = x
join separator (x ∷ y ∷ xs) = x ++ separator ++ join separator (y ∷ xs)

-- The error of the problems found, if any.
abbrev pub joined : List Text → Option Text
joined [] = none
joined (p ∷ ps) = some (join (codes "; ") (p ∷ ps))

-- `if test { problems = append(problems, text) }`.
abbrev pub problem_if : Bool → Text → List Text
problem_if test text = if test then text ∷ [] else []

abbrev pub is_blank : Text → Bool
is_blank s = is_empty (trim_space s)

abbrev pub is_kind : TransactionKind → Bool
is_kind (TransactionKind.other _) = false
is_kind _ = true

abbrev pub is_negative : Option ℤ → Bool
is_negative none = false
is_negative (some a) = ltb_ℤ a (pos 0)

abbrev pub is_not_positive : Option ℤ → Bool
is_not_positive none = false
is_not_positive (some a) = leb_ℤ a (pos 0)

module _ (p : Platform) where
  abbrev pub valid_currency : Text → Bool
  valid_currency value = is_iso4217 p.upper_rune p.parse_iso value

  unfoldable pub validate_line_item : LineItem → Option Text
  validate_line_item item =
      let description = trim_space item.description in
      joined (
        problem_if (not (eqb_ℤ item.schema_version (pos 1))) (codes "schema version must be 1")
        ++ (if is_empty description
            then codes "description is required" ∷ []
            else problem_if (ltb 250 (length description))
                (codes "description must be at most 250 characters"))
        ++ problem_if (leb_ℤ item.quantity (pos 0)) (codes "quantity must be a positive integer")
        ++ problem_if (not (valid_currency item.currency))
            (codes "currency must be a three-letter uppercase ISO code")
        ++ problem_if
            (is_negative item.unit_price_minor
              || is_negative item.line_total_minor
              || is_negative item.tax_minor
              || is_negative item.discount_minor)
            (codes "line-item money fields cannot be negative")
        ++ problem_if (is_empty item.details || not (p.is_object item.details))
            (codes "details must be a JSON object"))

  -- The loop of `ValidateLineItems`, from an index on.
  unfoldable pub line_item_problems : ℕ → List LineItem → List Text
  line_item_problems index [] = []
  line_item_problems index (item ∷ items) = elim (validate_line_item item) [
    | none ↦ line_item_problems (suc index) items
    | some problem ↦
        (codes "line_items[" ++ decimal index ++ codes "]: " ++ problem)
        ∷ line_item_problems (suc index) items
  ]

  unfoldable pub validate_line_items : List LineItem → Option Text
  validate_line_items items =
      if ltb 100 (length items)
      then some (codes "line_items must contain at most 100 items")
      else elim (joined (line_item_problems 0 items)) [
        | some problem ↦ some problem
        | none ↦ elim (p.encoded_len items) [
          | none ↦ some (codes "line_items could not be serialized")
          | some size ↦
              if ltb 262144 size
              then some (codes "serialized line_items must not exceed 262144 bytes")
              else none
        ]
      ]

  unfoldable pub validate_candidate : Candidate → Option Text
  validate_candidate c = joined (
      problem_if (is_blank c.user_id) (codes "user ID is required")
      ++ problem_if (not (is_kind c.kind)) (codes "transaction kind must be debit or credit")
      ++ problem_if (is_blank c.title) (codes "title is required")
      ++ problem_if (leb_ℤ c.original_amount_minor (pos 0))
          (codes "original amount must be positive minor units")
      ++ problem_if (not (valid_currency c.original_currency))
          (codes "original currency must be a three-letter uppercase ISO code")
      ++ problem_if (is_not_positive c.sgd_amount_minor)
          (codes "SGD amount must be positive minor units when supplied")
      ++ problem_if (is_zero c.occurred_at) (codes "occurred time is required")
      ++ problem_if (not (valid_confidence c.confidence))
          (codes "confidence must be between zero and one")
      ++ problem_if (any is_blank c.references) (codes "references cannot contain an empty value")
      ++ elim (validate_line_items c.line_items) [ none ↦ [] | some problem ↦ problem ∷ [] ])
