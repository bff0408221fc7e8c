-- ===== src/BulkParse/Fields.antt =====
-- The checks that summaries and transactions share (backend/internal/bulkparse/decoder.go). A check
-- returns the text of its error, if there is one.
use wealth_management.Prelude.{
  ℕ, Bool, true, false, not, ◌&&◌, ◌||◌, Option, none, some, List, [], ◌∷◌, ◌++◌, ltb, leb, ◌==◌,
  length, any, if◌then◌else◌,
}
use wealth_management.Prelude.Text.{Text, codes, text_eq, text_lt, trim_space, is_empty}
use wealth_management.Prelude.Sort.{sort_by}
use wealth_management.Reconciliation.Types.{AccountEvidence}
use wealth_management.Reconciliation.Validation.{join}
use wealth_management.BulkParse.Types.{Evidence, Platform, out_of_unit}

abbrev pub evidence_path_pattern : Text
evidence_path_pattern = codes "^file\\[(0|[1-9][0-9]*)\\]\\.page\\[([1-9][0-9]*)\\]$"

abbrev pub account_ref_pattern : Text
account_ref_pattern = codes "^account_[1-9][0-9]{0,2}$"

abbrev pub currency_pattern : Text
currency_pattern = codes "^[A-Z]{3}$"

abbrev pub card_last_four_pattern : Text
card_last_four_pattern = codes "^[0-9]{4}$"

-- `if test { return errors.New(text) }`.
abbrev pub refuse_if : Bool → Text → Option Text
refuse_if true text = some text
refuse_if false text = none

-- The checks in their order, up to the first that fails.
unfoldable pub first_problem : List (Option Text) → Option Text
first_problem [] = none
first_problem (none ∷ rest) = first_problem rest
first_problem (some problem ∷ rest) = some problem

-- A map's key is there.
unfoldable pub contains : Text → List Text → Bool
unfolding any
contains key keys = any (text_eq key) keys

unfoldable pub bounded_required : Text → ℕ → Bool
bounded_required value max =
    text_eq (trim_space value) value && not (is_empty value) && leb (length value) max

unfoldable pub bounded_optional : Text → ℕ → Bool
bounded_optional value max = is_empty value || bounded_required value max

abbrev pub is_cons : {A : Type 0} → List A → Bool
is_cons [] = false
is_cons (_ ∷ _) = true

unfoldable pub has_account_evidence : AccountEvidence → Bool
has_account_evidence value =
    not (is_empty value.card_last_four)
    || not (is_empty value.masked_bank_reference)
    || is_cons value.additional_identifiers

-- `strings.HasPrefix` and what follows the prefix.
unfoldable pub after_prefix : Text → Text → Option Text
after_prefix [] s = some s
after_prefix (c ∷ prefix) [] = none
after_prefix (c ∷ prefix) (d ∷ s) = if c == d then after_prefix prefix s else none

-- A manifest is none for a response that has none.
unfoldable pub valid_evidence_source : Platform → Option (List Text) → Text → Bool
valid_evidence_source p none path = p.matches evidence_path_pattern path
valid_evidence_source p (some manifest) path = contains path manifest

module _ (p : Platform) (manifest : Option (List Text)) (allowed : List Text) (prefix : Text) where
  -- The cited fields, or none for an invalid entry.
  unfoldable pub cited_fields : List Text → List Evidence → Option (List Text)
  cited_fields seen [] = some seen
  cited_fields seen (item ∷ items) = elim (after_prefix prefix item.field) [
    | none ↦ none
    | some field ↦
        elim (not (contains field allowed)
          || not (valid_evidence_source p manifest item.source_path)
          || contains field seen
          || out_of_unit item.confidence) [
            | true ↦ none
            | false ↦ cited_fields (field ∷ seen) items
          ]
  ]

unfoldable pub uncited : List Text → List Text → List Text
uncited seen [] = []
uncited seen (field ∷ fields) =
    if contains field seen then uncited seen fields else field ∷ uncited seen fields

unfoldable pub missing_problem : List Text → Option Text
missing_problem [] = none
missing_problem (f ∷ fs) =
    some (codes "missing evidence for " ++ join (codes ", ") (sort_by text_lt (f ∷ fs)))

unfoldable pub validate_evidence :
    Platform → List Evidence → List Text → List Text → Text → Option (List Text) → Option Text
validate_evidence p evidence required allowed prefix manifest =
    if ltb 64 (length evidence)
    then some (codes "evidence exceeds limit")
    else elim (cited_fields p manifest allowed prefix [] evidence) [
      | none ↦ some (codes "evidence entry is invalid")
      | some seen ↦ missing_problem (uncited seen required)
    ]
