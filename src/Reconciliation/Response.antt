-- ===== src/Reconciliation/Response.antt =====
-- The validation of a parsed response and of its citations
-- (backend/internal/reconciliation/reconciliation.go).
use wealth_management.Prelude.{
  Bool, true, false, not, ◌&&◌, ◌||◌, Option, none, some, List, [], ◌∷◌, ◌++◌, any, all,
  if◌then◌else◌, is_some,
}
use wealth_management.Prelude.Int.{pos, ltb_ℤ}
use wealth_management.Prelude.Text.{Text, codes, text_eq, text_lt, trim_space, is_empty}
use wealth_management.Prelude.Sort.{sort_by}
use wealth_management.Reconciliation.Types.{
  Float64, infinity, neg_infinity, finite, valid_confidence, AccountEvidence, Candidate,
  FieldEvidence, ParsedResponse, Platform, Patterns,
}
use wealth_management.Reconciliation.Validation.{join, is_blank, validate_candidate}

unfoldable pub decisive_evidence_field : Text → Bool
unfolding any
decisive_evidence_field field = any (text_eq field) (
    codes "transaction_kind"
    ∷ codes "title"
    ∷ codes "merchant_name"
    ∷ codes "original_amount_minor"
    ∷ codes "original_currency"
    ∷ codes "sgd_amount_minor"
    ∷ codes "occurred_at"
    ∷ codes "references"
    ∷ codes "account_evidence"
    ∷ codes "line_items"
    ∷ codes "category_leaf_name"
    ∷ [])

abbrev pub rule_evidence_path : Text
rule_evidence_path = codes "^rule:[^:\\s]+:v[1-9][0-9]*$"

abbrev pub model_evidence_path : Text
model_evidence_path =
    codes "^(?:received_at|(?:subject|sender|text|attachment)(?:\\.[A-Za-z0-9_-]+|\\[[0-9]+\\])*)$"

abbrev pub is_cons : {A : Type 0} → List A → Bool
is_cons [] = false
is_cons (_ ∷ _) = true

unfoldable pub has_account_evidence : AccountEvidence → Bool
has_account_evidence evidence =
    not (is_blank evidence.card_last_four)
    || not (is_blank evidence.masked_bank_reference)
    || is_cons evidence.additional_identifiers

abbrev pub category : Text
category = codes "category_leaf_name"

-- A `float64` comparison, for values that are not NaN.
abbrev pub less : Float64 → Float64 → Bool
less (finite a) (finite b) = ltb_ℤ a b
less neg_infinity (finite b) = true
less (finite a) infinity = true
less neg_infinity infinity = true
less _ _ = false

abbrev pub non_category : List FieldEvidence → List FieldEvidence
non_category [] = []
non_category (e ∷ es) = elim (text_eq e.field category) [
  | true ↦ non_category es
  | false ↦ e ∷ non_category es
]

module _ (r : Patterns) where
  unfoldable pub valid_evidence_source_path : Text → Bool → Bool
  valid_evidence_source_path path allow_rule =
      let trimmed = trim_space path in
      not (is_empty trimmed)
      && ((allow_rule && r.matches rule_evidence_path trimmed)
          || r.matches model_evidence_path trimmed)

  abbrev pub is_valid_citation : Bool → FieldEvidence → Bool
  is_valid_citation allow_rule e =
      valid_evidence_source_path e.source_path allow_rule && valid_confidence e.confidence

  abbrev pub is_category : FieldEvidence → Bool
  is_category e = text_eq e.field category

  -- The response afterwards, and whether something was discarded.
  unfoldable pub discard_invalid_optional_category_citation : ParsedResponse → ParsedResponse × Bool
  unfolding any all
  discard_invalid_optional_category_citation response =
      let category_present = not (is_blank response.candidate.category_leaf_name) in
      let citation_present = any is_category response.evidence in
      let citations_valid =
        all (λ e. not (is_category e) || is_valid_citation false e) response.evidence in
      if category_present && citation_present && citations_valid then (response, false) else (
        record {
          candidate = record (response.candidate) { category_leaf_name = [] };
          evidence = if citation_present then non_category response.evidence else response.evidence;
        },
        category_present || citation_present,
      )

  -- The error of one citation, if it has one; the quoted name of an unknown field is left out.
  unfoldable pub citation_error : Bool → FieldEvidence → Option Text
  citation_error allow_rule e =
      if not (decisive_evidence_field e.field)
      then some (codes "unknown evidence field")
      else if not (valid_evidence_source_path e.source_path allow_rule)
      then some (e.field ++ codes " evidence has an invalid source path")
      else if not (valid_confidence e.confidence)
      then some (e.field ++ codes " evidence confidence must be between zero and one")
      else none

  unfoldable pub citations_error : Bool → List FieldEvidence → Option Text
  citations_error allow_rule [] = none
  citations_error allow_rule (e ∷ es) = elim (citation_error allow_rule e) [
    | some problem ↦ some problem
    | none ↦ citations_error allow_rule es
  ]

  unfoldable pub validate_evidence_entries : ParsedResponse → Option Text
  validate_evidence_entries response = citations_error false response.evidence

abbrev pub field_if : Bool → Text → List Text
field_if test field = if test then field ∷ [] else []

-- The keys of the map `required`.
unfoldable pub required_fields : Candidate → List Text
required_fields c =
    codes "transaction_kind"
    ∷ codes "title"
    ∷ codes "original_amount_minor"
    ∷ codes "original_currency"
    ∷ codes "occurred_at"
    ∷ (field_if (not (is_blank c.merchant_name)) (codes "merchant_name")
        ++ (field_if (is_some c.sgd_amount_minor) (codes "sgd_amount_minor")
            ++ (field_if (is_cons c.references) (codes "references")
                ++ (field_if (has_account_evidence c.account_evidence) (codes "account_evidence")
                    ++ (field_if (is_cons c.line_items) (codes "line_items")
                        ++ field_if (not (is_blank c.category_leaf_name)) category)))))

-- The required fields that no citation names.
unfoldable pub missing_fields : List FieldEvidence → List Text → List Text
unfolding any
missing_fields evidence [] = []
missing_fields evidence (field ∷ fields) = elim (any (λ e. text_eq e.field field) evidence) [
  | true ↦ missing_fields evidence fields
  | false ↦ field ∷ missing_fields evidence fields
]

module _ (p : Platform) (r : Patterns) where
  unfoldable pub validate_parsed_response : ParsedResponse → Bool → Option Text
  validate_parsed_response response allow_rule =
      elim (validate_candidate p
        (record (response.candidate) { user_id = codes "bound-by-server" })) [
          | some problem ↦ some problem
          | none ↦ elim (citations_error r allow_rule response.evidence) [
            | some problem ↦ some problem
            | none ↦ elim (missing_fields response.evidence (required_fields response.candidate)) [
              | [] ↦ none
              | f ∷ fs ↦ some (
                  codes "missing required field evidence: "
                  ++ join (codes ", ") (sort_by text_lt (f ∷ fs)))
            ]
          ]
        ]

  unfoldable pub validate_parsed_response_before_rule : ParsedResponse → Option Text
  validate_parsed_response_before_rule response = validate_parsed_response response false

  unfoldable pub validate_parsed_response_after_rule : ParsedResponse → Option Text
  validate_parsed_response_after_rule response = validate_parsed_response response true

-- The loop of `AggregateConfidence`, with the minimum found so far.
unfoldable pub minimum_confidence : Patterns → Option Float64 → List FieldEvidence → Option Float64
minimum_confidence r found [] = found
minimum_confidence r found (e ∷ es) =
    minimum_confidence r
      (if not (decisive_evidence_field e.field) || not (is_valid_citation r true e)
        then found
        else elim found [
          | none ↦ some e.confidence
          | some m ↦ if less e.confidence m then some e.confidence else some m
        ])
      es

unfoldable pub aggregate_confidence : Patterns → List FieldEvidence → Float64
aggregate_confidence r evidence = elim (minimum_confidence r none evidence) [
  | none ↦ finite (pos 0)
  | some m ↦ m
]
