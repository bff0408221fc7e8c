-- ===== src/Reconciliation/EvidenceTests.antt =====
-- Citations and corroboration at concrete inputs.
use wealth_management.Prelude.{
  ◌*◌, true, false, not, ◌||◌, none, some, List, [], ◌∷◌, ◌++◌, any, all, All, if◌then◌else◌, ◌≡◌,
  refl, ◌⊎◌, arith,
}
use wealth_management.Prelude.Int.{pos}
use wealth_management.Prelude.Text.{Text, codes, text_eq, trim_space, is_space}
use wealth_management.Currency.{is_iso4217}
use wealth_management.GoTime.{second}
use wealth_management.Reconciliation.Types.{
  finite, three_quarters_bits, valid_confidence, AccountEvidence, card_last_four, FieldEvidence,
  ParsedResponse, Patterns,
}
use wealth_management.Reconciliation.Validation.{
  is_blank, validate_candidate, validate_line_items, validate_line_item, line_item_problems, join,
}
use wealth_management.Reconciliation.Accounts.{normalize_account_matching_key}
use wealth_management.Reconciliation.Response.{
  decisive_evidence_field, has_account_evidence, valid_evidence_source_path, is_category,
  discard_invalid_optional_category_citation, citation_error, citations_error, required_fields,
  missing_fields, validate_parsed_response, aggregate_confidence,
}
use wealth_management.Reconciliation.Corroboration.{
  has_qualified_amount, has_semantically_corroborated_card_last_four,
  sanitize_account_evidence_for_matching,
}
use wealth_management.Reconciliation.Citations.{
  IsCitation, AreCited, IsWithoutCategory, HasCitedCategory, validate_parsed_response_sound,
  discard_invalid_optional_category_citation_sound,
}
use wealth_management.Reconciliation.Confidence.{IsAggregate, aggregate_confidence-IsAggregate}
use wealth_management.Reconciliation.Eligible.{
  stands_for, has_qualified_amount_ten, sanitize_account_evidence_for_matching_sound,
}
use wealth_management.Reconciliation.Tests.{platform, receipt}

-- A model path is one that begins with `text`, and every other pattern matches.
abbrev patterns : Patterns
patterns = record {
  matches = λ pattern value. true;
  find_all = λ pattern value. [];
  quote = λ value. value;
  scale = λ code. if text_eq code (codes "SGD") then some 2 else none;
}

abbrev cite : Text → FieldEvidence
cite field = record {
  field = field;
  source_path = codes "text.body";
  confidence = finite (pos three_quarters_bits);
}

abbrev response : ParsedResponse
response = record {
  candidate = receipt (30 * second);
  evidence =
      cite (codes "transaction_kind")
      ∷ cite (codes "title")
      ∷ cite (codes "merchant_name")
      ∷ cite (codes "original_amount_minor")
      ∷ cite (codes "original_currency")
      ∷ cite (codes "occurred_at")
      ∷ cite (codes "account_evidence")
      ∷ [];
}

validate_parsed_response_sound_example :
    (validate_candidate platform (record (response.candidate) { user_id = codes "bound-by-server" })
      ≡ none)
    × All (IsCitation patterns false) response.evidence
    × AreCited response.candidate response.evidence
unfolding validate_parsed_response validate_candidate trim_space is_iso4217 text_eq valid_confidence
    any validate_line_items line_item_problems is_space join validate_line_item citations_error
    citation_error decisive_evidence_field valid_evidence_source_path required_fields missing_fields
    has_account_evidence
validate_parsed_response_sound_example =
    validate_parsed_response_sound platform patterns response false refl

aggregate_confidence-IsAggregate_example :
    IsAggregate patterns (aggregate_confidence patterns response.evidence) response.evidence
aggregate_confidence-IsAggregate_example =
    aggregate_confidence-IsAggregate patterns response.evidence

-- The response with a category that is cited once.
abbrev categorized : ParsedResponse
categorized = record {
  candidate = record (response.candidate) { category_leaf_name = codes "Food" };
  evidence = cite (codes "category_leaf_name") ∷ response.evidence;
}

-- The category is kept.
discard_invalid_optional_category_citation_sound_example :
    let result = discard_invalid_optional_category_citation patterns categorized in
    (HasCitedCategory patterns categorized × (result ≡ (categorized, false)))
    ⊎ (¬ HasCitedCategory patterns categorized
        × (result.0.candidate ≡ record (categorized.candidate) { category_leaf_name = [] })
        × IsWithoutCategory categorized.evidence result.0.evidence
        × (result.1 ≡ (
            not (is_blank categorized.candidate.category_leaf_name)
            || any (is_category patterns) categorized.evidence)))
discard_invalid_optional_category_citation_sound_example =
    discard_invalid_optional_category_citation_sound patterns categorized

category_is_kept :
    discard_invalid_optional_category_citation patterns categorized ≡ (categorized, false)
unfolding discard_invalid_optional_category_citation any all text_eq trim_space is_space
    valid_evidence_source_path valid_confidence
category_is_kept = refl

-- A category that nothing cites is cleared.
category_is_cleared :
    discard_invalid_optional_category_citation patterns
      (record categorized { evidence = response.evidence })
    ≡ (response, true)
unfolding discard_invalid_optional_category_citation any all text_eq trim_space is_space
    valid_evidence_source_path valid_confidence
category_is_cleared = refl

-- The mail says SGD 1, and the amount is SGD 10.00.
has_qualified_amount_ten_example :
    has_qualified_amount platform patterns (pos 1000) (codes "SGD") (codes "SGD 1") ≡ true
unfolding is_iso4217 text_eq trim_space is_space
has_qualified_amount_ten_example =
    has_qualified_amount_ten platform patterns 1 (codes "SGD") (codes "SGD 1") (omega arith) refl
      refl refl

abbrev unsupported : AccountEvidence
unsupported = record {
  card_last_four = codes " 1234";
  masked_bank_reference = [];
  additional_identifiers = [];
}

sanitize_account_evidence_for_matching_sound_example :
    let after =
      sanitize_account_evidence_for_matching platform patterns unsupported (codes "no card") in
    ((normalize_account_matching_key platform.lower_rune card_last_four
          (trim_space after.card_last_four)
        ≡ none)
      ⊎ (has_semantically_corroborated_card_last_four platform patterns
            (trim_space after.card_last_four)
            (codes "no card")
          ≡ true))
    × (after.masked_bank_reference ≡ unsupported.masked_bank_reference)
    × ((after ≡ unsupported)
        ⊎ ((any (stands_for (trim_space unsupported.card_last_four)) after.additional_identifiers
              ≡ true)
            × ((added : List Text) × (after.additional_identifiers
                  ≡ unsupported.additional_identifiers ++ added))))
sanitize_account_evidence_for_matching_sound_example =
    sanitize_account_evidence_for_matching_sound platform patterns unsupported (codes "no card")
