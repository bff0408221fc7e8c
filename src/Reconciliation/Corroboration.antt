-- ===== src/Reconciliation/Corroboration.antt =====
-- `DeriveAutoEligibility` and `SanitizeAccountEvidenceForMatching`
-- (backend/internal/reconciliation/corroboration.go): what the text of a mail itself bears out.
use wealth_management.Prelude.{
  Bool, true, false, not, ◌&&◌, ◌||◌, Option, none, some, List, [], ◌∷◌, ◌++◌, map, any, ◌==◌,
  is_some, if◌then◌else◌,
}
use wealth_management.Prelude.Int.{ℤ, pos, negsuc}
use wealth_management.Prelude.Text.{Text, codes, text_eq, trim_space, is_empty}
use wealth_management.Currency.{is_iso4217}
use wealth_management.Reconciliation.Types.{
  AccountEvidence, Candidate, card_last_four, Platform, Patterns,
}
use wealth_management.Reconciliation.Accounts.{normalize_account_matching_key}
use wealth_management.Reconciliation.Amounts.{amount_representations}

abbrev semantic_card_last_four_patterns : List Text
semantic_card_last_four_patterns =
    codes "(?i)(?:^|[^[:alnum:]])(?:[*x•][[:space:]-]*){2,}([0-9]{4})(?:[^0-9]|$)"
    ∷ codes
        "(?i)(?:^|[^[:alnum:]])(?:card|master[[:space:]-]*card|visa|amex|american[[:space:]-]*express)[[:space:]:#()/.-]{0,16}([0-9]{4})(?:[^0-9]|$)"
    ∷ codes
        "(?i)(?:^|[^[:alnum:]])(?:card|master[[:space:]-]*card|visa|amex|american[[:space:]-]*express)[^0-9\\r\\n]{0,48}(?:ending(?:[[:space:]]+in)?|ends(?:[[:space:]]+in)?|last[[:space:]]+(?:four|4)|suffix)[^0-9\\r\\n]{0,16}([0-9]{4})(?:[^0-9]|$)"
    ∷ codes
        "(?i)(?:^|[^[:alnum:]])(?:card|amex|american[[:space:]-]*express)[^0-9\\r\\n]{0,48}(?:ending(?:[[:space:]]+in)?|ends(?:[[:space:]]+in)?)[^0-9\\r\\n]{0,16}[0-9]{2}([0-9]{4})(?:[^0-9]|$)"
    ∷ []

abbrev qualified_amount_start : Text
qualified_amount_start = codes "(?:^|[^[:alnum:]_.,])"

abbrev qualified_amount_end : Text
qualified_amount_end = codes "(?:$|[^[:alnum:]_.,]|[.,](?:[^0-9]|$))"

unfoldable pub safe_currency_symbol : Text → Option Text
safe_currency_symbol code =
    if text_eq code (codes "SGD")
    then some (codes "S$")
    else if text_eq code (codes "USD")
    then some (codes "US$")
    else none

-- The first groups of the matches, each once.
unfoldable pub add_groups : List (List Text) → List Text → List Text
unfolding any
add_groups [] values = values
add_groups ([] ∷ found) values = add_groups found values
add_groups ((_ ∷ []) ∷ found) values = add_groups found values
add_groups ((_ ∷ group ∷ _) ∷ found) values =
    add_groups found (if any (text_eq group) values then values else group ∷ values)

module _ (p : Platform) (r : Patterns) where
  unfoldable pub contextual_values : List Text → Text → List Text → List Text
  contextual_values [] source values = values
  contextual_values (pattern ∷ patterns) source values =
      contextual_values patterns source (add_groups (r.find_all pattern source) values)

  unfoldable pub has_semantically_corroborated_card_last_four : Text → Text → Bool
  has_semantically_corroborated_card_last_four value source =
      elim (normalize_account_matching_key p.lower_rune card_last_four value) [
        | none ↦ false
        | some normalized ↦ elim (contextual_values semantic_card_last_four_patterns source []) [
          | [] ↦ false
          | v ∷ vs ↦ elim vs [ [] ↦ text_eq v normalized | _ ∷ _ ↦ false ]
        ]
      ]

  unfoldable pub has_bounded_literal : Text → Text → Bool
  has_bounded_literal value source =
      let trimmed = trim_space value in
      not (is_empty trimmed)
      && r.matches (codes "(?i)(^|[^[:alnum:]])" ++ r.quote trimmed ++ codes "([^[:alnum:]]|$)")
          source

  unfoldable pub has_bounded_account_identifier : AccountEvidence → Text → Bool
  has_bounded_account_identifier evidence source =
      has_semantically_corroborated_card_last_four evidence.card_last_four source
      || has_bounded_literal evidence.masked_bank_reference source

  unfoldable pub has_reference : List Text → Text → Bool
  unfolding any
  has_reference values source = any (λ value. has_bounded_literal value source) values

  -- The code before the amount.
  unfoldable pub code_first : Text → Text → Text
  code_first code numeric =
      codes "(?i)(?:^|[^[:alnum:]_])"
      ++ code
      ++ codes "[[:space:]]*"
      ++ r.quote numeric
      ++ qualified_amount_end

  unfoldable pub code_last : Text → Text → Text
  code_last code numeric =
      codes "(?i)"
      ++ qualified_amount_start
      ++ r.quote numeric
      ++ codes "[[:space:]]*"
      ++ code
      ++ codes "(?:[^[:alnum:]_]|$)"

  unfoldable pub symbol_first : Text → Text → Text
  symbol_first symbol numeric =
      codes "(?i)(?:^|[^[:alnum:]_$])"
      ++ r.quote symbol
      ++ codes "[[:space:]]*"
      ++ r.quote numeric
      ++ qualified_amount_end

  -- Whether the source matches one of the patterns for the amounts.
  unfoldable pub matches_amount : Text → List Text → Text → Bool
  unfolding any
  matches_amount code amounts source =
      any
        (λ numeric.
          r.matches (code_first code numeric) source || r.matches (code_last code numeric) source)
        amounts
      || elim (safe_currency_symbol code) [
        | none ↦ false
        | some symbol ↦ any (λ numeric. r.matches (symbol_first symbol numeric) source) amounts
      ]

  unfoldable pub has_qualified_amount : ℤ → Text → Text → Bool
  has_qualified_amount (negsuc _) code source = false
  has_qualified_amount (pos minor) code source =
      elim (minor == 0 || not (is_iso4217 p.upper_rune p.parse_iso code)) [
        | true ↦ false
        | false ↦ elim (r.scale code) [
          | none ↦ false
          | some scale ↦
              matches_amount (map p.upper_rune code) (amount_representations minor scale) source
        ]
      ]

  unfoldable pub derive_auto_eligibility : Candidate → Text → Bool
  derive_auto_eligibility c source =
      has_bounded_account_identifier c.account_evidence source
      && has_qualified_amount c.original_amount_minor c.original_currency source
      && (has_bounded_literal c.merchant_name source || has_reference c.references source)

  unfoldable pub sanitize_account_evidence_for_matching : AccountEvidence → Text → AccountEvidence
  unfolding any
  sanitize_account_evidence_for_matching evidence source =
      let suffix = trim_space evidence.card_last_four in
      if is_empty suffix
        || not (is_some (normalize_account_matching_key p.lower_rune card_last_four suffix))
        || has_semantically_corroborated_card_last_four suffix source
      then evidence
      else record evidence {
        card_last_four = [];
        additional_identifiers =
            if any (λ existing. text_eq (trim_space existing) suffix)
              evidence.additional_identifiers
            then evidence.additional_identifiers
            else evidence.additional_identifiers ++ (suffix ∷ []);
      }
