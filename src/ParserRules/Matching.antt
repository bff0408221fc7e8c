-- ===== src/ParserRules/Matching.antt =====
-- Whether one rule matches a mail, and what it then yields (backend/internal/parserrules/rules.go).
use wealth_management.Prelude.{
  ℕ, zero, suc, Bool, true, false, not, ◌||◌, Option, none, some, List, [], ◌∷◌, ◌++◌, map, ◌==◌,
  any, if◌then◌else◌,
}
use wealth_management.Prelude.Int.{ℤ, pos, negsuc, ltb_ℤ}
use wealth_management.Prelude.Text.{Text, codes, text_eq, trim_space, is_empty}
use wealth_management.ParserRules.Types.{
  Rule, CaptureField, AppliedRule, UserRule, Error, invalid_provenance, invalid_match_type,
  invalid_expression, invalid_sender_expression, Library,
}

-- What a rule comes to: it is passed over, it matches, or the search ends with an error.
pub data Verdict (A : Type 0) : Type 0 where
  skip : Verdict A
  take : A → Verdict A
  fail : Error → Verdict A

abbrev is_blank : Text → Bool
is_blank s = is_empty (trim_space s)

unfoldable pub supported_field : Text → Bool
unfolding any
supported_field field = any (text_eq field) (
    codes "transaction_kind"
    ∷ codes "original_amount_minor"
    ∷ codes "original_currency"
    ∷ codes "sgd_amount_minor"
    ∷ codes "occurred_at"
    ∷ codes "merchant_name"
    ∷ codes "title"
    ∷ codes "references"
    ∷ codes "card_last_four"
    ∷ codes "masked_bank_reference"
    ∷ codes "additional_identifiers"
    ∷ codes "category_leaf_name"
    ∷ [])

-- `group >= len(match)`, and `match[group]` for a group that is not negative.
unfoldable pub get_elem? : {A : Type 0} → List A → ℕ → Option A
get_elem? [] i = none
get_elem? (x ∷ xs) zero = some x
get_elem? (x ∷ xs) (suc i) = get_elem? xs i

-- `values[field] = value`.
unfoldable pub put : Text → List Text → List (Text × List Text) → List (Text × List Text)
put field value [] = (field, value) ∷ []
put field value ((f, v) ∷ rest) =
    if text_eq f field then (field, value) ∷ rest else (f, v) ∷ put field value rest

unfoldable pub add_constants :
    List (Text × Text) → List (Text × List Text) → Option (List (Text × List Text))
add_constants [] values = some values
add_constants ((field, value) ∷ rest) values =
    if not (supported_field field) || is_blank value
    then none
    else add_constants rest (put field (trim_space value ∷ []) values)

-- The captured texts, those that are absent or blank left out.
unfoldable pub captured : ℕ → List (List Text) → List Text
captured group [] = []
captured group (found ∷ rest) = elim (get_elem? found group) [
  | none ↦ captured group rest
  | some text ↦ elim (is_blank text) [
    | true ↦ captured group rest
    | false ↦ trim_space text ∷ captured group rest
  ]
]

abbrev put_captured : Text → List Text → List (Text × List Text) → List (Text × List Text)
put_captured field [] values = values
put_captured field (c ∷ cs) values = put field (c ∷ cs) values

abbrev natural : ℤ → Option ℕ
natural (pos n) = some n
natural (negsuc _) = none

unfoldable pub sender_address : Library → Text → Text
sender_address lib value =
    let trimmed = trim_space value in
    elim (lib.parse_address trimmed) [
      | some address ↦ map lib.lower_rune (trim_space address)
      | none ↦ map lib.lower_rune trimmed
    ]

module _ (lib : Library) where
  unfoldable pub add_extractors :
      Text → List (Text × CaptureField) → List (Text × List Text) → Option (List (Text × List Text))
  add_extractors content [] values = some values
  add_extractors content ((field, extractor) ∷ rest) values = elim (natural extractor.group) [
    | none ↦ none
    | some group ↦ elim (not (supported_field field) || is_blank extractor.pattern) [
      | true ↦ none
      | false ↦ elim (lib.submatches extractor.pattern content) [
        | none ↦ none
        | some found ↦
            add_extractors content rest (put_captured field (captured group found) values)
      ]
    ]
  ]

  unfoldable pub matches : Text → Text → Bool
  matches pattern value =
      is_blank pattern || elim (lib.test pattern value) [ none ↦ false | some found ↦ found ]

  unfoldable pub apply_one : Text → Text → Rule → Verdict AppliedRule
  apply_one sender content rule =
      if is_blank rule.id || ltb_ℤ rule.version (pos 1)
      then skip
      else if not (matches rule.sender_matcher sender) || not (matches rule.content_matcher content)
      then skip
      else elim rule.extraction_config [
        | [] ↦ skip
        | c ∷ cs ↦ elim (lib.decode_config (c ∷ cs)) [
          | none ↦ skip
          | some config ↦ elim (add_constants config.constants []) [
            | none ↦ skip
            | some values ↦ elim (add_extractors content config.extractors values) [
              | none ↦ skip
              | some values' ↦ take (record {
                id = rule.id;
                name = rule.name;
                version = rule.version;
                priority = rule.priority;
                prompt_fragment = trim_space rule.prompt_fragment;
                values = values';
              })
            ]
          ]
        ]
      ]

-- The text after the last `separator`, if there is one.
unfoldable pub after_last : ℕ → Text → Option Text
after_last separator [] = none
after_last separator (c ∷ s) = elim (after_last separator s) [
  | some rest ↦ some rest
  | none ↦ if c == separator then some s else none
]

-- `strings.HasSuffix`.
unfoldable pub has_suffix : Text → Text → Bool
unfolding text_eq
has_suffix [] suffix = text_eq [] suffix
has_suffix (c ∷ s) suffix = text_eq (c ∷ s) suffix || has_suffix s suffix

-- `strings.TrimPrefix(s, "@")`.
unfoldable pub without_at : Text → Text
without_at [] = []
without_at (c ∷ s) = if c == b'@' then s else c ∷ s

-- A condition that holds or not.
abbrev pub holds_if : Bool → Verdict (Unit {0})
holds_if true = take tt
holds_if false = skip

module _ (lib : Library) where
  abbrev in_domain : Text → Text → Bool
  in_domain configured address = elim (after_last b'@' address) [
    | none ↦ false
    | some rest ↦
        let domain = map lib.lower_rune rest in
        text_eq domain configured || has_suffix domain (codes "." ++ configured)
  ]

  unfoldable pub matches_sender : Text → Text → Text → Verdict (Unit {0})
  matches_sender match_type value sender =
      let configured = trim_space value in
      if text_eq match_type (codes "exact")
      then holds_if (lib.equal_fold (sender_address lib sender) (sender_address lib configured))
      else if text_eq match_type (codes "domain")
      then holds_if
          (in_domain (without_at (map lib.lower_rune configured)) (sender_address lib sender))
      else if text_eq match_type (codes "regex")
      then elim (lib.test configured sender) [
        | none ↦ fail invalid_sender_expression
        | some found ↦ holds_if found
      ]
      else fail invalid_match_type

  -- The conditions on the subject and the content, in this order; a blank pattern is none.
  unfoldable pub matches_conditions : List (Text × Text) → Verdict (Unit {0})
  matches_conditions [] = take tt
  matches_conditions ((pattern, value) ∷ rest) = elim (is_blank pattern) [
    | true ↦ matches_conditions rest
    | false ↦ elim (lib.test pattern value) [
      | none ↦ fail invalid_expression
      | some found ↦ elim found [ true ↦ matches_conditions rest | false ↦ skip ]
    ]
  ]

  abbrev pub on_match : {A : Type 0} → Verdict (Unit {0}) → Verdict A → Verdict A
  on_match skip next = skip
  on_match (take _) next = next
  on_match (fail e) next = fail e

  unfoldable pub matches_user_rule : Text → Text → Text → UserRule → Verdict UserRule
  matches_user_rule sender subject content rule =
      if is_blank rule.id || ltb_ℤ rule.version (pos 1)
      then fail invalid_provenance
      else on_match (matches_sender rule.sender_match_type rule.sender_match_value sender) (
          on_match
            (matches_conditions
              ((rule.subject_matcher, subject) ∷ (rule.content_matcher, content) ∷ []))
            (take rule))
