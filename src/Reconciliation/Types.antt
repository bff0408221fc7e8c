-- ===== src/Reconciliation/Types.antt =====
-- The data of backend/internal/reconciliation/reconciliation.go. An identifier is a string there.
use wealth_management.Prelude.{ℕ, ◌^◌, ◌*◌, Bool, true, false, ◌&&◌, Option, List}
use wealth_management.Prelude.Int.{ℤ, pos, ltb_ℤ, leb_ℤ}
use wealth_management.Prelude.Text.{Text}
use wealth_management.GoTime.{Time}

-- A `float64`: what is finite is a multiple of 2^-1074.
pub data Float64 : Type 0 where
  nan infinity neg_infinity : Float64
  finite : ℤ → Float64

abbrev pub one_bits : ℕ
one_bits = 2 ^ 1074

abbrev pub three_quarters_bits : ℕ
three_quarters_bits = 3 * 2 ^ 1072

-- `validConfidence`: between 0 and 1.
unfoldable pub valid_confidence : Float64 → Bool
valid_confidence nan = false
valid_confidence infinity = false
valid_confidence neg_infinity = false
valid_confidence (finite a) = leb_ℤ (pos 0) a && leb_ℤ a (pos one_bits)

-- `value < minimumCreateConfidence`, that is 0.75.
unfoldable pub below_minimum : Float64 → Bool
below_minimum nan = false
below_minimum infinity = false
below_minimum neg_infinity = true
below_minimum (finite a) = ltb_ℤ a (pos three_quarters_bits)

pub data TransactionKind : Type 0 where
  debit credit : TransactionKind
  other : Text → TransactionKind

pub data Outcome : Type 0 where
  attach create review dangling : Outcome

pub record AccountEvidence : Type 0 where
  pub card_last_four : Text
  pub masked_bank_reference : Text
  pub additional_identifiers : List Text

pub data KeyType : Type 0 where
  card_last_four bank_account_suffix : KeyType
  other_key : Text → KeyType

pub record AccountMatchingKey : Type 0 where
  pub key_type : KeyType
  pub normalized_value : Text

pub record AccountIdentity : Type 0 where
  pub id : Text
  pub user_id : Text
  pub matching_keys : List AccountMatchingKey

pub record LineItem : Type 0 where
  pub schema_version : ℤ
  pub description : Text
  pub quantity : ℤ
  pub unit_price_minor : Option ℤ
  pub line_total_minor : Option ℤ
  pub tax_minor : Option ℤ
  pub discount_minor : Option ℤ
  pub currency : Text
  pub details : Text

pub record Candidate : Type 0 where
  pub user_id : Text
  pub kind : TransactionKind
  pub title : Text
  pub merchant_name : Text
  pub original_amount_minor : ℤ
  pub original_currency : Text
  pub sgd_amount_minor : Option ℤ
  pub occurred_at : Time
  pub references : List Text
  pub account_evidence : AccountEvidence
  pub line_items : List LineItem
  pub category_leaf_name : Text
  pub confidence : Float64
  pub auto_eligible : Bool

pub record Transaction : Type 0 where
  pub id : Text
  pub user_id : Text
  pub account_id : Text
  pub kind : TransactionKind
  pub merchant_name : Text
  pub original_amount_minor : ℤ
  pub original_currency : Text
  pub occurred_at : Time
  pub references : List Text

pub record MatchScore : Type 0 where
  pub account_score : ℕ
  pub reference_score : ℕ
  pub amount_score : ℕ
  pub currency_score : ℕ
  pub merchant_score : ℕ
  pub time_score : ℕ

pub record Decision : Type 0 where
  pub outcome : Outcome
  pub reason : Text
  pub account_id : Text
  pub transaction_id : Text
  pub score : MatchScore

-- What the code takes from Go's Unicode tables, the currency registry and encoding/json: the last two
-- are whether a text is a JSON object, and the length of a list's encoding, unless it has none.
pub record Platform : Type 0 where
  pub upper_rune : ℕ → ℕ
  pub lower_rune : ℕ → ℕ
  pub equal_fold : Text → Text → Bool
  pub parse_iso : Text → Bool
  pub is_object : Text → Bool
  pub encoded_len : List LineItem → Option ℕ

pub record FieldEvidence : Type 0 where
  pub field : Text
  pub source_path : Text
  pub confidence : Float64

pub record ParsedResponse : Type 0 where
  pub candidate : Candidate
  pub evidence : List FieldEvidence

-- What is taken from `regexp` and from the currency tables: whether a pattern matches a text, the
-- matches of a pattern with their groups, a literal quoted for a pattern, and the number of decimals of
-- a currency, if it is registered.
pub record Patterns : Type 0 where
  pub matches : Text → Text → Bool
  pub find_all : Text → Text → List (List Text)
  pub quote : Text → Text
  pub scale : Text → Option ℕ
