-- ===== src/BulkParse/Types.antt =====
-- The data of backend/internal/bulkparse/decoder.go, and what it takes from Go's libraries.
use wealth_management.Prelude.{ℕ, Bool, true, false, ◌||◌, Option, List, ◌≡◌, ◌⊎◌, refl, inl, inr}
use wealth_management.Prelude.Int.{ℤ, pos, ltb_ℤ}
use wealth_management.Prelude.Text.{Text}
use wealth_management.Reconciliation.Types.{
  Float64, nan, infinity, neg_infinity, finite, one_bits, AccountEvidence,
}

pub data DocumentType : Type 0 where
  generic_document credit_card_bill : DocumentType
  other_document : Text → DocumentType

pub record Evidence : Type 0 where
  pub field : Text
  pub source_path : Text
  pub confidence : Float64

pub record BillSummary : Type 0 where
  pub card_account_ref : Option Text
  pub period_start : Option Text
  pub period_end : Option Text
  pub statement_date : Option Text
  pub due_date : Option Text
  pub settlement_currency : Option Text
  pub amount_due_minor : Option ℤ
  pub minimum_payment_minor : Option ℤ
  pub previous_balance_minor : Option ℤ
  pub evidence : List Evidence

pub record LineItem : Type 0 where
  pub schema_version : ℤ
  pub description : Text
  pub quantity : ℤ
  pub unit_price_minor : Option ℤ
  pub line_total_minor : Option ℤ
  pub tax_minor : Option ℤ
  pub discount_minor : Option ℤ
  pub currency : Text
  pub details : Text

pub record Candidate : Type 0 where
  pub line_index : ℤ
  pub line_kind : Text
  pub transaction_kind : Text
  pub title : Text
  pub merchant_name : Text
  pub original_amount_minor : ℤ
  pub original_currency : Text
  pub sgd_amount_minor : Option ℤ
  pub occurred_on : Text
  pub time_precision : Text
  pub references : List Text
  pub account_ref : Text
  pub account_evidence : AccountEvidence
  pub line_items : List LineItem
  pub category_leaf_name : Text
  pub possible_internal_transfer : Bool

pub record TransactionResult : Type 0 where
  pub candidate : Candidate
  pub evidence : List Evidence

-- A slice that may be nil is none for nil.
pub record Response : Type 0 where
  pub schema_version : ℤ
  pub document_summary : Option BillSummary
  pub transactions : Option (List TransactionResult)

pub record DecodeContext : Type 0 where
  pub document_type : DocumentType
  pub allowed_account_refs : List Text
  pub page_manifest : List Text

pub data Result (A : Type 0) : Type 0 where
  error : Text → Result A
  ok : A → Result A

pub Result-cases :
    {A : Type 0} (r : Result A) → ((e : Text) × (r ≡ error e)) ⊎ ((a : A) × (r ≡ ok a))
Result-cases (error e) = inl (e, refl)
Result-cases (ok a) = inr (a, refl)

pub ok-inj : {A : Type 0} {a b : A} → ok a ≡ ok b → a ≡ b
ok-inj h = cc

-- What is taken from `regexp`, `time`, `encoding/json`, `unicode` and `crypto/sha256`: whether a
-- pattern matches a text, whether a text is a date of the layout 2006-01-02, JSON, or a JSON object,
-- the strict decoding of a response without a rest, the lower case of a rune, and the digest of a text
-- in hexadecimal.
pub record Platform : Type 0 where
  pub matches : Text → Text → Bool
  pub is_date : Text → Bool
  pub is_json : Text → Bool
  pub is_object : Text → Bool
  pub decode_response : Text → Result Response
  pub lower_rune : ℕ → ℕ
  pub digest : Text → Text

-- `item.Confidence < 0 || item.Confidence > 1`.
unfoldable pub out_of_unit : Float64 → Bool
out_of_unit nan = false
out_of_unit infinity = true
out_of_unit neg_infinity = true
out_of_unit (finite a) = ltb_ℤ a (pos 0) || ltb_ℤ (pos one_bits) a
