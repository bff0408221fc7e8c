-- ===== src/BulkParse/Candidates.antt =====
-- `validateTransaction` and `validateLineItem` (backend/internal/bulkparse/decoder.go).
use wealth_management.Prelude.{
  Bool, true, false, not, ◌&&◌, ◌||◌, Option, none, some, List, [], ◌∷◌, ◌++◌, map, ltb, length,
  any, all, if◌then◌else◌, is_some,
}
use wealth_management.Prelude.Int.{pos, ltb_ℤ, leb_ℤ, eqb_ℤ}
use wealth_management.Prelude.Text.{Text, codes, text_eq, is_empty}
use wealth_management.BulkParse.Types.{
  DocumentType, credit_card_bill, LineItem, Candidate, TransactionResult, Platform,
}
use wealth_management.BulkParse.Fields.{
  currency_pattern, card_last_four_pattern, refuse_if, first_problem, contains, bounded_required,
  bounded_optional, is_cons, has_account_evidence, validate_evidence,
}

-- `value != nil && test(*value)`.
abbrev pub is_set_and : {A : Type 0} → (A → Bool) → Option A → Bool
is_set_and test none = false
is_set_and test (some a) = test a

abbrev pub is_bill : DocumentType → Bool
is_bill credit_card_bill = true
is_bill _ = false

unfoldable pub validate_line_item : Platform → LineItem → Text → Option Text
unfolding any
validate_line_item p item currency = first_problem (
    refuse_if
      (not (eqb_ℤ item.schema_version (pos 1))
        || not (bounded_required item.description 250)
        || ltb_ℤ item.quantity (pos 1)
        || not (text_eq item.currency currency)
        || is_empty item.details
        || not (p.is_json item.details))
      (codes "line item is invalid")
    ∷ refuse_if (not (p.is_object item.details)) (codes "line item details must be an object")
    ∷ refuse_if
        (any (is_set_and (λ amount. ltb_ℤ amount (pos 0))) (
          item.unit_price_minor ∷ item.line_total_minor ∷ item.tax_minor ∷ item.discount_minor
          ∷ []))
        (codes "line item amount is invalid")
    ∷ [])

unfoldable pub valid_bill_line_kind : Text → Bool
unfolding any
valid_bill_line_kind value =
    any (text_eq value)
      (codes "activity" ∷ codes "refund" ∷ codes "fee" ∷ codes "interest" ∷ codes "payment" ∷ [])

-- The kind of transaction that a line of a bill must be.
unfoldable pub want_kind : Text → Text
want_kind line_kind =
    if text_eq line_kind (codes "refund") || text_eq line_kind (codes "payment")
    then codes "credit"
    else codes "debit"

unfoldable pub bill_line_problem : DocumentType → Candidate → Option Text
bill_line_problem credit_card_bill c = first_problem (
    refuse_if (ltb_ℤ c.line_index (pos 1) || not (valid_bill_line_kind c.line_kind))
      (codes "credit card line_index or line_kind is invalid")
    ∷ refuse_if (not (text_eq c.transaction_kind (want_kind c.line_kind))) (
        codes "credit card "
        ++ c.line_kind
        ++ codes " line must be a Card "
        ++ want_kind c.line_kind)
    ∷ [])
bill_line_problem _ c =
    refuse_if (not (eqb_ℤ c.line_index (pos 0)) || not (is_empty c.line_kind))
      (codes "generic candidates must not provide bill line fields")

abbrev pub fields_if : Bool → List Text → List Text
fields_if test fields = if test then fields else []

-- The fields that are both required and allowed.
unfoldable pub stated_fields : DocumentType → Candidate → List Text
stated_fields document c =
    codes "transaction_kind"
    ∷ codes "title"
    ∷ codes "original_amount_minor"
    ∷ codes "original_currency"
    ∷ codes "occurred_on"
    ∷ (fields_if (not (is_empty c.merchant_name)) (codes "merchant_name" ∷ [])
        ++ (fields_if (is_some c.sgd_amount_minor) (codes "sgd_amount_minor" ∷ [])
            ++ (fields_if (is_cons c.references) (codes "references" ∷ [])
                ++ (fields_if (has_account_evidence c.account_evidence)
                      (codes "account_evidence" ∷ [])
                    ++ (fields_if (is_cons c.line_items) (codes "line_items" ∷ [])
                        ++ (fields_if (not (is_empty c.category_leaf_name))
                              (codes "category_leaf_name" ∷ [])
                            ++ (fields_if c.possible_internal_transfer
                                  (codes "possible_internal_transfer" ∷ [])
                                ++ (fields_if (is_bill document)
                                    (codes "line_index" ∷ codes "line_kind" ∷ [])))))))))

-- `required` and `allowedEvidence`, without their order.
unfoldable pub required_fields : DocumentType → Bool → Candidate → List Text
required_fields document server_bound c =
    fields_if (not server_bound) (codes "account_ref" ∷ []) ++ stated_fields document c

unfoldable pub allowed_fields : DocumentType → Candidate → List Text
allowed_fields document c = codes "account_ref" ∷ stated_fields document c

module _ (p : Platform) where
  unfoldable pub line_items_problem : Text → List LineItem → Option Text
  line_items_problem currency items =
      first_problem (map (λ item. validate_line_item p item currency) items)

  -- The checks of a candidate by itself.
  unfoldable pub candidate_problem : List Text → Candidate → Option Text
  unfolding all
  candidate_problem allowed c = first_problem (
      refuse_if
        (not (text_eq c.transaction_kind (codes "debit"))
          && not (text_eq c.transaction_kind (codes "credit")))
        (codes "transaction_kind is invalid")
      ∷ refuse_if
          (leb_ℤ c.original_amount_minor (pos 0)
            || not (p.matches currency_pattern c.original_currency)
            || is_set_and (λ amount. leb_ℤ amount (pos 0)) c.sgd_amount_minor)
          (codes "transaction amount or currency is invalid")
      ∷ refuse_if
          (not (bounded_required c.title 250)
            || not (bounded_optional c.merchant_name 250)
            || not (bounded_optional c.category_leaf_name 100))
          (codes "transaction text is invalid")
      ∷ refuse_if (not (text_eq c.time_precision (codes "date")))
          (codes "time_precision must be date")
      ∷ refuse_if (not (p.is_date c.occurred_on)) (codes "occurred_on must be a calendar date")
      ∷ refuse_if (not (contains c.account_ref allowed)) (codes "account_ref is not allowed")
      ∷ refuse_if
          (ltb 50 (length c.references)
            || ltb 100 (length c.line_items)
            || ltb 20 (length c.account_evidence.additional_identifiers))
          (codes "transaction arrays exceed limits")
      ∷ refuse_if
          (not (is_empty c.account_evidence.card_last_four)
            && not (p.matches card_last_four_pattern c.account_evidence.card_last_four))
          (codes "card_last_four must contain exactly four digits")
      ∷ refuse_if (not (bounded_optional c.account_evidence.masked_bank_reference 500))
          (codes "masked bank reference is invalid")
      ∷ refuse_if
          (not (
            all (λ value. bounded_required value 500)
              (c.references ++ c.account_evidence.additional_identifiers)))
          (codes "transaction reference is invalid")
      ∷ line_items_problem c.original_currency c.line_items
      ∷ [])

  unfoldable pub validate_transaction :
      TransactionResult → DocumentType → List Text → Bool → Option (List Text) → Option Text
  validate_transaction result document allowed server_bound manifest =
      let c = result.candidate in
      first_problem (
        candidate_problem allowed c
        ∷ bill_line_problem document c
        ∷ validate_evidence p result.evidence (required_fields document server_bound c)
            (allowed_fields document c) [] manifest
        ∷ [])
