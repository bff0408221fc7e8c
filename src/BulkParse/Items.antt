-- ===== src/BulkParse/Items.antt =====
-- The rules of a line item and of a line of a bill (backend/internal/bulkparse/decoder.go).
use wealth_management.Prelude.{
  true, false, Option, none, some, List, [], ◌∷◌, any, ◌≡◌, ◌≢◌, ◌⊎◌, inl, inr, arith, ap, ◌∙◌,
  Bool-cases,
}
use wealth_management.Prelude.Int.{ℤ, pos, ◌≤ℤ◌, ltb_ℤ, eqb_ℤ_iff}
use wealth_management.Prelude.Text.{Text, codes, text_eq, text_eq_iff, is_empty}
use wealth_management.BulkParse.Types.{LineItem, Platform}
use wealth_management.BulkParse.Fields.{bounded_required}
use wealth_management.BulkParse.Candidates.{
  is_set_and, validate_line_item, valid_bill_line_kind, want_kind,
}
use wealth_management.BulkParse.Problems.{first_problem-none, refuse_if-none}

abbrev pub NotNegative : Option ℤ → Type 0
NotNegative none = Unit
NotNegative (some amount) = pos 0 ≤ℤ amount

pub record IsLineItem (p : Platform) (currency : Text) (item : LineItem) : Type 0 where
  pub version : item.schema_version ≡ pos 1
  pub description : bounded_required item.description 250 ≡ true
  pub quantity : pos 1 ≤ℤ item.quantity
  pub same_currency : item.currency ≡ currency
  pub details : item.details ≢ []
  pub is_json : p.is_json item.details ≡ true
  pub is_object : p.is_object item.details ≡ true
  pub unit_price : NotNegative item.unit_price_minor
  pub line_total : NotNegative item.line_total_minor
  pub tax : NotNegative item.tax_minor
  pub discount : NotNegative item.discount_minor

not_negative_of :
    (value : Option ℤ)
    → is_set_and (λ amount. ltb_ℤ amount (pos 0)) value ≡ false
    → NotNegative value
not_negative_of none h = tt
not_negative_of (some amount) h = ground arith

not_empty : (s : Text) → is_empty s ≡ false → s ≢ []
not_empty [] h e = ground arith
not_empty (c ∷ s) h e = ground arith

pub validate_line_item-IsLineItem :
    (p : Platform) (item : LineItem) (currency : Text)
    → validate_line_item p item currency ≡ none
    → IsLineItem p currency item
unfolding validate_line_item any
validate_line_item-IsLineItem p item currency h =
    let (a, (o, (m, _))) = first_problem-none _ h in
    let fields = refuse_if-none _ _ a in
    let amounts = refuse_if-none _ _ m in
    record {
      version = (eqb_ℤ_iff item.schema_version (pos 1)).0 (ground arith);
      description = ground arith;
      quantity = ground arith;
      same_currency = (text_eq_iff item.currency currency).0 (ground arith);
      details = not_empty item.details (ground arith);
      is_json = ground arith;
      is_object = ground (arith, refuse_if-none _ _ o);
      unit_price = not_negative_of item.unit_price_minor (ground arith);
      line_total = not_negative_of item.line_total_minor (ground arith);
      tax = not_negative_of item.tax_minor (ground arith);
      discount = not_negative_of item.discount_minor (ground arith);
    }

-- The kind of a line of a bill, and the kind of transaction that it must be.
abbrev pub IsBillKind : Text → Text → Type 0
IsBillKind line transaction =
    (((line ≡ codes "refund") ⊎ (line ≡ codes "payment")) × (transaction ≡ codes "credit"))
    ⊎ (((line ≡ codes "activity") ⊎ ((line ≡ codes "fee") ⊎ (line ≡ codes "interest")))
        × (transaction ≡ codes "debit"))

one_of :
    (k a : Text) (rest : List Text)
    → any (text_eq k) (a ∷ rest) ≡ true
    → (k ≡ a) ⊎ (any (text_eq k) rest ≡ true)
unfolding any
one_of k a rest h = elim (Bool-cases (text_eq k a)) [
  | inl e ↦ inl ((text_eq_iff k a).0 e)
  | inr e ↦ inr (ground arith)
]

pub valid_bill_line_kind-IsBillKind :
    (line transaction : Text)
    → valid_bill_line_kind line ≡ true
    → transaction ≡ want_kind line
    → IsBillKind line transaction
unfolding valid_bill_line_kind want_kind text_eq any
valid_bill_line_kind-IsBillKind line transaction h w =
    elim (one_of line (codes "activity")
      (codes "refund" ∷ codes "fee" ∷ codes "interest" ∷ codes "payment" ∷ []) h) [
        | inl e ↦ inr (inl e, w ∙ ap want_kind e)
        | inr h1 ↦
            elim (one_of line (codes "refund")
              (codes "fee" ∷ codes "interest" ∷ codes "payment" ∷ []) h1) [
                | inl e ↦ inl (inl e, w ∙ ap want_kind e)
                | inr h2 ↦
                    elim (one_of line (codes "fee") (codes "interest" ∷ codes "payment" ∷ []) h2) [
                      | inl e ↦ inr (inr (inl e), w ∙ ap want_kind e)
                      | inr h3 ↦ elim (one_of line (codes "interest") (codes "payment" ∷ []) h3) [
                        | inl e ↦ inr (inr (inr e), w ∙ ap want_kind e)
                        | inr h4 ↦ elim (one_of line (codes "payment") [] h4) [
                          | inl e ↦ inl (inr e, w ∙ ap want_kind e)
                          | inr h5 ↦ ground arith
                        ]
                      ]
                    ]
              ]
      ]
