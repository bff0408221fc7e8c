-- ===== src/BulkParse/Cited.antt =====
-- Which fields of a transaction and of a summary have to be cited, and which may be
-- (backend/internal/bulkparse/decoder.go).
use wealth_management.Prelude.{
  Bool, true, false, not, Option, none, some, List, [], ◌∷◌, ◌++◌, All, any, ◌≡◌, ◌⊎◌, refl, inl,
  inr, arith, is_some,
}
use wealth_management.Prelude.Text.{Text, codes, is_empty}
use wealth_management.Reconciliation.Types.{AccountEvidence}
use wealth_management.BulkParse.Types.{DocumentType, BillSummary, Candidate, Evidence}
use wealth_management.BulkParse.Fields.{is_cons, has_account_evidence}
use wealth_management.BulkParse.Candidates.{is_bill, fields_if, stated_fields, required_fields}
use wealth_management.BulkParse.Summary.{dates, amounts, set_fields, card_field, summary_fields}
use wealth_management.BulkParse.Evidence.{names}

-- Some citation names the field, after the prefix.
abbrev pub IsCited : List Evidence → Text → Text → Type 0
IsCited es prefix field = any (λ e. names prefix e field) es ≡ true

-- Six fields are cited, the account if the server did not bind it, the place in a bill, and each other
-- field that has a value.
pub record AreCited (document : DocumentType) (server_bound : Bool) (c : Candidate)
    (cited : Text → Type 0) : Type 0 where
  pub kind : cited (codes "transaction_kind")
  pub title : cited (codes "title")
  pub amount : cited (codes "original_amount_minor")
  pub currency : cited (codes "original_currency")
  pub date : cited (codes "occurred_on")
  pub account : (server_bound ≡ true) ⊎ cited (codes "account_ref")
  pub merchant : (c.merchant_name ≡ []) ⊎ cited (codes "merchant_name")
  pub sgd_amount : (c.sgd_amount_minor ≡ none) ⊎ cited (codes "sgd_amount_minor")
  pub references : (c.references ≡ []) ⊎ cited (codes "references")
  pub evidence :
      ((c.account_evidence.card_last_four ≡ [])
        × (c.account_evidence.masked_bank_reference ≡ [])
        × (c.account_evidence.additional_identifiers ≡ []))
      ⊎ cited (codes "account_evidence")
  pub line_items : (c.line_items ≡ []) ⊎ cited (codes "line_items")
  pub category : (c.category_leaf_name ≡ []) ⊎ cited (codes "category_leaf_name")
  pub transfer : (c.possible_internal_transfer ≡ false) ⊎ cited (codes "possible_internal_transfer")
  pub place : (is_bill document ≡ false) ⊎ (cited (codes "line_index") × cited (codes "line_kind"))

-- Each value of a summary that is there is cited, the card only if the server did not bind it.
pub record AreSummaryCited (server_bound : Bool) (s : BillSummary) (cited : Text → Type 0)
    : Type 0 where
  pub card :
      (server_bound ≡ true) ⊎ ((s.card_account_ref ≡ none) ⊎ cited (codes "card_account_ref"))
  pub period_start : (s.period_start ≡ none) ⊎ cited (codes "period_start")
  pub period_end : (s.period_end ≡ none) ⊎ cited (codes "period_end")
  pub statement_date : (s.statement_date ≡ none) ⊎ cited (codes "statement_date")
  pub due_date : (s.due_date ≡ none) ⊎ cited (codes "due_date")
  pub currency : (s.settlement_currency ≡ none) ⊎ cited (codes "settlement_currency")
  pub amount_due : (s.amount_due_minor ≡ none) ⊎ cited (codes "amount_due_minor")
  pub minimum_payment : (s.minimum_payment_minor ≡ none) ⊎ cited (codes "minimum_payment_minor")
  pub previous_balance : (s.previous_balance_minor ≡ none) ⊎ cited (codes "previous_balance_minor")

module _ {A : Type 0} (P : A → Type 0) where
  All-split : (xs ys : List A) → All P (xs ++ ys) → All P xs × All P ys
  All-split [] ys h = (tt, h)
  All-split (x ∷ xs) ys (h, hs) = let (l, r) = All-split xs ys hs in ((h, l), r)

module _ (P : Text → Type 0) where
  -- The fields that are there if the test holds.
  fields_if-All :
      (test : Bool) (fields rest : List Text)
      → All P (fields_if test fields ++ rest)
      → ((test ≡ false) ⊎ All P fields) × All P rest
  fields_if-All true fields rest h = let (l, r) = All-split P fields rest h in (inr l, r)
  fields_if-All false fields rest h = (inl refl, h)

  last_fields :
      (test : Bool) (fields : List Text)
      → All P (fields_if test fields)
      → (test ≡ false) ⊎ All P fields
  last_fields true fields h = inr h
  last_fields false fields h = inl refl

  set_fields-All :
      {A : Type 0} (name : Text) (value : Option A) (rest : List (Text × Option A))
      → All P (set_fields ((name, value) ∷ rest))
      → ((value ≡ none) ⊎ P name) × All P (set_fields rest)
  unfolding set_fields
  set_fields-All name none rest h = (inl refl, h)
  set_fields-All name (some _) rest (h, hs) = (inr h, hs)

  unless_as : {B C : Type 0} {field : Text} → (B → C) → B ⊎ All P (field ∷ []) → C ⊎ P field
  unless_as f (inl b) = inl (f b)
  unless_as f (inr (h, _)) = inr h

nil_of_empty : (s : Text) → not (is_empty s) ≡ false → s ≡ []
nil_of_empty [] h = refl
nil_of_empty (c ∷ s) h = ground arith

none_of_some : {A : Type 0} (value : Option A) → is_some value ≡ false → value ≡ none
none_of_some none h = refl
none_of_some (some _) h = ground arith

nil_of_cons : {A : Type 0} (values : List A) → is_cons values ≡ false → values ≡ []
nil_of_cons [] h = refl
nil_of_cons (_ ∷ _) h = ground arith

no_account_evidence :
    (a : AccountEvidence)
    → has_account_evidence a ≡ false
    → (a.card_last_four ≡ []) × (a.masked_bank_reference ≡ []) × (a.additional_identifiers ≡ [])
unfolding has_account_evidence
no_account_evidence a h = (
  nil_of_empty a.card_last_four (ground arith),
  nil_of_empty a.masked_bank_reference (ground arith),
  nil_of_cons a.additional_identifiers (ground arith),
)

bound_of_not : (b : Bool) → not b ≡ false → b ≡ true
bound_of_not b h = ground arith

both_cited :
    (P : Text → Type 0) {b : Bool} {m n : Text}
    → (b ≡ false) ⊎ All P (m ∷ n ∷ [])
    → (b ≡ false) ⊎ (P m × P n)
both_cited P (inl e) = inl e
both_cited P (inr (h, (k, _))) = inr (h, k)

pub required_fields-AreCited :
    (P : Text → Type 0) (document : DocumentType) (server_bound : Bool) (c : Candidate)
    → All P (required_fields document server_bound c)
    → AreCited document server_bound c P
unfolding required_fields stated_fields
required_fields-AreCited P document server_bound c all_cited =
    let last = fields_if (is_bill document) (codes "line_index" ∷ codes "line_kind" ∷ []) in
    let from_possible_internal_transfer =
      fields_if c.possible_internal_transfer (codes "possible_internal_transfer" ∷ []) ++ last in
    let from_category_leaf_name =
      fields_if (not (is_empty c.category_leaf_name)) (codes "category_leaf_name" ∷ [])
      ++ from_possible_internal_transfer in
    let from_line_items =
      fields_if (is_cons c.line_items) (codes "line_items" ∷ []) ++ from_category_leaf_name in
    let from_account_evidence =
      fields_if (has_account_evidence c.account_evidence) (codes "account_evidence" ∷ [])
      ++ from_line_items in
    let from_references =
      fields_if (is_cons c.references) (codes "references" ∷ []) ++ from_account_evidence in
    let from_sgd_amount_minor =
      fields_if (is_some c.sgd_amount_minor) (codes "sgd_amount_minor" ∷ []) ++ from_references in
    let (b, (k, (t, (a, (u, (o, h)))))) =
      fields_if-All P (not server_bound) (codes "account_ref" ∷ []) (stated_fields document c)
        all_cited in
    let (m, h1) =
      fields_if-All P (not (is_empty c.merchant_name)) (codes "merchant_name" ∷ [])
        from_sgd_amount_minor h in
    let (s, h2) =
      fields_if-All P (is_some c.sgd_amount_minor) (codes "sgd_amount_minor" ∷ []) from_references
        h1 in
    let (r, h3) =
      fields_if-All P (is_cons c.references) (codes "references" ∷ []) from_account_evidence h2 in
    let (v, h4) =
      fields_if-All P (has_account_evidence c.account_evidence) (codes "account_evidence" ∷ [])
        from_line_items h3 in
    let (l, h5) =
      fields_if-All P (is_cons c.line_items) (codes "line_items" ∷ []) from_category_leaf_name h4 in
    let (g, h6) =
      fields_if-All P (not (is_empty c.category_leaf_name)) (codes "category_leaf_name" ∷ [])
        from_possible_internal_transfer h5 in
    let (x, h7) =
      fields_if-All P c.possible_internal_transfer (codes "possible_internal_transfer" ∷ []) last
        h6 in
    record {
      kind = k;
      title = t;
      amount = a;
      currency = u;
      date = o;
      account = unless_as P (bound_of_not server_bound) b;
      merchant = unless_as P (nil_of_empty c.merchant_name) m;
      sgd_amount = unless_as P (none_of_some c.sgd_amount_minor) s;
      references = unless_as P (nil_of_cons c.references) r;
      evidence = unless_as P (no_account_evidence c.account_evidence) v;
      line_items = unless_as P (nil_of_cons c.line_items) l;
      category = unless_as P (nil_of_empty c.category_leaf_name) g;
      transfer = unless_as P (λ e. e) x;
      place = both_cited P (last_fields P (is_bill document) _ h7);
    }

card_cited :
    (P : Text → Type 0) (server_bound : Bool) (value : Option Text)
    → (not server_bound ≡ false) ⊎ All P (set_fields ((codes "card_account_ref", value) ∷ []))
    → (server_bound ≡ true) ⊎ ((value ≡ none) ⊎ P (codes "card_account_ref"))
card_cited P server_bound value (inl e) = inl (bound_of_not server_bound e)
card_cited P server_bound value (inr h) =
    inr (set_fields-All P (codes "card_account_ref") value [] h).0

pub summary_fields-AreCited :
    (P : Text → Type 0) (server_bound : Bool) (s : BillSummary)
    → All P (fields_if (not server_bound) (card_field s) ++ summary_fields s)
    → AreSummaryCited server_bound s P
unfolding summary_fields
summary_fields-AreCited P server_bound s all_cited =
    let (b, h) = fields_if-All P (not server_bound) (card_field s) (summary_fields s) all_cited in
    let (d, rest) =
      All-split P (set_fields (dates s))
        (set_fields ((codes "settlement_currency", s.settlement_currency) ∷ [])
          ++ set_fields (amounts s))
        h in
    let (c, a) =
      All-split P (set_fields ((codes "settlement_currency", s.settlement_currency) ∷ []))
        (set_fields (amounts s)) rest in
    let (d0, h0) = set_fields-All P _ _ _ d in
    let (d1, h1) = set_fields-All P _ _ _ h0 in
    let (d2, h2) = set_fields-All P _ _ _ h1 in
    let (d3, _) = set_fields-All P _ _ _ h2 in
    let (c0, _) = set_fields-All P _ _ _ c in
    let (a0, k0) = set_fields-All P _ _ _ a in
    let (a1, k1) = set_fields-All P _ _ _ k0 in
    let (a2, _) = set_fields-All P _ _ _ k1 in
    record {
      card = card_cited P server_bound s.card_account_ref b;
      period_start = d0;
      period_end = d1;
      statement_date = d2;
      due_date = d3;
      currency = c0;
      amount_due = a0;
      minimum_payment = a1;
      previous_balance = a2;
    }
