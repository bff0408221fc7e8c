-- ===== src/BulkParse/Accepted.antt =====
-- What `validateTransaction` and `validateBillSummary` accept
-- (backend/internal/bulkparse/decoder.go).
use wealth_management.Prelude.{
  Bool, true, false, not, ◌&&◌, ◌||◌, Option, none, some, List, [], ◌∷◌, ◌++◌, map, All, All-map,
  all, length, ◌≤◌, ◌≡◌, ◌⊎◌, refl, inl, inr, arith, Bool-cases, is_some,
}
use wealth_management.Prelude.Int.{ℤ, pos, ◌≤ℤ◌, ltb_ℤ, leb_ℤ, eqb_ℤ, eqb_ℤ_iff}
use wealth_management.Prelude.Text.{Text, codes, text_eq_iff, is_empty}
use wealth_management.BulkParse.Types.{
  DocumentType, generic_document, credit_card_bill, other_document, BillSummary, Candidate,
  TransactionResult, Platform,
}
use wealth_management.BulkParse.Fields.{
  currency_pattern, contains, bounded_required, bounded_optional, card_last_four_pattern,
}
use wealth_management.BulkParse.Candidates.{
  is_set_and, fields_if, validate_line_item, want_kind, bill_line_problem, required_fields,
  allowed_fields, line_items_problem, candidate_problem, validate_transaction,
}
use wealth_management.BulkParse.Summary.{
  dates, is_after, dates_problem, card_problem, card_field, summary_fields, validate_bill_summary,
}
use wealth_management.BulkParse.Problems.{first_problem-none, refuse_if-none}
use wealth_management.BulkParse.Items.{
  IsLineItem, validate_line_item-IsLineItem, IsBillKind, valid_bill_line_kind-IsBillKind,
}
use wealth_management.BulkParse.Cited.{
  IsCited, AreCited, AreSummaryCited, required_fields-AreCited, summary_fields-AreCited,
}
use wealth_management.BulkParse.Evidence.{IsEvidence, validate_evidence_iff}

All-unmap :
    {A B : Type 0} (P : B → Type 0) (f : A → B) (xs : List A)
    → All P (map f xs)
    → All (λ x. P (f x)) xs
All-unmap P f [] h = tt
All-unmap P f (x ∷ xs) (h, hs) = (h, All-unmap P f xs hs)

All-of_all :
    {A : Type 0} (f : A → Bool) (xs ys : List A)
    → all f (xs ++ ys) ≡ true
    → All (λ x. f x ≡ true) xs × All (λ y. f y ≡ true) ys
unfolding all
All-of_all f [] [] h = (tt, tt)
All-of_all f [] (y ∷ ys) h = (tt, (ground arith, (All-of_all f [] ys (ground arith)).1))
All-of_all f (x ∷ xs) ys h =
    let (hx, hy) = All-of_all f xs ys (ground arith) in ((ground arith, hx), hy)

module _ (p : Platform) where
  -- The facts of a candidate, whatever the document.
  pub record IsCandidate (allowed : List Text) (c : Candidate) : Type 0 where
    pub kind : (c.transaction_kind ≡ codes "debit") ⊎ (c.transaction_kind ≡ codes "credit")
    pub amount : pos 1 ≤ℤ c.original_amount_minor
    pub currency : p.matches currency_pattern c.original_currency ≡ true
    pub sgd_amount : is_set_and (λ amount. leb_ℤ amount (pos 0)) c.sgd_amount_minor ≡ false
    pub title : bounded_required c.title 250 ≡ true
    pub merchant : bounded_optional c.merchant_name 250 ≡ true
    pub category : bounded_optional c.category_leaf_name 100 ≡ true
    pub precision : c.time_precision ≡ codes "date"
    pub date : p.is_date c.occurred_on ≡ true
    pub account : contains c.account_ref allowed ≡ true
    pub references : length c.references ≤ 50
    pub line_items : length c.line_items ≤ 100
    pub identifiers : length c.account_evidence.additional_identifiers ≤ 20
    pub card :
        (c.account_evidence.card_last_four ≡ [])
        ⊎ (p.matches card_last_four_pattern c.account_evidence.card_last_four ≡ true)
    pub masked : bounded_optional c.account_evidence.masked_bank_reference 500 ≡ true
    pub reference_texts : All (λ value. bounded_required value 500 ≡ true) c.references
    pub identifier_texts :
        All (λ value. bounded_required value 500 ≡ true) c.account_evidence.additional_identifiers
    pub items : All (IsLineItem p c.original_currency) c.line_items

  empty_or : (s : Text) (b : Bool) → (not (is_empty s) && not b) ≡ false → (s ≡ []) ⊎ (b ≡ true)
  empty_or [] b h = inl refl
  empty_or (c ∷ s) b h = inr (ground arith)

  not-and : (a b : Bool) → (not a && not b) ≡ false → (a ≡ true) ⊎ (b ≡ true)
  not-and a b h = ground arith

  candidate_problem-none :
      (allowed : List Text) (c : Candidate)
      → candidate_problem p allowed c ≡ none
      → IsCandidate allowed c
  unfolding candidate_problem line_items_problem
  candidate_problem-none allowed c h =
      let (k, (a, (t, (s, (d, (r, (n, (l, (m, (v, (i, _))))))))))) = first_problem-none _ h in
      let amounts = refuse_if-none _ _ a in
      let counts = refuse_if-none _ _ n in
      let texts =
        All-of_all (λ value. bounded_required value 500) c.references
          c.account_evidence.additional_identifiers (ground (arith, refuse_if-none _ _ v)) in
      record {
        kind = elim (not-and _ _ (refuse_if-none _ _ k)) [
          | inl e ↦ inl ((text_eq_iff c.transaction_kind (codes "debit")).0 e)
          | inr e ↦ inr ((text_eq_iff c.transaction_kind (codes "credit")).0 e)
        ];
        amount = ground arith;
        currency = ground arith;
        sgd_amount = ground arith;
        title = ground (arith, refuse_if-none _ _ t);
        merchant = ground (arith, refuse_if-none _ _ t);
        category = ground (arith, refuse_if-none _ _ t);
        precision =
            (text_eq_iff c.time_precision (codes "date")).0 (ground (arith, refuse_if-none _ _ s));
        date = ground (arith, refuse_if-none _ _ d);
        account = ground (arith, refuse_if-none _ _ r);
        references = ground arith;
        line_items = ground arith;
        identifiers = ground arith;
        card = empty_or _ _ (refuse_if-none _ _ l);
        masked = ground (arith, refuse_if-none _ _ m);
        reference_texts = texts.0;
        identifier_texts = texts.1;
        items =
            All-map c.line_items
              (λ item e. validate_line_item-IsLineItem p item c.original_currency e)
              (All-unmap (λ problem. problem ≡ none)
                (λ item. validate_line_item p item c.original_currency) c.line_items
                (first_problem-none _ i));
      }

  -- The fields of a line of a bill, which other documents do not have.
  abbrev pub IsLine : DocumentType → Candidate → Type 0
  IsLine credit_card_bill c = (pos 1 ≤ℤ c.line_index) × IsBillKind c.line_kind c.transaction_kind
  IsLine _ c = (c.line_index ≡ pos 0) × (c.line_kind ≡ [])

  is_empty-nil : (s : Text) → is_empty s ≡ true → s ≡ []
  is_empty-nil [] h = refl
  is_empty-nil (c ∷ s) h = ground arith

  bill_line_problem-none :
      (document : DocumentType) (c : Candidate)
      → bill_line_problem document c ≡ none
      → IsLine document c
  unfolding bill_line_problem
  bill_line_problem-none credit_card_bill c h =
      let (a, (b, _)) = first_problem-none _ h in
      let e = refuse_if-none _ _ a in
      (
        ground arith,
        valid_bill_line_kind-IsBillKind c.line_kind c.transaction_kind (ground arith) (
            (text_eq_iff c.transaction_kind (want_kind c.line_kind)).0
              (ground (arith, refuse_if-none _ _ b))),
      )
  bill_line_problem-none generic_document c h =
      let e = refuse_if-none _ _ h in
      ((eqb_ℤ_iff c.line_index (pos 0)).0 (ground arith), is_empty-nil c.line_kind (ground arith))
  bill_line_problem-none (other_document _) c h =
      let e = refuse_if-none _ _ h in
      ((eqb_ℤ_iff c.line_index (pos 0)).0 (ground arith), is_empty-nil c.line_kind (ground arith))

  -- A transaction with the facts of its candidate, its line, and its citations.
  pub record IsTransaction (document : DocumentType) (allowed : List Text) (server_bound : Bool)
      (manifest : Option (List Text)) (t : TransactionResult) : Type 0 where
    pub candidate : IsCandidate allowed t.candidate
    pub line : IsLine document t.candidate
    pub evidence :
        IsEvidence p t.evidence
          (required_fields document server_bound t.candidate)
          (allowed_fields document t.candidate)
          []
          manifest
    pub cited : AreCited document server_bound t.candidate (IsCited t.evidence [])

  pub validate_transaction-none :
      (t : TransactionResult) (document : DocumentType) (allowed : List Text) (server_bound : Bool)
      (manifest : Option (List Text))
      → validate_transaction p t document allowed server_bound manifest ≡ none
      → IsTransaction document allowed server_bound manifest t
  unfolding validate_transaction
  validate_transaction-none t document allowed server_bound manifest h =
      let (c, (l, (e, _))) = first_problem-none _ h in
      let evidence =
        (validate_evidence_iff p t.evidence (required_fields document server_bound t.candidate)
            (allowed_fields document t.candidate) [] manifest).0
          e in
      record {
        candidate = candidate_problem-none allowed t.candidate c;
        line = bill_line_problem-none document t.candidate l;
        evidence = evidence;
        cited =
            required_fields-AreCited (IsCited t.evidence []) document server_bound t.candidate
              evidence.3;
      }

  -- A summary: its card is one that is allowed, and there unless the server bound it; its dates are
  -- dates, in order; its currency is a code; its amounts are not negative, and the amount due is not 0;
  -- and its citations.
  pub record IsSummary (allowed : List Text) (server_bound : Bool) (manifest : Option (List Text))
      (s : BillSummary) : Type 0 where
    pub card : is_set_and (λ ref. not (contains ref allowed)) s.card_account_ref ≡ false
    pub card_given : (server_bound ≡ true) ⊎ (is_some s.card_account_ref ≡ true)
    pub are_dates : All (λ named. is_set_and (λ day. not (p.is_date day)) named.1 ≡ false) (dates s)
    pub period : is_after s.period_start s.period_end ≡ false
    pub due : is_after s.statement_date s.due_date ≡ false
    pub currency :
        is_set_and (λ code. not (p.matches currency_pattern code)) s.settlement_currency ≡ false
    pub amount_due : is_set_and (λ amount. ltb_ℤ amount (pos 1)) s.amount_due_minor ≡ false
    pub minimum_payment :
        is_set_and (λ amount. ltb_ℤ amount (pos 0)) s.minimum_payment_minor ≡ false
    pub previous_balance :
        is_set_and (λ amount. ltb_ℤ amount (pos 0)) s.previous_balance_minor ≡ false
    pub evidence :
        IsEvidence p s.evidence
          (fields_if (not server_bound) (card_field s) ++ summary_fields s)
          (card_field s ++ summary_fields s)
          (codes "document_summary.")
          manifest
    pub cited : AreSummaryCited server_bound s (IsCited s.evidence (codes "document_summary."))

  dates_problem-none :
      (named : List (Text × Option Text))
      → dates_problem p named ≡ none
      → All (λ n. is_set_and (λ day. not (p.is_date day)) n.1 ≡ false) named
  unfolding dates_problem
  dates_problem-none [] h = tt
  dates_problem-none ((name, value) ∷ rest) h =
      elim (Bool-cases (is_set_and (λ day. not (p.is_date day)) value)) [
        | inl e ↦ ground arith
        | inr e ↦ (e, dates_problem-none rest (ground arith))
      ]

  card_problem-none :
      (allowed : List Text) (server_bound : Bool) (ref : Option Text)
      → card_problem allowed server_bound ref ≡ none
      → (is_set_and (λ r. not (contains r allowed)) ref ≡ false)
        × ((server_bound ≡ true) ⊎ (is_some ref ≡ true))
  unfolding card_problem
  card_problem-none allowed server_bound none h = (refl, inl (ground (arith, refuse_if-none _ _ h)))
  card_problem-none allowed server_bound (some ref) h = (refuse_if-none _ _ h, inr refl)

  due_positive :
      (amount : Option ℤ)
      → is_set_and (λ a. ltb_ℤ a (pos 0) || (true && eqb_ℤ a (pos 0))) amount ≡ false
      → is_set_and (λ a. ltb_ℤ a (pos 1)) amount ≡ false
  due_positive none h = refl
  due_positive (some a) h = ground arith

  not_negative :
      (amount : Option ℤ)
      → is_set_and (λ a. ltb_ℤ a (pos 0) || (false && eqb_ℤ a (pos 0))) amount ≡ false
      → is_set_and (λ a. ltb_ℤ a (pos 0)) amount ≡ false
  not_negative none h = refl
  not_negative (some a) h = ground arith

  pub validate_bill_summary-none :
      (s : BillSummary) (allowed : List Text) (server_bound : Bool) (manifest : Option (List Text))
      → validate_bill_summary p s allowed server_bound manifest ≡ none
      → IsSummary allowed server_bound manifest s
  unfolding validate_bill_summary
  validate_bill_summary-none s allowed server_bound manifest h =
      let (c, (d, (a, (b, (u, (x, (y, (z, (e, _))))))))) = first_problem-none _ h in
      let evidence = (validate_evidence_iff p s.evidence _ _ _ manifest).0 e in
      let (card, given) = card_problem-none allowed server_bound s.card_account_ref c in
      record {
        card = card;
        card_given = given;
        are_dates = dates_problem-none (dates s) d;
        period = refuse_if-none _ _ a;
        due = refuse_if-none _ _ b;
        currency = refuse_if-none _ _ u;
        amount_due = due_positive s.amount_due_minor (refuse_if-none _ _ x);
        minimum_payment = not_negative s.minimum_payment_minor (refuse_if-none _ _ y);
        previous_balance = not_negative s.previous_balance_minor (refuse_if-none _ _ z);
        evidence = evidence;
        cited =
            summary_fields-AreCited (IsCited s.evidence (codes "document_summary.")) server_bound s
              evidence.3;
      }
