-- ===== src/CreditCard/Payment.antt =====
-- How a bill's payment is found: `resolvePayment`, `lockPayoffTreatments`, and the events of a
-- mutation (backend/internal/creditcard/service.go).
use wealth_management.Prelude.{
  ℕ, suc, ◌+◌, String, Bool, true, false, not, ◌&&◌, ◌||◌, Option, none, some, List, [], ◌∷◌, ltb,
  ◌==◌, if◌then◌else◌, length,
}
use wealth_management.Prelude.Text.{Text, codes}
use wealth_management.Prelude.Decimal.{decimal}
use wealth_management.GoTime.{utc}
use wealth_management.CreditCard.Types.{
  Uuid, nil_uuid, validation, plain, BillStatus, review, unpaid, Bill, CanonicalTransaction,
  InternalTransfer, PayoffResult, status_eq,
}
use wealth_management.CreditCard.Action.{
  Result, ok, err, Action, pure, fail, lift, ◌>>=◌, ◌>>◌, fail_if, Service, now, fresh_uuid,
}
use wealth_management.CreditCard.Rules.{
  header_complete, has_pending_lines, validate_header_fields, mark_paid,
}
use wealth_management.CreditCard.Matching.{validate_bank_debit_candidate}

pub record PaymentResolution : Type 0 where
  pub searched : Bool
  pub exact_transfer_count : ℕ
  pub bank_debit_candidate_count : ℕ
  pub automatic_payoff_transfer_id : Option Uuid

abbrev pub no_search : PaymentResolution
no_search = record {
  searched = false;
  exact_transfer_count = 0;
  bank_debit_candidate_count = 0;
  automatic_payoff_transfer_id = none;
}

-- `*pointer`: a nil pointer panics, and the panic rolls the transaction back as an error does.
unfoldable pub deref : {S A : Type 0} → Option A → Action S A
unfolding pure fail
deref none = fail (plain "nil pointer dereference")
deref (some a) = pure a

-- The legs of the transfer whose treatments are locked.
abbrev pub payoff_legs : PayoffResult → List Uuid
payoff_legs result = elim result.treatment_transaction_ids [
  | [] ↦ result.transfer.debit_transaction_id ∷ result.transfer.credit_transaction_id ∷ []
  | id ∷ ids ↦ id ∷ ids
]

abbrev pub two_legs : List Uuid → Bool
two_legs (a ∷ b ∷ []) = not (a == nil_uuid) && not (b == nil_uuid) && not (a == b)
two_legs _ = false

-- The bank debits that may be chosen among, by their ids.
unfoldable pub selectable : Bill → List CanonicalTransaction → List Uuid
selectable bill [] = []
selectable bill (candidate ∷ candidates) = elim (validate_bank_debit_candidate bill candidate) [
  | ok _ ↦ candidate.id ∷ selectable bill candidates
  | err _ ↦ selectable bill candidates
]

-- The `switch` on the number of bank debits.
unfoldable pub choose_candidate :
    Bill → PaymentResolution → List CanonicalTransaction → Result (Bill × PaymentResolution)
unfolding selectable
choose_candidate bill resolution [] = ok (record bill { status = unpaid }, resolution)
choose_candidate bill resolution (candidate ∷ []) =
    elim (validate_bank_debit_candidate bill candidate) [
      | err e ↦ err e
      | ok _ ↦ ok (
        record bill {
          status = unpaid;
          payment_candidate_transaction_id = some candidate.id;
          payment_candidate_selected = false;
        },
        resolution,
      )
    ]
choose_candidate bill resolution (candidate ∷ next ∷ candidates) = ok (
  record bill {
    status = review;
    ambiguous_payment_candidates = selectable bill (candidate ∷ next ∷ candidates);
  },
  resolution,
)

-- What `resolvePayment` clears before anything else.
abbrev pub cleared : Bill → Bill
cleared bill = record bill {
  payoff_transfer_id = none;
  paid_at = none;
  payment_candidate_transaction_id = none;
  ambiguous_payment_candidates = [];
  payment_candidate_selected = false;
}

-- The first test of `resolvePayment`.
unfoldable pub needs_review : Bill → Bool
needs_review bill =
    ltb 0 bill.unresolved_candidate_count
    || not (header_complete bill)
    || has_pending_lines bill.lines

module _ {S : Type 0} (s : Service S) (user : Uuid) where
  unfoldable pub lock_payoff_treatments : PayoffResult → Action S (Unit {0})
  lock_payoff_treatments result =
      fail_if (not (two_legs (payoff_legs result)))
        (validation "payoff must return two transfer legs")
      >> s.tx.lock_system_payoff_exclusions user (payoff_legs result) "credit_card_payoff"

  -- The branches on the number of exact transfers.
  unfoldable pub settle_matches :
      Bill → Text → List InternalTransfer → Action S (Bill × PaymentResolution)
  settle_matches bill currency (match ∷ []) = do
    lock_payoff_treatments (record {
      transfer = match;
      treatment_transaction_ids = match.debit_transaction_id ∷ match.credit_transaction_id ∷ [];
    })
    paid_at ← now s
    pure (
      mark_paid bill match.id paid_at,
      record {
        searched = true;
        exact_transfer_count = 1;
        bank_debit_candidate_count = 0;
        automatic_payoff_transfer_id = some match.id;
      },
    )
  settle_matches bill currency (match ∷ next ∷ matches) = pure (
    record bill { status = review },
    record no_search { searched = true; exact_transfer_count = suc (suc (length matches)) },
  )
  settle_matches bill currency [] = do
    amount ← deref bill.amount_due_minor
    statement_date ← deref bill.statement_date
    due_date ← deref bill.due_date
    candidates ←
        s.tx.find_bank_debit_candidates user bill.id currency amount statement_date due_date
    lift (
        choose_candidate bill
          (record no_search { searched = true; bank_debit_candidate_count = length candidates })
          candidates)

  unfoldable pub search_payment : Bill → Action S (Bill × PaymentResolution)
  search_payment bill = do
    currency ← deref bill.settlement_currency
    amount ← deref bill.amount_due_minor
    statement_date ← deref bill.statement_date
    due_date ← deref bill.due_date
    matches ←
        s.tx.find_exact_payoff_transfers user bill.account_id currency amount statement_date
          due_date
    settle_matches bill currency matches

  unfoldable pub resolve_payment : Bill → Action S (Bill × PaymentResolution)
  resolve_payment given =
      let bill = cleared given in
      if needs_review bill
      then pure (record bill { status = review }, no_search)
      else elim (validate_header_fields s bill true) [
        | err _ ↦ pure (record bill { status = review }, no_search)
        | ok _ ↦ search_payment bill
      ]

  -- `newEvent`, with the event appended.
  unfoldable pub append_event :
      Uuid
      → String
      → Text
      → List (String × Text)
      → Option BillStatus
      → Option BillStatus
      → Action S (Unit {0})
  append_event bill_id kind reason details from to = do
    time ← now s
    id ← fresh_uuid s
    s.tx.append_bill_event user (record {
      id = id;
      bill_id = bill_id;
      kind = kind;
      reason = reason;
      from_status = from;
      to_status = to;
      details = details;
      created_at = utc time;
    })

  unfoldable pub append_status_change_event : Uuid → BillStatus → BillStatus → Action S (Unit {0})
  append_status_change_event bill_id from to =
      if status_eq from to
      then pure tt
      else append_event bill_id "status_changed" [] [] (some from) (some to)

  unfoldable pub append_automatic : Uuid → Option Uuid → Action S (Unit {0})
  append_automatic bill_id none = pure tt
  append_automatic bill_id (some transfer_id) =
      append_event bill_id "payment_confirmed" []
        (("detection", codes "automatic") ∷ ("transfer_id", s.uuid_text transfer_id) ∷ []) none none

  unfoldable pub append_payment_resolution_events :
      Uuid → BillStatus → BillStatus → PaymentResolution → Action S (Unit {0})
  append_payment_resolution_events bill_id from to resolution =
      (if resolution.searched
        then (append_event bill_id "payment_candidates_found" []
              (("exact_transfer_count", decimal resolution.exact_transfer_count)
                ∷ ("bank_debit_candidate_count", decimal resolution.bank_debit_candidate_count)
                ∷ [])
              none none
            >> append_automatic bill_id resolution.automatic_payoff_transfer_id)
        else pure tt)
      >> append_status_change_event bill_id from to

  unfoldable pub save_mutated_bill : Bill → ℕ → Action S Bill
  save_mutated_bill bill expected = do
    time ← now s
    s.tx.save_bill user (record bill { version = expected + 1; updated_at = utc time }) expected
