-- ===== src/CreditCard/Service/Lines.antt =====
-- `AttachLine`, `CreateLineTransaction`, `IgnoreLine` and `CorrectHeader`
-- (backend/internal/creditcard/service.go).
use wealth_management.Prelude.{
  ◌+◌, Bool, true, false, not, ◌&&◌, ◌||◌, Option, none, some, [], ◌∷◌, ◌++◌, ◌==◌, is_some,
}
use wealth_management.Prelude.Text.{Text, codes}
use wealth_management.Prelude.Decimal.{decimal}
use wealth_management.GoTime.{Time, utc}
use wealth_management.CreditCard.Types.{
  Uuid, nil_uuid, validation, wrapped, duplicate_transaction, LineKind, activity, refund, fee,
  interest, linked, ignored, CanonicalTransaction, Bill, BillLine, CorrectHeaderInput, is_review,
}
use wealth_management.CreditCard.Action.{
  Result, ok, err, Action, pure, lift, ◌>>=◌, ◌>>◌, fail_if, Service, now, transact,
}
use wealth_management.CreditCard.Rules.{
  replace_line, bounded_reason, validate_idempotency_key, request_hash, apply_header_correction,
  validate_header_fields,
}
use wealth_management.CreditCard.Matching.{validate_line_transaction}
use wealth_management.CreditCard.Payment.{
  resolve_payment, append_event, append_payment_resolution_events,
}
use wealth_management.CreditCard.Requests.{
  AttachLineRequest, CreateLineRequest, ReasonedMutationRequest, HeaderCorrectionRequest,
  claim_bill_mutation, or_replay, load_bill, load_mutable_line, save_resolved,
}

abbrev pub creates_transaction : LineKind → Bool
creates_transaction activity = true
creates_transaction refund = true
creates_transaction fee = true
creates_transaction interest = true
creates_transaction _ = false

abbrev pub link_line : BillLine → CanonicalTransaction → Option Text → Time → BillLine
link_line line transaction exception time = record line {
  status = linked;
  transaction_id = some transaction.id;
  transaction = some transaction;
  link_exception_reason = exception;
  updated_at = utc time;
}

abbrev pub pinned_transaction : Result (Option Text) → Result (Unit {0})
pinned_transaction (ok _) = ok tt
pinned_transaction (err e) = err (wrapped "pinned candidate returned an invalid transaction" e)

abbrev pub empty_correction : CorrectHeaderInput → Bool
empty_correction header =
    not (is_some header.period_start)
    && not (is_some header.period_end)
    && not (is_some header.statement_date)
    && not (is_some header.due_date)
    && not (is_some header.settlement_currency)
    && not (is_some header.amount_due_minor)

module _ {S : Type 0} (s : Service S) (user : Uuid) where
  unfoldable pub attach_line : Uuid → Uuid → AttachLineRequest → Action S Bill
  attach_line bill_id line_id request = transact s do
    (bill, line) ← load_mutable_line s user bill_id line_id request.expected_version
    transaction ← s.tx.get_transaction_for_update user request.transaction_id
    taken ← s.tx.is_transaction_linked_to_another_line user transaction.id line.id
    fail_if taken duplicate_transaction
    exception ← lift (validate_line_transaction bill line transaction request.link_exception_reason)
    time ← now s
    let linked_line = link_line line transaction exception time
    s.tx.save_line user linked_line
    (resolved, resolution) ← resolve_payment s user (replace_line bill linked_line)
    save_resolved s user request.expected_version "line_linked" []
        (("line_id", s.uuid_text line.id) ∷ ("transaction_id", s.uuid_text transaction.id) ∷ [])
        bill.status resolved resolution

  unfoldable pub create_line_transaction : Uuid → Uuid → CreateLineRequest → Text → Action S Bill
  create_line_transaction bill_id line_id request key = do
    lift (validate_idempotency_key key)
    let hash = request_hash s (codes "create-line-transaction") bill_id (
        decimal request.expected_version
        ++ (0 ∷ [])
        ++ s.uuid_text line_id
        ++ (0 ∷ [])
        ++ s.uuid_text request.category_id)
    transact s do
      stored ← claim_bill_mutation s user key "create_line_transaction" bill_id hash
      or_replay stored do
        (bill, line) ← load_mutable_line s user bill_id line_id request.expected_version
        fail_if
            (request.category_id == nil_uuid
              || not (is_some line.bulk_candidate_id)
              || not (creates_transaction line.kind))
            (validation "this line cannot create a transaction")
        created ←
            s.tx.create_transaction_from_pinned_candidate user bill.id line.id request.category_id
        lift (pinned_transaction (validate_line_transaction bill line created.transaction none))
        time ← now s
        let linked_line = link_line line created.transaction line.link_exception_reason time
        s.tx.save_line user linked_line
        (resolved, resolution) ← resolve_payment s user (replace_line bill linked_line)
        result ←
            save_resolved s user request.expected_version "line_transaction_created" []
              (("line_id", s.uuid_text line.id)
                ∷ ("transaction_id", s.uuid_text created.transaction.id)
                ∷ [])
              bill.status resolved resolution
        s.tx.complete_idempotency user key "create_line_transaction" bill_id hash (some result) 200
        pure result

  unfoldable pub ignore_line : Uuid → Uuid → ReasonedMutationRequest → Action S Bill
  ignore_line bill_id line_id request = do
    reason ← lift (bounded_reason request.reason)
    transact s do
      (bill, line) ← load_mutable_line s user bill_id line_id request.expected_version
      time ← now s
      let ignored_line = record line {
        status = ignored;
        resolution_reason = some reason;
        updated_at = utc time;
      }
      s.tx.save_line user ignored_line
      (resolved, resolution) ← resolve_payment s user (replace_line bill ignored_line)
      save_resolved s user request.expected_version "line_ignored" reason
          (("line_id", s.uuid_text line.id) ∷ []) bill.status resolved resolution

  unfoldable pub correct_header : Uuid → HeaderCorrectionRequest → Action S Bill
  correct_header bill_id request = do
    fail_if (empty_correction request.header) (validation "at least one header field is required")
    reason ← lift (bounded_reason request.header.reason)
    transact s do
      bill ← load_bill s user bill_id request.expected_version
      fail_if (not (is_review bill.status)) (validation "only Review bills can be corrected")
      let corrected = apply_header_correction s bill request.header
      lift (validate_header_fields s corrected false)
      (resolved, resolution) ← resolve_payment s user corrected
      time ← now s
      result ←
          s.tx.save_bill user
            (record resolved { version = resolved.version + 1; updated_at = utc time })
            request.expected_version
      append_event s user resolved.id "header_corrected" reason [] none none
      append_payment_resolution_events s user resolved.id bill.status result.status resolution
      pure result
