-- ===== src/CreditCard/Calls.antt =====
-- A call of any mutating method of `creditcard.Service`, as the handlers of
-- backend/internal/creditcard/http.go and the Bulk post-processor make them, and a sequence of calls
-- by any users.
pub mod History
pub mod Memory
mod Tests
use wealth_management.Prelude.{ℕ, Option, none, some, List, [], ◌∷◌}
use wealth_management.Prelude.Text.{Text}
use wealth_management.CreditCard.Types.{Uuid, Bill}
use wealth_management.CreditCard.Action.{Result, ok, err, World, Action, Service}
use wealth_management.CreditCard.Requests.{
  AttachLineRequest, CreateLineRequest, ReasonedMutationRequest, HeaderCorrectionRequest,
  PaymentCandidateRequest, PayoffRequest,
}
use wealth_management.CreditCard.Service.Lines.{
  attach_line, create_line_transaction, ignore_line, correct_header,
}
use wealth_management.CreditCard.Service.Settlement.{
  select_payment_candidate, confirm_payment_candidate, pay_in_full, void_bill, discard_review_bill,
}
use wealth_management.CreditCard.Service.Import.{project_bulk_bill}

-- The bill or document, the line, the request and the idempotency key of a call.
pub data Call : Type 0 where
  project : Uuid → ℕ → Call
  correct : Uuid → HeaderCorrectionRequest → Call
  attach : Uuid → Uuid → AttachLineRequest → Call
  create : Uuid → Uuid → CreateLineRequest → Text → Call
  ignore : Uuid → Uuid → ReasonedMutationRequest → Call
  select : Uuid → PaymentCandidateRequest → Text → Call
  confirm : Uuid → PaymentCandidateRequest → Text → Call
  pay : Uuid → PayoffRequest → Text → Call
  cancel : Uuid → ReasonedMutationRequest → Text → Call
  discard : Uuid → ℕ → Text → Call

-- The version that a call names; a projection names none.
abbrev pub expected_version : Call → ℕ
expected_version (project _ _) = 0
expected_version (correct _ q) = q.expected_version
expected_version (attach _ _ q) = q.expected_version
expected_version (create _ _ q _) = q.expected_version
expected_version (ignore _ _ q) = q.expected_version
expected_version (select _ q _) = q.expected_version
expected_version (confirm _ q _) = q.expected_version
expected_version (pay _ q _) = q.expected_version
expected_version (cancel _ q _) = q.expected_version
expected_version (discard _ n _) = n

module _ {S A : Type 0} (f : A → Option Bill) where
  forget : Result A × World S → Result (Option Bill) × World S
  forget (ok a, w) = (ok (f a), w)
  forget (err e, w) = (err e, w)

  -- A method, with the type of its answer forgotten.
  pub answered : Action S A → Action S (Option Bill)
  unfolding forget
  answered m w = forget (m w)

module _ {S : Type 0} (s : Service S) where
  pub run : Uuid → Call → Action S (Option Bill)
  run user (project document generation) =
      answered some (project_bulk_bill s user document generation)
  run user (correct id q) = answered some (correct_header s user id q)
  run user (attach id line q) = answered some (attach_line s user id line q)
  run user (create id line q key) = answered some (create_line_transaction s user id line q key)
  run user (ignore id line q) = answered some (ignore_line s user id line q)
  run user (select id q key) = answered some (select_payment_candidate s user id q key)
  run user (confirm id q key) = answered some (confirm_payment_candidate s user id q key)
  run user (pay id q key) = answered some (pay_in_full s user id q key)
  run user (cancel id q key) = answered some (void_bill s user id q key)
  run user (discard id n key) = answered (λ _. none) (discard_review_bill s user id n key)

  -- The world after a sequence of calls, successful or not.
  pub serve : List (Uuid × Call) → World S → World S
  unfolding run
  serve [] w = w
  serve ((user, call) ∷ calls) w = serve calls (run user call w).1
