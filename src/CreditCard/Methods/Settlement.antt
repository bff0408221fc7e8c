-- ===== src/CreditCard/Methods/Settlement.antt =====
-- `SelectPaymentCandidate`, `ConfirmPaymentCandidate`, `PayInFull`, `VoidBill` and
-- `DiscardReviewBill` make the table evolve.
use wealth_management.Prelude.{
  ℕ, ◌≡◌, refl, Bool, true, false, not, ◌||◌, ◌==◌, some, List, String, arith,
}
use wealth_management.Prelude.Text.{Text}
use wealth_management.GoTime.{Time}
use wealth_management.CreditCard.Types.{Uuid, Bill, CanonicalTransaction, is_review, is_unpaid}
use wealth_management.CreditCard.Action.{ok, Service}
use wealth_management.CreditCard.Rules.{header_complete, bounded_reason, mark_paid}
use wealth_management.CreditCard.Matching.{validate_bank_debit_candidate}
use wealth_management.CreditCard.Requests.{
  PaymentCandidateRequest, PayoffRequest, ReasonedMutationRequest,
}
use wealth_management.CreditCard.Service.Settlement.{
  select_candidate, voided, save_settled, select_payment_candidate, confirm_payment_candidate,
  pay_in_full, void_bill, claim_discard, discard_review_bill,
}
use wealth_management.CreditCard.Statement.{
  row, SameColumns, View, is_complete, complete_state, payment_state, void_state, HasSoundHeader,
  HasSoundState, IsValid, AllValid, Change, Evolves, may_become,
}
use wealth_management.CreditCard.Currencies.{bounded_reason-is_bounded}
use wealth_management.CreditCard.Contract.{
  Reads, Commits, Any, Reads-pure, Reads-lift, Reads-fail_if, Reads-now, Reads-bind, Reads-weaken,
  Commits-bind, Commits-then, Commits-of_reads, Commits-if, StoreContract,
}
use wealth_management.CreditCard.Resolution.{Reads-deref, Reads-lock}
use wealth_management.CreditCard.Evolution.{
  Written-Evolves, Reads-claim, Reads-load, Reads-load_version, Reads-event, Reads-status_event,
  Commits-save,
}
use wealth_management.CreditCard.Transacting.{
  Transacts, Transacts-transact, Transacts-lift, Transacts-fail_if,
}
use wealth_management.CreditCard.Methods.Lines.{Commits-or_replay}

-- What `save_settled` needs of the bill that it saves over `old`.
record Settles (old b : Bill) : Type 0 where
  id : b.id ≡ old.id
  columns : SameColumns (row old) (row b)
  header : HasSoundHeader (row b)
  complete : complete_state b.status (is_complete (row b)) ≡ true
  payment : payment_state b.status b.payoff_transfer_id b.paid_at ≡ true
  void : void_state b.status b.void_reason ≡ true
  edge : may_become old.status b.status ≡ true

select_candidate-Settles :
    (b : Bill) (t : CanonicalTransaction) (u : Unit {0})
    → IsValid (row b)
    → is_review b.status ≡ true
    → validate_bank_debit_candidate b t ≡ ok u
    → Settles b (select_candidate b t.id)
unfolding validate_bank_debit_candidate header_complete
select_candidate-Settles b t u h r e = ground arith

-- The database vouches for the count of what is unresolved.
settled_state :
    {old : Bill} (b : Bill)
    → Settles old b
    → (b.unresolved_candidate_count == 0 || is_review b.status) ≡ true
    → HasSoundState (row b)
settled_state b h u = record {
  complete = h.complete;
  payment = h.payment;
  unresolved = u;
  void = h.void;
}

mark_paid-Settles :
    (b : Bill) (id : Uuid) (t : Time)
    → IsValid (row b)
    → is_unpaid b.status ≡ true
    → Settles b (mark_paid b id t)
unfolding mark_paid
mark_paid-Settles b id t h r = ground arith

voided-Settles :
    (b : Bill) (given reason : Text)
    → IsValid (row b)
    → is_unpaid b.status ≡ true
    → bounded_reason given ≡ ok reason
    → Settles b (voided b reason)
voided-Settles b given reason h r e =
    let bounded = bounded_reason-is_bounded given reason e in ground arith

both_false : (a b : Bool) → (not a || not b) ≡ false → (a ≡ true) × (b ≡ true)
both_false a b h = ground arith

not-false : (a : Bool) → not a ≡ false → a ≡ true
not-false a h = ground arith

module _ {S : Type 0} (s : Service S) (view : S → View) (c : StoreContract s.tx view) (v : View)
    (valid : AllValid v) (user : Uuid) where
  Commits-save_settled :
      (old b : Bill) (expected : ℕ) (kind : String) (reason : Text) (details : List (String × Text))
      (key : Text) (operation : String) (id : Uuid) (hash : Text)
      → v old.id ≡ some (row old)
      → Settles old b
      → Commits view v
          (save_settled s user b old.status expected kind reason details key operation id hash)
          (λ _ u. Evolves expected v u)
  unfolding save_settled
  Commits-save_settled old b expected kind reason details key operation id hash stored h =
      let here : v b.id ≡ some (row old) = rw (h.id) stored in
      Commits-then _ _ (Commits-save s view c v user b expected (row old) here h.columns) λ b' u w.
        Commits-bind _ _ (Reads-event s view c u user _ _ _ _ _ _) λ _ _.
          Commits-bind _ _ (Reads-status_event s view c u user _ _ _) λ _ _.
            Commits-bind _ _ (c.complete_lem u user key operation id hash _ _) λ _ _.
              Commits-of_reads _ (Reads-pure {F = Any} b' tt) λ _ _.
                Written-Evolves v u (row old) b b' expected here h.header
                  (settled_state b h w.unresolved) h.edge w

  pub select_payment_candidate-Transacts :
      (id : Uuid) (q : PaymentCandidateRequest) (key : Text)
      → Transacts q.expected_version view v (select_payment_candidate s user id q key)
  unfolding select_payment_candidate
  select_payment_candidate-Transacts id q key = Transacts-lift _ view v _ _ λ _ _.
      Transacts-transact _ view v s _ (
        Commits-bind _ _ (Reads-claim s view c v user key _ id _) λ stored _.
          Commits-or_replay s view c v valid user q.expected_version stored _ (
            Commits-bind _ _ (Reads-load s view c v user id _) λ b h.
              Commits-bind _ _ (Reads-fail_if _ _) λ _ checked.
                let split = both_false _ _ checked in
                Commits-bind _ _ (c.get_transaction_lem v user _) λ t _.
                  Commits-bind _ _ (Reads-lift _) λ u ok_candidate.
                    Commits-save_settled b _ _ _ _ _ _ _ _ _ (rw (h.1) h.0)
                      (select_candidate-Settles b t u (valid id (row b) h.0) split.0 ok_candidate)))

  pub confirm_payment_candidate-Transacts :
      (id : Uuid) (q : PaymentCandidateRequest) (key : Text)
      → Transacts q.expected_version view v (confirm_payment_candidate s user id q key)
  unfolding confirm_payment_candidate
  confirm_payment_candidate-Transacts id q key = Transacts-lift _ view v _ _ λ _ _.
      Transacts-transact _ view v s _ (
        Commits-bind _ _ (Reads-claim s view c v user key _ id _) λ stored _.
          Commits-or_replay s view c v valid user q.expected_version stored _ (
            Commits-bind _ _ (Reads-load s view c v user id _) λ b h.
              Commits-bind _ _ (Reads-fail_if _ _) λ _ checked.
                Commits-bind _ _ (c.get_transaction_lem v user _) λ t _.
                  Commits-bind _ _ (Reads-lift _) λ _ _.
                    Commits-bind _ _ (Reads-deref s view c v user _) λ currency _.
                      Commits-bind _ _ (Reads-deref s view c v user _) λ amount _.
                        Commits-bind _ _ (c.create_leg_lem v user _ _ _ _ _) λ payoff _.
                          Commits-bind _ _ (Reads-lock s view c v user payoff) λ _ _.
                            Commits-bind _ _ (Reads-now s) λ time _.
                              Commits-save_settled b _ _ _ _ _ _ _ _ _ (rw (h.1) h.0) (
                                mark_paid-Settles b payoff.transfer.id time (valid id (row b) h.0)
                                  (both_false _ _ checked).0)))

  pub pay_in_full-Transacts :
      (id : Uuid) (q : PayoffRequest) (key : Text)
      → Transacts q.expected_version view v (pay_in_full s user id q key)
  unfolding pay_in_full
  pay_in_full-Transacts id q key = Transacts-fail_if _ view v _ _ _ (
      Transacts-lift _ view v _ _ λ _ _. Transacts-transact _ view v s _ (
        Commits-bind _ _ (Reads-claim s view c v user key _ id _) λ stored _.
          Commits-or_replay s view c v valid user q.expected_version stored _ (
            Commits-bind _ _ (Reads-load s view c v user id _) λ b h.
              Commits-bind _ _ (Reads-fail_if _ _) λ _ checked.
                Commits-bind _ _ (Reads-deref s view c v user _) λ currency _.
                  Commits-bind _ _ (Reads-deref s view c v user _) λ amount _.
                    Commits-bind _ _ (Reads-now s) λ at _.
                      Commits-bind _ _ (c.create_payoff_lem v user _ _ _ _ _) λ payoff _.
                        Commits-bind _ _ (Reads-lock s view c v user payoff) λ _ _.
                          Commits-bind _ _ (Reads-now s) λ time _.
                            Commits-save_settled b _ _ _ _ _ _ _ _ _ (rw (h.1) h.0) (
                              mark_paid-Settles b payoff.transfer.id time (valid id (row b) h.0)
                                (both_false _ _ checked).0))))

  pub void_bill-Transacts :
      (id : Uuid) (q : ReasonedMutationRequest) (key : Text)
      → Transacts q.expected_version view v (void_bill s user id q key)
  unfolding void_bill
  void_bill-Transacts id q key = Transacts-lift _ view v _ _ λ _ _.
      Transacts-lift _ view v _ _ λ reason bounded. Transacts-transact _ view v s _ (
        Commits-bind _ _ (Reads-claim s view c v user key _ id _) λ stored _.
          Commits-or_replay s view c v valid user q.expected_version stored _ (
            Commits-bind _ _ (Reads-load s view c v user id _) λ b h.
              Commits-bind _ _ (Reads-fail_if _ _) λ _ checked.
                Commits-save_settled b _ _ _ _ _ _ _ _ _ (rw (h.1) h.0) (
                  voided-Settles b q.reason reason (valid id (row b) h.0) (not-false _ checked)
                    bounded)))

  Reads-claim_discard :
      (key : Text) (id : Uuid) (hash : Text) → Reads view v (claim_discard s user key id hash) Any
  unfolding claim_discard
  Reads-claim_discard key id hash = Reads-bind _ _ (Reads-now s) λ time _.
      Reads-bind _ _ (c.claim_lem v user key _ id hash _)
        λ claim _. Reads-weaken _ (Reads-lift _) (λ _ _. tt)

  pub discard_review_bill-Transacts :
      (id : Uuid) (expected : ℕ) (key : Text)
      → Transacts expected view v (discard_review_bill s user id expected key)
  unfolding discard_review_bill
  discard_review_bill-Transacts id expected key = Transacts-lift _ view v _ _ λ _ _.
      Transacts-transact _ view v s _ (
        Commits-bind _ _ (Reads-claim_discard key id _) λ done _.
          Commits-if done _ _
            (λ _. Commits-of_reads _ (Reads-pure {F = Any} tt tt) (λ _ _. Evolves.same refl))
            (λ _. Commits-bind _ _ (Reads-load_version s view c v user id expected) λ b h.
              Commits-bind _ _ (Reads-fail_if _ _) λ _ checked.
                Commits-then _ _ (c.delete_lem v user id expected) λ _ u e.
                  Commits-of_reads _ (c.complete_lem u user key _ id _ _ _)
                    λ _ _. Evolves.drop id e (rw (h.0) (Change.remove (not-false _ checked) h.1))))
