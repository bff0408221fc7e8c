-- ===== src/CreditCard/Methods/Lines.antt =====
-- `AttachLine`, `CreateLineTransaction`, `IgnoreLine` and `CorrectHeader` make the table evolve.
use wealth_management.Prelude.{ℕ, ◌≡◌, refl, true, Option, none, some, List, String, arith}
use wealth_management.Prelude.Text.{Text}
use wealth_management.CreditCard.Types.{Uuid, Bill, BillLine, is_review}
use wealth_management.CreditCard.Rules.{replace_line}
use wealth_management.CreditCard.Payment.{PaymentResolution, resolve_payment}
use wealth_management.CreditCard.Requests.{
  AttachLineRequest, CreateLineRequest, ReasonedMutationRequest, or_replay, save_resolved,
}
use wealth_management.CreditCard.Service.Lines.{attach_line, create_line_transaction, ignore_line}
use wealth_management.CreditCard.Action.{Action, Service}
use wealth_management.CreditCard.Statement.{row, View, HasSoundHeader, IsValid, AllValid, Evolves}
use wealth_management.CreditCard.Contract.{
  Reads, Commits, Any, Reads-pure, Reads-lift, Reads-fail_if, Reads-now, Reads-weaken, Commits-bind,
  Commits-then, Commits-weaken, Commits-of_reads, StoreContract,
}
use wealth_management.CreditCard.Resolution.{Resolved, resolve_payment-Resolved}
use wealth_management.CreditCard.Evolution.{
  IsInReview, Resolved-Evolves, Reads-claim, Reads-load_line, Commits-save_resolved,
}
use wealth_management.CreditCard.Transacting.{Transacts, Transacts-transact, Transacts-lift}

pub no_reason_in_review :
    (b : Bill) → IsValid (row b) → is_review b.status ≡ true → b.void_reason ≡ none
no_reason_in_review b h r = ground arith

header-replace_line :
    (b : Bill) (line : BillLine)
    → HasSoundHeader (row b)
    → HasSoundHeader (row (replace_line b line))
unfolding replace_line
header-replace_line b line h = record {
  period = h.period;
  dates = h.dates;
  currency = h.currency;
  amount = h.amount;
  minimum = h.minimum;
  previous = h.previous;
  generation = h.generation;
}

Resolved-replace_line :
    (b r : Bill) (line : BillLine) → Resolved (replace_line b line) r → Resolved b r
unfolding replace_line
Resolved-replace_line b r line h = record {
  id = h.id;
  version = h.version;
  columns = h.columns;
  header = h.header;
  state = h.state;
  open_status = h.open_status;
}

reason-replace_line :
    (b : Bill) (line : BillLine) → b.void_reason ≡ none → (replace_line b line).void_reason ≡ none
unfolding replace_line
reason-replace_line b line h = h

module _ {S : Type 0} (s : Service S) (view : S → View) (c : StoreContract s.tx view) (v : View)
    (valid : AllValid v) (user : Uuid) where
  -- The payment of a bill with a line replaced is looked for.
  Reads-replaced :
      (b : Bill) (line : BillLine)
      → IsInReview v b
      → Reads view v (resolve_payment s user (replace_line b line)) (λ p. Resolved b p.0)
  Reads-replaced b line h =
      let sound = valid b.id (row b) h.stored in
      Reads-weaken _
        (resolve_payment-Resolved s view c v user (replace_line b line)
          (header-replace_line b line sound.header)
          (reason-replace_line b line (no_reason_in_review b sound h.in_review)))
        (λ p r. Resolved-replace_line b p.0 line r)

  -- The bill that was resolved is saved.
  Commits-resolved :
      (b r : Bill) (resolution : PaymentResolution) (expected : ℕ) (kind : String) (reason : Text)
      (details : List (String × Text))
      → IsInReview v b
      → Resolved b r
      → Commits view v
          (save_resolved s user expected kind reason details b.status r resolution)
          (λ _ u. Evolves expected v u)
  Commits-resolved b r resolution expected kind reason details h res =
      Commits-weaken _
        (Commits-save_resolved s view c v user r expected (row b) kind reason details b.status
          resolution (rw res.id h.stored) res.columns)
        (λ b' u w. Resolved-Evolves v u b r b' expected h res w)

  pub attach_line-Transacts :
      (id line : Uuid) (q : AttachLineRequest)
      → Transacts q.expected_version view v (attach_line s user id line q)
  unfolding attach_line
  attach_line-Transacts id line q = Transacts-transact _ view v s _ (
      Commits-bind _ _ (Reads-load_line s view c v user id line _) λ p h.
        Commits-bind _ _ (c.get_transaction_lem v user _) λ t _.
          Commits-bind _ _ (c.linked_lem v user _ _) λ taken _.
            Commits-bind _ _ (Reads-fail_if _ _) λ _ _.
              Commits-bind _ _ (Reads-lift _) λ exception _.
                Commits-bind _ _ (Reads-now s) λ time _.
                  Commits-bind _ _ (c.save_line_lem v user _) λ _ _.
                    Commits-bind _ _ (Reads-replaced p.0 _ h)
                      λ r res. Commits-resolved p.0 r.0 r.1 _ _ _ _ h res)

  pub ignore_line-Transacts :
      (id line : Uuid) (q : ReasonedMutationRequest)
      → Transacts q.expected_version view v (ignore_line s user id line q)
  unfolding ignore_line
  ignore_line-Transacts id line q = Transacts-lift _ view v _ _ λ reason _.
      Transacts-transact _ view v s _ (
        Commits-bind _ _ (Reads-load_line s view c v user id line _) λ p h.
          Commits-bind _ _ (Reads-now s) λ time _.
            Commits-bind _ _ (c.save_line_lem v user _) λ _ _.
              Commits-bind _ _ (Reads-replaced p.0 _ h)
                λ r res. Commits-resolved p.0 r.0 r.1 _ _ _ _ h res)

  -- A replay leaves the table alone.
  pub Commits-or_replay :
      (expected : ℕ) (o : Option Bill) (m : Action S Bill)
      → Commits view v m (λ _ u. Evolves expected v u)
      → Commits view v (or_replay o m) (λ _ u. Evolves expected v u)
  unfolding or_replay
  Commits-or_replay expected none m h = h
  Commits-or_replay expected (some b) m h =
      Commits-of_reads _ (Reads-pure {F = Any} b tt) (λ _ _. Evolves.same refl)

  pub create_line_transaction-Transacts :
      (id line : Uuid) (q : CreateLineRequest) (key : Text)
      → Transacts q.expected_version view v (create_line_transaction s user id line q key)
  unfolding create_line_transaction
  create_line_transaction-Transacts id line q key = Transacts-lift _ view v _ _ λ _ _.
      Transacts-transact _ view v s _ (
        Commits-bind _ _ (Reads-claim s view c v user key _ id _) λ stored _.
          Commits-or_replay q.expected_version stored _ (
            Commits-bind _ _ (Reads-load_line s view c v user id line _) λ p h.
              Commits-bind _ _ (Reads-fail_if _ _) λ _ _.
                Commits-bind _ _ (c.create_transaction_lem v user _ _ _) λ created _.
                  Commits-bind _ _ (Reads-lift _) λ _ _. Commits-bind _ _ (Reads-now s) λ time _.
                    Commits-bind _ _ (c.save_line_lem v user _) λ _ _.
                      Commits-bind _ _ (Reads-replaced p.0 _ h) λ r res.
                        Commits-then _ _ (Commits-resolved p.0 r.0 r.1 _ _ _ _ h res) λ b u e.
                          Commits-bind _ _ (c.complete_lem u user key _ id _ _ _)
                            λ _ _. Commits-of_reads _ (Reads-pure {F = Any} b tt) (λ _ _. e)))
