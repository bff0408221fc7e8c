-- ===== src/CreditCard/Resolution.antt =====
-- `resolvePayment`: what it may return, whatever the searches find.
use wealth_management.Prelude.{
  ◌≡◌, refl, true, false, Option, none, some, List, [], ◌∷◌, arith, ltb,
}
use wealth_management.Prelude.Text.{Text}
use wealth_management.GoTime.{Time}
use wealth_management.CreditCard.Types.{
  Uuid, review, Bill, CanonicalTransaction, InternalTransfer, PayoffResult, is_void,
}
use wealth_management.CreditCard.Action.{Result, ok, err, pure, Service}
use wealth_management.CreditCard.Rules.{header_complete, validate_header_fields, mark_paid}
use wealth_management.CreditCard.Payment.{
  PaymentResolution, no_search, cleared, deref, choose_candidate, lock_payoff_treatments,
  settle_matches, search_payment, needs_review, resolve_payment,
}
use wealth_management.CreditCard.Statement.{row, SameColumns, View, HasSoundHeader, HasSoundState}
use wealth_management.CreditCard.Contract.{
  Reads, Any, Reads-pure, Reads-lift, Reads-weaken, Reads-fail, Reads-fail_if, Reads-now,
  Reads-bind, Reads-if, StoreContract,
}

-- What `resolvePayment` keeps of a bill and what it returns: the version and the columns that a save
-- does not write stay, the bill is not void, and its columns satisfy the constraints.
pub record Resolved (b b' : Bill) : Type 0 where
  pub id : b'.id ≡ b.id
  pub version : b'.version ≡ b.version
  pub columns : SameColumns (row b) (row b')
  pub header : HasSoundHeader (row b')
  pub state : HasSoundState (row b')
  pub open_status : is_void b'.status ≡ false

-- A bill that may be put in any status but Void: what the search for a payment starts from.
pub record IsPayable (b : Bill) : Type 0 where
  pub header : HasSoundHeader (row b)
  pub complete : header_complete b ≡ true
  pub unresolved : b.unresolved_candidate_count ≡ 0
  pub reason : b.void_reason ≡ none
  pub payoff : b.payoff_transfer_id ≡ none
  pub paid_at : b.paid_at ≡ none

choose_candidate-Resolved :
    (b : Bill) (r : PaymentResolution) (cs : List CanonicalTransaction)
    → IsPayable b
    → (p : Bill × PaymentResolution) → choose_candidate b r cs ≡ ok p
    → Resolved b p.0
unfolding choose_candidate header_complete
choose_candidate-Resolved b r [] h p e = ground arith
choose_candidate-Resolved b r (c ∷ []) h p e = ground arith
choose_candidate-Resolved b r (c ∷ d ∷ cs) h p e = ground arith

mark_paid-Resolved : (b : Bill) (id : Uuid) (t : Time) → IsPayable b → Resolved b (mark_paid b id t)
unfolding mark_paid header_complete
mark_paid-Resolved b id t h = ground arith

review-Resolved :
    (b : Bill)
    → HasSoundHeader (row b)
    → b.void_reason ≡ none
    → Resolved b (record (cleared b) { status = review })
review-Resolved b h r = ground arith

cleared_header : (b : Bill) → HasSoundHeader (row b) → HasSoundHeader (row (cleared b))
cleared_header b h = record {
  period = h.period;
  dates = h.dates;
  currency = h.currency;
  amount = h.amount;
  minimum = h.minimum;
  previous = h.previous;
  generation = h.generation;
}

cleared-IsPayable :
    (b : Bill)
    → HasSoundHeader (row b)
    → header_complete (cleared b) ≡ true
    → ltb 0 b.unresolved_candidate_count ≡ false
    → b.void_reason ≡ none
    → IsPayable (cleared b)
cleared-IsPayable b h c n r = record {
  header = cleared_header b h;
  complete = c;
  unresolved = ground arith;
  reason = r;
  payoff = refl;
  paid_at = refl;
}

Resolved-cleared : (b b' : Bill) → Resolved (cleared b) b' → Resolved b b'
Resolved-cleared b b' r = record {
  id = r.id;
  version = r.version;
  columns = r.columns;
  header = r.header;
  state = r.state;
  open_status = r.open_status;
}

needs_review-false :
    (b : Bill)
    → needs_review b ≡ false
    → (ltb 0 b.unresolved_candidate_count ≡ false) × (header_complete b ≡ true)
unfolding needs_review
needs_review-false b h = ground arith

module _ {S : Type 0} (s : Service S) (view : S → View) (c : StoreContract s.tx view) (v : View)
    (user : Uuid) where
  pub Reads-deref : {A : Type 0} (o : Option A) → Reads view v (deref o) Any
  unfolding deref
  Reads-deref none = Reads-fail _
  Reads-deref (some a) = Reads-pure a tt

  pub Reads-lock : (r : PayoffResult) → Reads view v (lock_payoff_treatments s user r) Any
  unfolding lock_payoff_treatments
  Reads-lock r = Reads-bind _ _ (Reads-fail_if _ _) (λ _ _. c.lock_lem v user _ _)

  settle_matches-Resolved :
      (b : Bill) (currency : Text) (ms : List InternalTransfer)
      → IsPayable b
      → Reads view v (settle_matches s user b currency ms) (λ p. Resolved b p.0)
  unfolding settle_matches
  settle_matches-Resolved b currency [] h =
      Reads-bind _ _ (Reads-deref b.amount_due_minor) λ amount _.
        Reads-bind _ _ (Reads-deref b.statement_date) λ start _.
          Reads-bind _ _ (Reads-deref b.due_date) λ end _.
            Reads-bind _ _ (c.find_debits_lem v user b.id currency amount start end)
              λ cs _. Reads-weaken _ (Reads-lift _) (λ p e. choose_candidate-Resolved b _ cs h p e)
  settle_matches-Resolved b currency (m ∷ []) h =
      Reads-bind _ _ (Reads-lock _)
        λ _ _. Reads-bind _ _ (Reads-now s) λ t _. Reads-pure _ (mark_paid-Resolved b m.id t h)
  settle_matches-Resolved b currency (m ∷ n ∷ ms) h = Reads-pure _ (ground arith)

  search_payment-Resolved :
      (b : Bill) → IsPayable b → Reads view v (search_payment s user b) (λ p. Resolved b p.0)
  unfolding search_payment
  search_payment-Resolved b h = Reads-bind _ _ (Reads-deref b.settlement_currency) λ currency _.
      Reads-bind _ _ (Reads-deref b.amount_due_minor) λ amount _.
        Reads-bind _ _ (Reads-deref b.statement_date) λ start _.
          Reads-bind _ _ (Reads-deref b.due_date) λ end _.
            Reads-bind _ _ (c.find_transfers_lem v user b.account_id currency amount start end)
              λ ms _. settle_matches-Resolved b currency ms h

  validated-Resolved :
      (b : Bill)
      → HasSoundHeader (row b)
      → b.void_reason ≡ none
      → header_complete (cleared b) ≡ true
      → ltb 0 b.unresolved_candidate_count ≡ false
      → (r : Result (Unit {0})) → validate_header_fields s (cleared b) true ≡ r
      → Reads view v
          (elim r [
            | err _ ↦ pure (record (cleared b) { status = review }, no_search)
            | ok _ ↦ search_payment s user (cleared b)
          ])
          (λ p. Resolved b p.0)
  validated-Resolved b h n full zero_left (err _) e = Reads-pure _ (review-Resolved b h n)
  validated-Resolved b h n full zero_left (ok u) e =
      Reads-weaken _ (search_payment-Resolved (cleared b) (cleared-IsPayable b h full zero_left n))
        (λ p r. Resolved-cleared b p.0 r)

  -- Whatever the searches find, and whether or not they are made, the bill that `resolvePayment`
  -- returns satisfies the table's constraints and has the header and version of the given one.
  pub resolve_payment-Resolved :
      (b : Bill)
      → HasSoundHeader (row b)
      → b.void_reason ≡ none
      → Reads view v (resolve_payment s user b) (λ p. Resolved b p.0)
  unfolding resolve_payment
  resolve_payment-Resolved b h n =
      Reads-if (needs_review (cleared b)) _ _ (λ _. Reads-pure _ (review-Resolved b h n))
        λ no.
          let parts = needs_review-false (cleared b) no in
          validated-Resolved b h n parts.1 parts.0 (validate_header_fields s (cleared b) true) refl
