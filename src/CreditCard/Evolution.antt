-- ===== src/CreditCard/Evolution.antt =====
-- What the pieces of the methods do to the table: loading, saving and recording, and how a saved bill
-- makes the table evolve.
use wealth_management.Prelude.{
  ℕ, ◌+◌, ◌≡◌, ◌||◌, ◌==◌, refl, ap, true, false, Option, none, some, List, String, arith,
}
use wealth_management.Prelude.Text.{Text}
use wealth_management.GoTime.{Time, utc}
use wealth_management.CreditCard.Types.{Uuid, BillStatus, Bill, is_review, is_void, status_eq}
use wealth_management.CreditCard.Action.{Service}
use wealth_management.CreditCard.Rules.{require_version}
use wealth_management.CreditCard.Payment.{
  PaymentResolution, append_event, append_status_change_event, append_automatic,
  append_payment_resolution_events, save_mutated_bill,
}
use wealth_management.CreditCard.Requests.{
  load_bill, load_mutable_line, claim_bill_mutation, save_resolved,
}
use wealth_management.CreditCard.Statement.{
  Row, row, SameColumns, View, update, HasSoundHeader, HasSoundState, Change, Evolves, may_become,
}
use wealth_management.CreditCard.Contract.{
  Reads, Commits, Any, Saved, Loaded, Reads-pure, Reads-lift, Reads-fail_if, Reads-now,
  Reads-fresh_uuid, Reads-if, Reads-bind, Reads-weaken, Commits-bind, Commits-then, Commits-weaken,
  Commits-of_reads, StoreContract,
}
use wealth_management.CreditCard.Resolution.{Resolved}

-- A save of the bill `b` over the row `old` at the expected version.
pub record Written (v : View) (old : Row) (b : Bill) (expected : ℕ) (b' : Bill) (u : View)
    : Type 0 where
  pub expected_version : old.version ≡ expected
  pub status : b'.status ≡ b.status
  pub version : b'.version ≡ expected + 1
  pub view : u ≡ update v b.id (some (row (record b { version = expected + 1 })))
  pub unresolved : (b.unresolved_candidate_count == 0 || is_review b.status) ≡ true

Saved-Written :
    (v : View) (old : Row) (b : Bill) (expected : ℕ) (t : Time) (b' : Bill) (u : View)
    → Saved v old (record b { version = expected + 1; updated_at = t }) expected b' u
    → Written v old b expected b' u
Saved-Written v old b expected t b' u h = record {
  expected_version = h.0;
  status = ap (λ (x : Bill). x.status) h.1;
  version = ap (λ (x : Bill). x.version) h.1;
  view = h.2;
  unresolved = h.3;
}

pub header_at_version :
    (b : Bill) (n : ℕ) → HasSoundHeader (row b) → HasSoundHeader (row (record b { version = n }))
header_at_version b n h = record {
  period = h.period;
  dates = h.dates;
  currency = h.currency;
  amount = h.amount;
  minimum = h.minimum;
  previous = h.previous;
  generation = h.generation;
}

pub state_at_version :
    (b : Bill) (n : ℕ) → HasSoundState (row b) → HasSoundState (row (record b { version = n }))
state_at_version b n h = record {
  complete = h.complete;
  payment = h.payment;
  unresolved = h.unresolved;
  void = h.void;
}

-- A sound bill that is written over the row it was loaded from makes the table evolve.
pub put-Evolves :
    (n : ℕ) (v u : View) (old : Row) (b : Bill)
    → v b.id ≡ some old
    → HasSoundHeader (row b)
    → HasSoundState (row b)
    → may_become old.status b.status ≡ true
    → old.version ≡ n
    → u ≡ update v b.id (some (row (record b { version = n + 1 })))
    → Evolves n v u
put-Evolves n v u old b stored header state edge same e =
    Evolves.put b.id (row (record b { version = n + 1 })) e
      (record {
        header = header_at_version b (n + 1) header;
        state = state_at_version b (n + 1) state;
        version = omega arith;
      })
      (rw stored (Change.write edge same refl))

pub Written-Evolves :
    (v u : View) (old : Row) (b b' : Bill) (expected : ℕ)
    → v b.id ≡ some old
    → HasSoundHeader (row b)
    → HasSoundState (row b)
    → may_become old.status b.status ≡ true
    → Written v old b expected b' u
    → Evolves expected v u
Written-Evolves v u old b b' expected stored header state edge w =
    put-Evolves expected v u old b stored header state edge w.expected_version w.view

pub review_may_become :
    (s t : BillStatus) → is_review s ≡ true → is_void t ≡ false → may_become s t ≡ true
review_may_become s t h k = ground arith

-- The bill that a method on a bill in Review has loaded.
pub record IsInReview (v : View) (b : Bill) : Type 0 where
  pub stored : v b.id ≡ some (row b)
  pub in_review : is_review b.status ≡ true

pub Resolved-Evolves :
    (v u : View) (b r r' : Bill) (expected : ℕ)
    → IsInReview v b
    → Resolved b r
    → Written v (row b) r expected r' u
    → Evolves expected v u
Resolved-Evolves v u b r r' expected h res w =
    Written-Evolves v u (row b) r r' expected (rw res.id h.stored) res.header res.state
      (review_may_become b.status r.status h.in_review res.open_status) w

module _ {S : Type 0} (s : Service S) (view : S → View) (c : StoreContract s.tx view) (v : View)
    (user : Uuid) where
  pub Reads-event :
      (id : Uuid) (kind : String) (reason : Text) (details : List (String × Text))
      (from to : Option BillStatus)
      → Reads view v (append_event s user id kind reason details from to) Any
  unfolding append_event
  Reads-event id kind reason details from to =
      Reads-bind _ _ (Reads-now s)
        λ t _. Reads-bind _ _ (Reads-fresh_uuid s) λ i _. c.append_event_lem v user _

  pub Reads-status_event :
      (id : Uuid) (from to : BillStatus)
      → Reads view v (append_status_change_event s user id from to) Any
  unfolding append_status_change_event
  Reads-status_event id from to =
      Reads-if (status_eq from to) _ _ (λ _. Reads-pure _ tt) (λ _. Reads-event id _ _ _ _ _)

  Reads-automatic : (id : Uuid) (o : Option Uuid) → Reads view v (append_automatic s user id o) Any
  unfolding append_automatic
  Reads-automatic id none = Reads-pure _ tt
  Reads-automatic id (some t) = Reads-event id _ _ _ _ _

  pub Reads-resolution_events :
      (id : Uuid) (from to : BillStatus) (r : PaymentResolution)
      → Reads view v (append_payment_resolution_events s user id from to r) Any
  unfolding append_payment_resolution_events
  Reads-resolution_events id from to r =
      Reads-bind _ _
        (Reads-if r.searched _ _
          (λ _. Reads-bind _ _ (Reads-event id _ _ _ _ _) (λ _ _. Reads-automatic id _))
          (λ _. Reads-pure _ tt))
        (λ _ _. Reads-status_event id from to)

  pub Reads-claim :
      (key : Text) (operation : String) (id : Uuid) (hash : Text)
      → Reads view v (claim_bill_mutation s user key operation id hash) Any
  unfolding claim_bill_mutation
  Reads-claim key operation id hash = Reads-bind _ _ (Reads-now s) λ t _.
      Reads-bind _ _ (c.claim_lem v user key operation id hash _)
        λ claim _. Reads-weaken _ (Reads-lift _) (λ _ _. tt)

  pub Reads-load :
      (id : Uuid) (expected : ℕ) → Reads view v (load_bill s user id expected) (Loaded v id)
  unfolding load_bill
  Reads-load id expected =
      Reads-bind _ _ (c.get_bill_lem v user id)
        λ b h. Reads-bind _ _ (Reads-lift _) λ _ _. Reads-pure b h

  -- The version of a loaded bill is the expected one.
  pub Reads-load_version :
      (id : Uuid) (expected : ℕ)
      → Reads view v
          (load_bill s user id expected)
          (λ b. (v id ≡ some (row b)) × (b.version ≡ expected))
  unfolding load_bill require_version
  Reads-load_version id expected = Reads-bind _ _ (c.get_bill_lem v user id) λ b h.
      Reads-bind _ _ (Reads-lift (require_version b expected))
        λ _ e. Reads-pure b (h.0, ground arith)

  pub Reads-load_line :
      (id line : Uuid) (expected : ℕ)
      → Reads view v (load_mutable_line s user id line expected) (λ p. IsInReview v p.0)
  unfolding load_mutable_line
  Reads-load_line id line expected = Reads-bind _ _ (Reads-load id expected) λ b h.
      Reads-bind _ _ (Reads-fail_if _ _) λ _ in_review.
        Reads-bind _ _ (c.get_line_lem v user id line) λ l _.
          Reads-bind _ _ (Reads-fail_if _ _)
            λ _ _. Reads-pure _ (record { stored = rw (h.1) h.0; in_review = ground arith })

  pub Commits-save :
      (b : Bill) (expected : ℕ) (old : Row)
      → v b.id ≡ some old
      → SameColumns old (row b)
      → Commits view v (save_mutated_bill s user b expected) (Written v old b expected)
  unfolding save_mutated_bill
  Commits-save b expected old stored same = Commits-bind _ _ (Reads-now s) λ t _.
      Commits-weaken _ (c.save_bill_lem v user _ expected old stored same)
        (λ b' u h. Saved-Written v old b expected (utc t) b' u h)

module _ {S : Type 0} (s : Service S) (view : S → View) (c : StoreContract s.tx view) (v : View)
    (user : Uuid) where
  pub Commits-save_resolved :
      (b : Bill) (expected : ℕ) (old : Row) (kind : String) (reason : Text)
      (details : List (String × Text)) (from : BillStatus) (r : PaymentResolution)
      → v b.id ≡ some old
      → SameColumns old (row b)
      → Commits view v
          (save_resolved s user expected kind reason details from b r)
          (Written v old b expected)
  unfolding save_resolved
  Commits-save_resolved b expected old kind reason details from r stored same =
      Commits-then _ _ (Commits-save s view c v user b expected old stored same) λ b' u w.
        Commits-bind _ _ (Reads-event s view c u user _ _ _ _ _ _) λ _ _.
          Commits-bind _ _ (Reads-resolution_events s view c u user _ _ _ _)
            λ _ _. Commits-of_reads _ (Reads-pure {F = λ x. x ≡ b'} b' refl) (λ a e. rw e w)
