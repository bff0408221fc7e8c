-- ===== src/CreditCard/Contract.antt =====
-- What an action does to the view of the table, one rule for each way to build an action, and what
-- the service relies on of its store: the contract of the interface `Tx`.
use wealth_management.Prelude.{
  ℕ, ◌≡◌, refl, Bool, true, false, Option, none, some, List, String, ◌||◌, ◌==◌, if◌then◌else◌,
}
use wealth_management.Prelude.Int.{ℤ}
use wealth_management.Prelude.Text.{Text}
use wealth_management.GoTime.{Time}
use wealth_management.CreditCard.Types.{
  Uuid, Error, Bill, BillLine, BillEvent, BulkProjectionResult, is_review,
}
use wealth_management.CreditCard.Action.{
  Result, ok, err, World, Action, pure, fail, lift, ◌>>=◌, fail_if, Tx, Service, now, fresh_uuid,
}
use wealth_management.CreditCard.Statement.{Row, row, SameColumns, View, update, IsValid}

abbrev pub ReadsPost :
    {S A : Type 0} → (S → View) → View → (A → Type 0) → Result A × World S → Type 0
ReadsPost view v F (ok a, w) = (view w.db ≡ v) × F a
ReadsPost view v F (err e, w) = Unit

-- From the view `v`, an action that succeeds leaves the view alone and returns what `F` says.
pub record Reads {S A : Type 0} (view : S → View) (v : View) (m : Action S A) (F : A → Type 0)
    : Type 0 where
  pub at : (w : World S) → view w.db ≡ v → ReadsPost view v F (m w)

abbrev pub CommitsPost :
    {S A : Type 0} → (S → View) → (A → View → Type 0) → Result A × World S → Type 0
CommitsPost view Q (ok a, w) = Q a (view w.db)
CommitsPost view Q (err e, w) = Unit

-- From the view `v`, an action that succeeds ends in a result and a view as `Q` says.
pub record Commits {S A : Type 0} (view : S → View) (v : View) (m : Action S A)
    (Q : A → View → Type 0) : Type 0 where
  pub at : (w : World S) → view w.db ≡ v → CommitsPost view Q (m w)

abbrev pub Any : {A : Type 0} → A → Type 0
Any a = Unit

module _ {S A : Type 0} {view : S → View} {v : View} where
  pub Reads-pure : {F : A → Type 0} (a : A) → F a → Reads view v (pure a) F
  unfolding pure
  Reads-pure a f = record { at = λ w e. (e, f) }

  pub Reads-fail : {F : A → Type 0} (e : Error) → Reads view v (fail e) F
  unfolding fail
  Reads-fail e = record { at = λ w _. tt }

  pub Reads-lift : (r : Result A) → Reads view v (lift r) (λ a. r ≡ ok a)
  unfolding lift
  Reads-lift (ok a) = record { at = λ w e. (e, refl) }
  Reads-lift (err e) = record { at = λ w _. tt }

  pub Reads-weaken :
      {F G : A → Type 0} (m : Action S A)
      → Reads view v m F
      → ((a : A) → F a → G a)
      → Reads view v m G
  Reads-weaken {F} {G} m r imp = record { at = λ w e. go (m w) (r.at w e) }
    where
      go : (p : Result A × World S) → ReadsPost view v F p → ReadsPost view v G p
      go (ok a, w) (e, f) = (e, imp a f)
      go (err x, w) h = tt

  pub Reads-if :
      {F : A → Type 0} (b : Bool) (m n : Action S A)
      → (b ≡ true → Reads view v m F)
      → (b ≡ false → Reads view v n F)
      → Reads view v (if b then m else n) F
  Reads-if true m n rm rn = rm refl
  Reads-if false m n rm rn = rn refl

  pub Commits-if :
      {Q : A → View → Type 0} (b : Bool) (m n : Action S A)
      → (b ≡ true → Commits view v m Q)
      → (b ≡ false → Commits view v n Q)
      → Commits view v (if b then m else n) Q
  Commits-if true m n rm rn = rm refl
  Commits-if false m n rm rn = rn refl

  pub Commits-weaken :
      {P Q : A → View → Type 0} (m : Action S A)
      → Commits view v m P
      → ((a : A) (u : View) → P a u → Q a u)
      → Commits view v m Q
  Commits-weaken {P} {Q} m r imp = record { at = λ w e. go (m w) (r.at w e) }
    where
      go : (p : Result A × World S) → CommitsPost view P p → CommitsPost view Q p
      go (ok a, w) h = imp a (view w.db) h
      go (err x, w) h = tt

  pub Commits-of_reads :
      {F : A → Type 0} {Q : A → View → Type 0} (m : Action S A)
      → Reads view v m F
      → ((a : A) → F a → Q a v)
      → Commits view v m Q
  Commits-of_reads {F} {Q} m r imp = record { at = λ w e. go (m w) (r.at w e) }
    where
      go : (p : Result A × World S) → ReadsPost view v F p → CommitsPost view Q p
      go (ok a, w) (e, f) = rw e (imp a f)
      go (err x, w) h = tt

module _ {S : Type 0} {view : S → View} {v : View} where
  pub Reads-fail_if : (b : Bool) (e : Error) → Reads view v (fail_if b e) (λ _. b ≡ false)
  unfolding fail_if
  Reads-fail_if true e = record { at = λ w _. tt }
  Reads-fail_if false e = record { at = λ w h. (h, refl) }

  pub Reads-now : (s : Service S) → Reads view v (now s) Any
  unfolding now
  Reads-now s = record { at = λ w e. (e, tt) }

  pub Reads-fresh_uuid : (s : Service S) → Reads view v (fresh_uuid s) Any
  unfolding fresh_uuid
  Reads-fresh_uuid s = record { at = λ w e. (e, tt) }

module _ {S A B : Type 0} {view : S → View} {v : View} where
  pub Reads-bind :
      {F : A → Type 0} {G : B → Type 0} (m : Action S A) (f : A → Action S B)
      → Reads view v m F
      → ((a : A) → F a → Reads view v (f a) G)
      → Reads view v (m >>= f) G
  unfolding ◌>>=◌
  Reads-bind {F} {G} m f r next = record { at = λ w e. go (m w) (r.at w e) }
    where
      go :
          (p : Result A × World S)
          → ReadsPost view v F p
          → ReadsPost view v G (let (r, w') = p in elim r [ ok a ↦ f a w' | err e ↦ (err e, w') ])
      go (ok a, w) (e, h) = (next a h).at w e
      go (err x, w) h = tt

  pub Commits-bind :
      {F : A → Type 0} {Q : B → View → Type 0} (m : Action S A) (f : A → Action S B)
      → Reads view v m F
      → ((a : A) → F a → Commits view v (f a) Q)
      → Commits view v (m >>= f) Q
  unfolding ◌>>=◌
  Commits-bind {F} {Q} m f r next = record { at = λ w e. go (m w) (r.at w e) }
    where
      go :
          (p : Result A × World S)
          → ReadsPost view v F p
          → CommitsPost view Q (let (r, w') = p in elim r [ ok a ↦ f a w' | err e ↦ (err e, w') ])
      go (ok a, w) (e, h) = (next a h).at w e
      go (err x, w) h = tt

  pub Commits-then :
      {P : A → View → Type 0} {Q : B → View → Type 0} (m : Action S A) (f : A → Action S B)
      → Commits view v m P
      → ((a : A) (u : View) → P a u → Commits view u (f a) Q)
      → Commits view v (m >>= f) Q
  unfolding ◌>>=◌
  Commits-then {P} {Q} m f r next = record { at = λ w e. go (m w) (r.at w e) }
    where
      go :
          (p : Result A × World S)
          → CommitsPost view P p
          → CommitsPost view Q (let (r, w') = p in elim r [ ok a ↦ f a w' | err e ↦ (err e, w') ])
      go (ok a, w) h = (next a (view w.db) h).at w refl
      go (err x, w) h = tt

-- The row of a bill that has not been projected before, as the projection inserts it.
abbrev pub Projected : View → BulkProjectionResult → View → Type 0
Projected v p u =
    if p.created
    then (v p.bill.id ≡ none) × (u ≡ update v p.bill.id (some (row p.bill))) × IsValid (row p.bill)
    else u ≡ v

-- A save compares the stored version with the expected one, and stores the bill's columns; only the
-- time of the update is the store's own. The columns that it does not write are those of the stored
-- row, which is why `save_bill_lem` asks the bill to have the same. The database refuses a row that
-- breaks the constraint on the count of unresolved candidates, which the methods of the service do not
-- all test.
abbrev pub Saved : View → Row → Bill → ℕ → Bill → View → Type 0
Saved v old b expected b' u =
    (old.version ≡ expected)
    × (b' ≡ record b { updated_at = b'.updated_at })
    × (u ≡ update v b.id (some (row b)))
    × ((b.unresolved_candidate_count == 0 || is_review b.status) ≡ true)

-- A bill that is read is the stored one.
abbrev pub Loaded : View → Uuid → Bill → Type 0
Loaded v id b = (v id ≡ some (row b)) × (b.id ≡ id)

-- The contract of `Tx` on the table of statements: `SaveBill`, `ProjectBillFromBulk` and
-- `DeleteReviewBill` write to it, the other methods do not.
pub record StoreContract {S : Type 0} (tx : Tx S) (view : S → View) : Type 0 where
  pub get_bill_lem :
      (v : View) (user id : Uuid) → Reads view v (tx.get_bill_for_update user id) (Loaded v id)
  pub project_lem :
      (v : View) (user document : Uuid) (generation : ℕ)
      → Commits view v (tx.project_bill_from_bulk user document generation) (Projected v)
  pub save_bill_lem :
      (v : View) (user : Uuid) (b : Bill) (expected : ℕ) (old : Row)
      → v b.id ≡ some old
      → SameColumns old (row b)
      → Commits view v (tx.save_bill user b expected) (Saved v old b expected)
  pub delete_lem :
      (v : View) (user id : Uuid) (expected : ℕ)
      → Commits view v (tx.delete_review_bill user id expected) (λ _ u. u ≡ update v id none)
  pub get_line_lem :
      (v : View) (user id line : Uuid) → Reads view v (tx.get_line_for_update user id line) Any
  pub get_transaction_lem :
      (v : View) (user id : Uuid) → Reads view v (tx.get_transaction_for_update user id) Any
  pub save_line_lem :
      (v : View) (user : Uuid) (line : BillLine) → Reads view v (tx.save_line user line) Any
  pub append_event_lem :
      (v : View) (user : Uuid) (event : BillEvent)
      → Reads view v (tx.append_bill_event user event) Any
  pub linked_lem :
      (v : View) (user id line : Uuid)
      → Reads view v (tx.is_transaction_linked_to_another_line user id line) Any
  pub create_transaction_lem :
      (v : View) (user id line category : Uuid)
      → Reads view v (tx.create_transaction_from_pinned_candidate user id line category) Any
  pub find_transfers_lem :
      (v : View) (user account : Uuid) (currency : Text) (amount : ℤ) (start end : Time)
      → Reads view v (tx.find_exact_payoff_transfers user account currency amount start end) Any
  pub find_debits_lem :
      (v : View) (user id : Uuid) (currency : Text) (amount : ℤ) (start end : Time)
      → Reads view v (tx.find_bank_debit_candidates user id currency amount start end) Any
  pub create_leg_lem :
      (v : View) (user id bank card : Uuid) (currency : Text) (amount : ℤ)
      → Reads view v (tx.create_missing_card_leg_and_transfer user id bank card currency amount) Any
  pub create_payoff_lem :
      (v : View) (user bank card : Uuid) (currency : Text) (amount : ℤ) (at : Time)
      → Reads view v (tx.create_full_payoff_transfer user bank card currency amount at) Any
  pub lock_lem :
      (v : View) (user : Uuid) (ids : List Uuid) (reason : String)
      → Reads view v (tx.lock_system_payoff_exclusions user ids reason) Any
  pub claim_lem :
      (v : View) (user : Uuid) (key : Text) (operation : String) (id : Uuid) (hash : Text)
      (expiry : Time)
      → Reads view v (tx.claim_idempotency user key operation id hash expiry) Any
  pub complete_lem :
      (v : View) (user : Uuid) (key : Text) (operation : String) (id : Uuid) (hash : Text)
      (bill : Option Bill) (response : ℕ)
      → Reads view v (tx.complete_idempotency user key operation id hash bill response) Any
