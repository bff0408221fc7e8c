-- ===== src/CreditCard/Action.antt =====
-- A database transaction's callback as an action on the world: the database, which `Transact` rolls
-- back on an error, and the counters of clock readings and of new UUIDs, which nothing rolls back.
use wealth_management.Prelude.{ℕ, ◌+◌, Bool, Option, none, some, List, String, if◌then◌else◌}
use wealth_management.Prelude.Int.{ℤ}
use wealth_management.Prelude.Text.{Text}
use wealth_management.GoTime.{Time}
use wealth_management.CreditCard.Types.{
  Uuid, Error, Bill, BillLine, BillEvent, CanonicalTransaction, InternalTransfer, PayoffResult,
  LineCreateResult, BulkProjectionResult, IdempotencyClaim,
}

pub data Result (A : Type 0) : Type 0 where
  ok : A → Result A
  err : Error → Result A

pub record World (S : Type 0) : Type 0 where
  pub db : S
  pub ticks : ℕ
  pub ids : ℕ

abbrev pub Action : Type 0 → Type 0 → Type 0
Action S A = World S → Result A × World S

module _ {S : Type 0} where
  unfoldable pub pure : {A : Type 0} → A → Action S A
  pure a w = (ok a, w)

  unfoldable pub fail : {A : Type 0} → Error → Action S A
  fail e w = (err e, w)

  -- A result that was computed without the database.
  unfoldable pub lift : {A : Type 0} → Result A → Action S A
  lift r w = (r, w)

  -- `if test { return error }`.
  unfoldable pub fail_if : Bool → Error → Action S (Unit {0})
  fail_if b e w = (if b then err e else ok tt, w)

  infixl 5 ◌>>=◌ ◌>>◌
  unfoldable pub ◌>>=◌ : {A B : Type 0} → Action S A → (A → Action S B) → Action S B
  unfolding pure fail lift fail_if
  ◌>>=◌ m f w = let (r, w') = m w in elim r [ ok a ↦ f a w' | err e ↦ (err e, w') ]

  abbrev pub ◌>>◌ : {A B : Type 0} → Action S A → Action S B → Action S B
  m >> k = m >>= λ _. k

-- `creditcard.Tx`, what the service asks of its store within one database transaction. The user's
-- id comes first, as in the source after the context.
pub record Tx (S : Type 0) : Type 0 where
  pub get_bill_for_update : Uuid → Uuid → Action S Bill
  pub project_bill_from_bulk : Uuid → Uuid → ℕ → Action S BulkProjectionResult
  pub get_line_for_update : Uuid → Uuid → Uuid → Action S BillLine
  pub get_transaction_for_update : Uuid → Uuid → Action S CanonicalTransaction
  pub save_bill : Uuid → Bill → ℕ → Action S Bill
  pub save_line : Uuid → BillLine → Action S BillLine
  pub append_bill_event : Uuid → BillEvent → Action S (Unit {0})
  pub delete_review_bill : Uuid → Uuid → ℕ → Action S (Unit {0})
  pub is_transaction_linked_to_another_line : Uuid → Uuid → Uuid → Action S Bool
  pub create_transaction_from_pinned_candidate :
      Uuid → Uuid → Uuid → Uuid → Action S LineCreateResult
  pub find_exact_payoff_transfers :
      Uuid → Uuid → Text → ℤ → Time → Time → Action S (List InternalTransfer)
  pub find_bank_debit_candidates :
      Uuid → Uuid → Text → ℤ → Time → Time → Action S (List CanonicalTransaction)
  pub create_missing_card_leg_and_transfer :
      Uuid → Uuid → Uuid → Uuid → Text → ℤ → Action S PayoffResult
  pub create_full_payoff_transfer : Uuid → Uuid → Uuid → Text → ℤ → Time → Action S PayoffResult
  pub lock_system_payoff_exclusions : Uuid → List Uuid → String → Action S (Unit {0})
  pub claim_idempotency : Uuid → Text → String → Uuid → Text → Time → Action S IdempotencyClaim
  pub complete_idempotency :
      Uuid → Text → String → Uuid → Text → Option Bill → ℕ → Action S (Unit {0})

-- How `Commit` ends: with success; with an error, and nothing is kept; or with an error although the
-- database has kept the changes, as when the connection is lost before its answer.
pub data CommitOutcome : Type 0 where
  done : CommitOutcome
  undone in_doubt : Error → CommitOutcome

-- A `Service` with what lies outside the repository's code: the clock at its n-th reading,
-- `uuid.New` at its n-th call, how pgx's `Begin` and `Commit` end, `unicode.ToUpper`,
-- `currency.ParseISO` (whether it accepts), `UUID.String` and the hexadecimal SHA-256.
pub record Service (S : Type 0) : Type 0 where
  pub tx : Tx S
  pub begin : World S → Option Error
  pub commit : World S → CommitOutcome
  pub clock : ℕ → Time
  pub new_uuid : ℕ → Uuid
  pub upper_rune : ℕ → ℕ
  pub parse_iso : Text → Bool
  pub uuid_text : Uuid → Text
  pub sha256_hex : Text → Text

module _ {S : Type 0} (s : Service S) where
  -- `s.now()`.
  unfoldable pub now : Action S Time
  now w = (ok (s.clock w.ticks), record w { ticks = w.ticks + 1 })

  -- `uuid.New()`.
  unfoldable pub fresh_uuid : Action S Uuid
  fresh_uuid w = (ok (s.new_uuid w.ids), record w { ids = w.ids + 1 })

  -- The outcome of `Commit` after a callback that succeeded.
  unfoldable pub committed :
      {A : Type 0} → World S → A → World S → CommitOutcome → Result A × World S
  committed w a w' done = (ok a, w')
  committed w a w' (undone e) = (err e, record w' { db = w.db })
  committed w a w' (in_doubt e) = (err e, w')

  -- The deferred `Rollback` undoes a callback that fails, and does nothing after `Commit`.
  unfoldable pub settle : {A : Type 0} → World S → Result A × World S → Result A × World S
  unfolding committed
  settle w (err e, w') = (err e, record w' { db = w.db })
  settle w (ok a, w') = committed w a w' (s.commit w')

  unfoldable pub begun : {A : Type 0} → Action S A → World S → Option Error → Result A × World S
  unfolding settle
  begun m w (some e) = (err e, w)
  begun m w none = settle w (m w)

  -- `Store.Transact` (backend/internal/creditcardstore/postgres.go).
  unfoldable pub transact : {A : Type 0} → Action S A → Action S A
  unfolding begun
  transact m w = begun m w (s.begin w)
