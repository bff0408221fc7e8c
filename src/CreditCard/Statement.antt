-- ===== src/CreditCard/Statement.antt =====
-- The abstract view of the table private.credit_card_statements: the columns of a bill that change,
-- what its check constraints ask of a row
-- (supabase/migrations/20260904043721_create_account_balances_and_credit_card_bills.sql), and how one
-- request may change the table.
use wealth_management.Prelude.{
  ℕ, ◌+◌, ◌≤◌, ◌≡◌, ◌≢◌, sym, ◌∙◌, ap, fun_ext, Bool, true, false, not, ◌&&◌, ◌||◌, Option, none,
  some, ◌==◌, if◌then◌else◌, is_some, arith, ==-cases, ==-self, subst, inl, inr,
}
use wealth_management.Prelude.Int.{ℤ, pos, leb_ℤ, ltb_ℤ}
use wealth_management.Prelude.Text.{Text}
use wealth_management.GoTime.{Time}
use wealth_management.CreditCard.Types.{
  Uuid, BillStatus, review, unpaid, paid, void, Bill, is_review, is_paid, is_void,
}
use wealth_management.CreditCard.Rules.{holds, follows}
use wealth_management.CreditCard.Currencies.{is_code, is_bounded_reason}

pub record Row : Type 0 where
  pub bulk_attempt_generation : ℕ
  pub period_start : Option Time
  pub period_end : Option Time
  pub statement_date : Option Time
  pub due_date : Option Time
  pub settlement_currency : Option Text
  pub amount_due_minor : Option ℤ
  pub minimum_payment_minor : Option ℤ
  pub previous_balance_minor : Option ℤ
  pub unresolved_candidate_count : ℕ
  pub status : BillStatus
  pub payoff_transfer_id : Option Uuid
  pub version : ℕ
  pub void_reason : Option Text
  pub paid_at : Option Time

abbrev pub row : Bill → Row
row b = record {
  bulk_attempt_generation = b.bulk_attempt_generation;
  period_start = b.period_start;
  period_end = b.period_end;
  statement_date = b.statement_date;
  due_date = b.due_date;
  settlement_currency = b.settlement_currency;
  amount_due_minor = b.amount_due_minor;
  minimum_payment_minor = b.minimum_payment_minor;
  previous_balance_minor = b.previous_balance_minor;
  unresolved_candidate_count = b.unresolved_candidate_count;
  status = b.status;
  payoff_transfer_id = b.payoff_transfer_id;
  version = b.version;
  void_reason = b.void_reason;
  paid_at = b.paid_at;
}

-- The columns that a save never writes.
abbrev pub SameColumns : Row → Row → Type 0
SameColumns r r' =
    (r.unresolved_candidate_count ≡ r'.unresolved_candidate_count)
    × (r.bulk_attempt_generation ≡ r'.bulk_attempt_generation)
    × (r.minimum_payment_minor ≡ r'.minimum_payment_minor)
    × (r.previous_balance_minor ≡ r'.previous_balance_minor)

abbrev pub is_complete : Row → Bool
is_complete r =
    is_some r.period_start
    && is_some r.period_end
    && is_some r.statement_date
    && is_some r.due_date
    && is_some r.settlement_currency
    && is_some r.amount_due_minor

-- The constraints on the header that hold in every status.
pub record HasSoundHeader (r : Row) : Type 0 where
  pub period : follows r.period_start r.period_end ≡ false
  pub dates : follows r.statement_date r.due_date ≡ false
  pub currency : holds (λ code. not (is_code code)) r.settlement_currency ≡ false
  pub amount : holds (λ amount. leb_ℤ amount (pos 0)) r.amount_due_minor ≡ false
  pub minimum : holds (λ amount. ltb_ℤ amount (pos 0)) r.minimum_payment_minor ≡ false
  pub previous : holds (λ amount. ltb_ℤ amount (pos 0)) r.previous_balance_minor ≡ false
  pub generation : 1 ≤ r.bulk_attempt_generation

-- The constraints that tie the other columns to the status.
abbrev pub payment_state : BillStatus → Option Uuid → Option Time → Bool
payment_state paid payoff paid_at = is_some payoff && is_some paid_at
payment_state _ payoff paid_at = not (is_some payoff) && not (is_some paid_at)

abbrev pub void_state : BillStatus → Option Text → Bool
void_state void reason = holds is_bounded_reason reason
void_state _ reason = not (is_some reason)

abbrev pub complete_state : BillStatus → Bool → Bool
complete_state review complete = true
complete_state void complete = true
complete_state _ complete = complete

pub record HasSoundState (r : Row) : Type 0 where
  pub complete : complete_state r.status (is_complete r) ≡ true
  pub payment : payment_state r.status r.payoff_transfer_id r.paid_at ≡ true
  pub unresolved : (r.unresolved_candidate_count == 0 || is_review r.status) ≡ true
  pub void : void_state r.status r.void_reason ≡ true

-- All check constraints of the table; that the status is one of four and that the count is not negative
-- hold by their types.
pub record IsValid (r : Row) : Type 0 where
  pub header : HasSoundHeader r
  pub state : HasSoundState r
  pub version : 1 ≤ r.version

-- What a user's requests see of the table.
abbrev pub View : Type 0
View = Uuid → Option Row

abbrev pub update : View → Uuid → Option Row → View
update v id r key = if key == id then r else v key

abbrev pub AllValid : View → Type 0
AllValid v = (id : Uuid) (r : Row) → v id ≡ some r → IsValid r

-- The edges of a bill's life that one request may follow: Review is left for Unpaid or Paid, Unpaid
-- for Paid or Void, and a Paid or Void bill is never written.
abbrev pub may_become : BillStatus → BillStatus → Bool
may_become review void = false
may_become review _ = true
may_become unpaid paid = true
may_become unpaid void = true
may_become _ _ = false

-- How one request that names the version `n` may change one row. It writes or removes only a row of
-- that version, and a write raises the version by one.
pub data Change (n : ℕ) : Option Row → Option Row → Type 0 where
  keep : {o : Option Row} → Change n o o
  create : {r : Row} → is_void r.status ≡ false → Change n none (some r)
  write :
      {r r' : Row}
      → may_become r.status r'.status ≡ true
      → r.version ≡ n
      → r'.version ≡ n + 1
      → Change n (some r) (some r')
  remove : {r : Row} → is_review r.status ≡ true → r.version ≡ n → Change n (some r) none

-- How one request may change the table: not at all, or one row.
pub data Evolves (n : ℕ) (v v' : View) : Type 0 where
  same : v' ≡ v → Evolves n v v'
  put :
      (id : Uuid) (r : Row)
      → v' ≡ update v id (some r)
      → IsValid r
      → Change n (v id) (some r)
      → Evolves n v v'
  drop : (id : Uuid) → v' ≡ update v id none → Change n (v id) none → Evolves n v v'

pub update-update :
    (v : View) (id : Uuid) (r s : Option Row) → update (update v id r) id s ≡ update v id s
update-update v id r s = fun_ext λ key. ground arith

pub update_self : (v : View) (id : Uuid) (r : Option Row) → update v id r id ≡ r
update_self v id r = rw (==-self id)

Change-update :
    {n : ℕ} (v : View) (id key : Uuid) (r : Option Row)
    → Change n (v id) r
    → Change n (v key) (update v id r key)
Change-update v id key r c = elim (==-cases key id) [
  | inl e ↦ rw (e, ==-self id) c
  | inr e ↦ rw e keep
]

AllValid-update :
    (v : View) (id : Uuid) (r : Option Row)
    → AllValid v
    → ((s : Row) → r ≡ some s → IsValid s)
    → AllValid (update v id r)
AllValid-update v id r valid new key s e = elim (==-cases key id) [
  | inl here ↦ new s (sym (rw (here, ==-self id)) ∙ e)
  | inr other ↦ valid key s (sym (rw other) ∙ e)
]

pub Evolves-AllValid : {n : ℕ} {v v' : View} → Evolves n v v' → AllValid v → AllValid v'
Evolves-AllValid (same e) valid = rw e valid
Evolves-AllValid {v} (put id r e sound c) valid =
    rw e (AllValid-update v id (some r) valid (λ s p. subst IsValid (cc p) sound))
Evolves-AllValid {v} (drop id e c) valid =
    rw e (AllValid-update v id none valid (λ s p. absurd (cc p)))

pub Evolves-Change :
    {n : ℕ} {v v' : View} → Evolves n v v' → (key : Uuid) → Change n (v key) (v' key)
Evolves-Change (same e) key = rw e keep
Evolves-Change {v} (put id r e sound c) key = rw e (Change-update v id key (some r) c)
Evolves-Change {v} (drop id e c) key = rw e (Change-update v id key none c)

abbrev version_of : Option Row → ℕ
version_of none = 0
version_of (some r) = r.version

settled_of :
    {q r : Row}
    → some q ≡ some r
    → (is_paid r.status || is_void r.status) ≡ true
    → (is_paid q.status || is_void q.status) ≡ true
settled_of e h = ground arith

no_edge : (s t : BillStatus) → may_become s t ≡ true → (is_paid s || is_void s) ≡ true → ⊥
no_edge s t h k = ground arith

no_review : (s : BillStatus) → is_review s ≡ true → (is_paid s || is_void s) ≡ true → ⊥
no_review s h k = ground arith

pub Change-stale :
    {n : ℕ} {o o' : Option Row} {r : Row} → Change n o o' → o ≡ some r → r.version ≢ n → o' ≡ some r
Change-stale keep e stale = e
Change-stale (create _) e stale = absurd (cc e)
Change-stale (write {r = q} _ at _) e stale = absurd (stale (sym (ap version_of e) ∙ at))
Change-stale (remove {r = q} _ at) e stale = absurd (stale (sym (ap version_of e) ∙ at))

pub Change-settled :
    {n : ℕ} {o o' : Option Row} {r : Row}
    → Change n o o'
    → o ≡ some r
    → (is_paid r.status || is_void r.status) ≡ true
    → o' ≡ some r
Change-settled keep e settled = e
Change-settled (create _) e settled = absurd (cc e)
Change-settled (write {r = q} edge _ _) e settled =
    absurd (no_edge q.status _ edge (settled_of e settled))
Change-settled (remove {r = q} in_review _) e settled =
    absurd (no_review q.status in_review (settled_of e settled))
