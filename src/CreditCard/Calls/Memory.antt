-- ===== src/CreditCard/Calls/Memory.antt =====
-- A store in memory that keeps the contract of `Tx`: the statements as a function, one card account
-- with no transfers and no bank debits on record, and every idempotency key acquired.
use wealth_management.Prelude.{
  ℕ, ◌≡◌, refl, sym, ap, ◌∙◌, fun_ext, Bool, false, true, All, all, ◌≤◌, ◌+◌, ◌-◌, ◌∷◌, arith, ◌&&◌,
  ◌||◌, Option, none, some, [], ◌==◌, if◌then◌else◌, leb, length, Bool-cases, inl, inr, &&-true,
  ==_iff,
}
use wealth_management.Prelude.Int.{pos}
use wealth_management.Prelude.Text.{Text, codes, is_space}
use wealth_management.Prelude.Decimal.{decimal}
use wealth_management.GoTime.{Time}
use wealth_management.CreditCard.Types.{
  Uuid, not_found, version_conflict, debit, acquired, InternalTransfer, CanonicalTransaction, Bill,
  PayoffResult, is_review,
}
use wealth_management.CreditCard.Action.{
  Result, ok, err, World, Action, pure, fail, Tx, Service, done,
}
use wealth_management.CreditCard.Currencies.{Alphabet, is_letter}
use wealth_management.CreditCard.Statement.{Row, row, SameColumns, View, update}
use wealth_management.CreditCard.Contract.{
  Reads, ReadsPost, Commits, CommitsPost, Loaded, Saved, Projected, Reads-pure, Reads-fail,
  StoreContract,
}

abbrev pub Memory : Type 0
Memory = Uuid → Option Bill

abbrev pub stored_row : Option Bill → Option Row
stored_row none = none
stored_row (some b) = some (row b)

abbrev pub table : Memory → View
table bills id = stored_row (bills id)

abbrev listed : Uuid → Bill → Bool
listed id b = b.id == id

found : Uuid → World Memory → Option Bill → Result Bill × World Memory
found id w none = (err not_found, w)
found id w (some b) = if listed id b then (ok b, w) else (err not_found, w)

unfoldable pub get_bill : Uuid → Uuid → Action Memory Bill
unfolding found
get_bill user id w = found id w (w.db id)

abbrev replace : Memory → Uuid → Option Bill → Memory
replace bills id b key = if key == id then b else bills key

saved : World Memory → Bill → ℕ → Option Bill → Result Bill × World Memory
saved w b expected none = (err version_conflict, w)
saved w b expected (some old) =
    if old.version == expected && (b.unresolved_candidate_count == 0 || is_review b.status)
    then (ok b, record w { db = replace w.db b.id (some b) })
    else (err version_conflict, w)

unfoldable pub save_bill : Uuid → Bill → ℕ → Action Memory Bill
unfolding saved
save_bill user b expected w = saved w b expected (w.db b.id)

unfoldable pub delete_bill : Uuid → Uuid → ℕ → Action Memory (Unit {0})
delete_bill user id expected w = (ok tt, record w { db = replace w.db id none })

abbrev epoch : Time
epoch = record { instant = 1; wall = 1 }

abbrev no_transaction : CanonicalTransaction
no_transaction = record {
  id = 71;
  account_id = 8;
  account_type = "bank_account";
  direction = debit;
  original_currency = codes "SGD";
  original_amount_minor = pos 5000;
  occurred_at = epoch;
  time_precision = "date";
  transfer = none;
}

abbrev transfer : InternalTransfer
transfer = record {
  id = 90;
  debit_transaction_id = 71;
  credit_transaction_id = 72;
  debit_account_id = 8;
  debit_account_type = "bank_account";
  credit_account_id = 7;
  currency = codes "SGD";
  amount_minor = pos 5000;
  occurred_at = epoch;
}

abbrev payoff : PayoffResult
payoff = record { transfer = transfer; treatment_transaction_ids = [] }

abbrev pub memory_tx : Tx Memory
memory_tx = record {
  get_bill_for_update = get_bill;
  project_bill_from_bulk = λ _ _ _. fail not_found;
  get_line_for_update = λ _ _ _. fail not_found;
  get_transaction_for_update = λ _ _. pure no_transaction;
  save_bill = save_bill;
  save_line = λ _ line. pure line;
  append_bill_event = λ _ _. pure tt;
  delete_review_bill = delete_bill;
  is_transaction_linked_to_another_line = λ _ _ _. pure false;
  create_transaction_from_pinned_candidate = λ _ _ _ _. fail not_found;
  find_exact_payoff_transfers = λ _ _ _ _ _ _. pure [];
  find_bank_debit_candidates = λ _ _ _ _ _ _. pure [];
  create_missing_card_leg_and_transfer = λ _ _ _ _ _ _. pure payoff;
  create_full_payoff_transfer = λ _ _ _ _ _ _. pure payoff;
  lock_system_payoff_exclusions = λ _ _ _. pure tt;
  claim_idempotency =
      λ _ _ _ _ _ _. pure (record { state = acquired; bill = none; response_status = 0 });
  complete_idempotency = λ _ _ _ _ _ _ _. pure tt;
}

-- ASCII letters only.
unfoldable pub upper : ℕ → ℕ
upper c = if leb 97 c && leb c 122 then c - 32 else c

unfoldable pub is_alphabetic : Text → Bool
unfolding all
is_alphabetic t = all is_letter t && length t == 3

all-is_letter : (t : Text) → all is_letter t ≡ true → All (λ c. is_letter c ≡ true) t
unfolding all
all-is_letter [] h = tt
all-is_letter (c ∷ t) h = (ground arith, all-is_letter t (ground arith))

letters-is_alphabetic :
    (t : Text) → is_alphabetic t ≡ true → (length t ≡ 3) × All (λ c. is_letter c ≡ true) t
unfolding is_alphabetic
letters-is_alphabetic t h = (ground arith, all-is_letter t (ground arith))

capital-upper : (c : ℕ) → 97 ≤ c → c ≤ 122 → upper c + 32 ≡ c
unfolding upper
capital-upper c low high = ground arith

space-upper : (c : ℕ) → is_space (upper c) ≡ is_space c
unfolding upper is_space
space-upper c = elim (Bool-cases (leb 97 c && leb c 122)) [
  | inl e ↦ rw e (ground arith)
  | inr e ↦ rw e refl
]

pub memory-Alphabet : Alphabet upper is_alphabetic
memory-Alphabet = record {
  letters = letters-is_alphabetic;
  capital = capital-upper;
  space = space-upper;
}

abbrev pub memory_service : Service Memory
memory_service = record {
  tx = memory_tx;
  begin = λ _. none;
  commit = λ _. done;
  clock = λ n. record { instant = n; wall = n };
  new_uuid = λ n. n;
  upper_rune = upper;
  parse_iso = is_alphabetic;
  uuid_text = decimal;
  sha256_hex = λ t. t;
}

row_at :
    (v : View) (id : Uuid) (bills : Memory) (b : Bill)
    → table bills ≡ v
    → bills id ≡ some b
    → v id ≡ some (row b)
row_at v id bills b t e = sym (ap (λ (f : View). f id) t) ∙ ap stored_row e

found-Loaded :
    (v : View) (id : Uuid) (w : World Memory) (o : Option Bill)
    → w.db id ≡ o
    → table w.db ≡ v
    → ReadsPost table v (Loaded v id) (found id w o)
unfolding found
found-Loaded v id w none e t = tt
found-Loaded v id w (some b) e t = elim (Bool-cases (listed id b)) [
  | inl yes_listed ↦ rw yes_listed (t, (row_at v id w.db b t e, (==_iff b.id id).0 yes_listed))
  | inr no_listed ↦ rw no_listed tt
]

get_bill-Loaded : (v : View) (user id : Uuid) → Reads table v (get_bill user id) (Loaded v id)
unfolding get_bill
get_bill-Loaded v user id = record { at = λ w t. found-Loaded v id w (w.db id) refl t }

replaced_table :
    (bills : Memory) (id : Uuid) (o : Option Bill) (v : View) (r : Option Row)
    → table bills ≡ v
    → stored_row o ≡ r
    → table (replace bills id o) ≡ update v id r
replaced_table bills id o v r t e = fun_ext λ key. elim (Bool-cases (key == id)) [
  | inl here ↦ rw (here, table) e
  | inr other ↦ rw (other, table) (ap (λ (f : View). f key) t)
]

saved-Saved :
    (v : View) (b : Bill) (expected : ℕ) (old : Row) (w : World Memory) (o : Option Bill)
    → w.db b.id ≡ o
    → v b.id ≡ some old
    → table w.db ≡ v
    → CommitsPost table (Saved v old b expected) (saved w b expected o)
unfolding saved
saved-Saved v b expected old w none e stored t = tt
saved-Saved v b expected old w (some q) e stored t =
    elim (Bool-cases
      (q.version == expected && (b.unresolved_candidate_count == 0 || is_review b.status))) [
        | inl same ↦
            let parts = &&-true _ _ same in
            let at_row : some (row q) ≡ some old = sym (row_at v b.id w.db q t e) ∙ stored in
            let as_row : row q ≡ old = cc in
            let version : q.version ≡ expected = (==_iff q.version expected).0 parts.0 in
            rw same (
              sym (ap (λ (r : Row). r.version) as_row) ∙ version,
              refl,
              replaced_table w.db b.id (some b) v (some (row b)) t refl,
              parts.1,
            )
        | inr other ↦ rw other tt
      ]

save_bill-Saved :
    (v : View) (user : Uuid) (b : Bill) (expected : ℕ) (old : Row)
    → v b.id ≡ some old
    → SameColumns old (row b)
    → Commits table v (save_bill user b expected) (Saved v old b expected)
unfolding save_bill
save_bill-Saved v user b expected old stored _ = record {
  at = λ w t. saved-Saved v b expected old w (w.db b.id) refl stored t;
}

delete_bill-update :
    (v : View) (user id : Uuid) (expected : ℕ)
    → Commits table v (delete_bill user id expected) (λ _ u. u ≡ update v id none)
unfolding delete_bill
delete_bill-update v user id expected = record {
  at = λ w t. replaced_table w.db id none v none t refl;
}

Commits-fail : {A : Type 0} (v : View) (Q : A → View → Type 0) → Commits table v (fail not_found) Q
unfolding fail
Commits-fail v Q = record { at = λ w t. tt }

pub memory_contract : StoreContract memory_tx table
memory_contract = record {
  get_bill_lem = get_bill-Loaded;
  project_lem = λ v _ _ _. Commits-fail v (Projected v);
  save_bill_lem = save_bill-Saved;
  delete_lem = delete_bill-update;
  get_line_lem = λ _ _ _ _. Reads-fail _;
  get_transaction_lem = λ _ _ _. Reads-pure _ tt;
  save_line_lem = λ _ _ _. Reads-pure _ tt;
  append_event_lem = λ _ _ _. Reads-pure _ tt;
  linked_lem = λ _ _ _ _. Reads-pure _ tt;
  create_transaction_lem = λ _ _ _ _ _. Reads-fail _;
  find_transfers_lem = λ _ _ _ _ _ _ _. Reads-pure _ tt;
  find_debits_lem = λ _ _ _ _ _ _ _. Reads-pure _ tt;
  create_leg_lem = λ _ _ _ _ _ _ _. Reads-pure _ tt;
  create_payoff_lem = λ _ _ _ _ _ _ _. Reads-pure _ tt;
  lock_lem = λ _ _ _ _. Reads-pure _ tt;
  claim_lem = λ _ _ _ _ _ _ _. Reads-pure _ tt;
  complete_lem = λ _ _ _ _ _ _ _ _. Reads-pure _ tt;
}
