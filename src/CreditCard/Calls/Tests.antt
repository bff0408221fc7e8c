-- ===== src/CreditCard/Calls/Tests.antt =====
-- Runs of the methods over the store in memory, and the theorems at them.
use wealth_management.Prelude.{
  ℕ, all, ◌≡◌, refl, sym, ◌∙◌, subst, true, false, Option, none, some, [], ◌∷◌, ◌==◌, if◌then◌else◌,
  Bool-cases, inl, inr, arith,
}
use wealth_management.Prelude.Int.{pos}
use wealth_management.Prelude.Text.{Text, codes}
use wealth_management.GoTime.{Time}
use wealth_management.CreditCard.Types.{Uuid, unpaid, paid, Bill, BillStatus}
use wealth_management.CreditCard.Action.{World}
use wealth_management.CreditCard.Currencies.{is_code}
use wealth_management.CreditCard.Statement.{row, IsValid, AllValid, Change}
use wealth_management.CreditCard.Calls.{Call, pay, cancel, run, serve}
use wealth_management.CreditCard.Calls.Memory.{
  Memory, table, memory_service, memory_contract, memory-Alphabet,
}
use wealth_management.CreditCard.Calls.History.{
  run-Change, serve-AllValid, stale_version_changes_nothing, serve-settled,
}

abbrev at : ℕ → Option Time
at n = some (record { instant = n; wall = n })

-- A complete Unpaid bill of 50.00 SGD.
abbrev bill : BillStatus → Option Uuid → Option Time → Bill
bill status payoff paid_at = record {
  id = 1;
  account_id = 7;
  bulk_document_id = 5;
  bulk_attempt_generation = 1;
  period_start = at 10;
  period_end = at 20;
  statement_date = at 20;
  due_date = at 40;
  settlement_currency = some (codes "SGD");
  amount_due_minor = some (pos 5000);
  minimum_payment_minor = none;
  previous_balance_minor = none;
  unresolved_candidate_count = 0;
  status = status;
  payoff_transfer_id = payoff;
  payment_candidate_transaction_id = none;
  payment_candidate_selected = false;
  ambiguous_payment_candidates = [];
  version = 3;
  void_reason = none;
  created_at = record { instant = 1; wall = 1 };
  updated_at = record { instant = 1; wall = 1 };
  paid_at = paid_at;
  evidence_url = [];
  projection_has_failures = false;
  lines = [];
  events = [];
}

abbrev world : Bill → World Memory
world b = record { db = λ id. if id == 1 then some b else none; ticks = 100; ids = 0 }

abbrev key : Text
key = codes "0123456789abcdef0123456789abcdef"

abbrev payment : ℕ → Call
payment version = pay 1 (record { expected_version = version; bank_account_id = 8 }) key

abbrev cancellation : ℕ → Call
cancellation version =
    cancel 1 (record { expected_version = version; reason = codes " twice " }) key

only_row : (b : Bill) → IsValid (row b) → AllValid (table (world b).db)
only_row b h id r e = elim (Bool-cases (id == 1)) [
  | inl here ↦ subst IsValid (cc (sym (first here) ∙ e)) h
  | inr other ↦ absurd (cc (sym (rest other) ∙ e))
]
  where
    first : (id == 1) ≡ true → table (world b).db id ≡ some (row b)
    first p = rw (p, table)

    rest : (id == 1) ≡ false → table (world b).db id ≡ none
    rest p = rw (p, table)

unpaid_IsValid : IsValid (row (bill unpaid none none))
unfolding is_code all
unpaid_IsValid = ground arith

paid_IsValid : IsValid (row (bill paid (some 90) (at 30)))
unfolding is_code all
paid_IsValid = ground arith

unpaid_AllValid : AllValid (table (world (bill unpaid none none)).db)
unpaid_AllValid = only_row (bill unpaid none none) unpaid_IsValid

paid_AllValid : AllValid (table (world (bill paid (some 90) (at 30))).db)
paid_AllValid = only_row (bill paid (some 90) (at 30)) paid_IsValid

run-Change_example :
    Change 3
      (table (world (bill unpaid none none)).db 1)
      (table (run memory_service 4 (payment 3) (world (bill unpaid none none))).1.db 1)
run-Change_example =
    run-Change memory_service table memory_contract memory-Alphabet 4 (payment 3)
      (world (bill unpaid none none)) 1 unpaid_AllValid

serve-AllValid_example : AllValid (
    table
      (serve memory_service
        ((4, payment 3) ∷ (4, cancellation 3) ∷ [])
        (world (bill unpaid none none))).db)
serve-AllValid_example =
    serve-AllValid memory_service table memory_contract memory-Alphabet
      ((4, payment 3) ∷ (4, cancellation 3) ∷ []) (world (bill unpaid none none)) unpaid_AllValid

stale_version_changes_nothing_example :
    table (run memory_service 4 (payment 2) (world (bill unpaid none none))).1.db 1
    ≡ some (row (bill unpaid none none))
stale_version_changes_nothing_example =
    stale_version_changes_nothing memory_service table memory_contract memory-Alphabet 4 (payment 2)
      (world (bill unpaid none none)) 1 (row (bill unpaid none none)) unpaid_AllValid refl
      (omega arith)

serve-settled_example :
    table
      (serve memory_service
        ((4, cancellation 3) ∷ (4, payment 3) ∷ [])
        (world (bill paid (some 90) (at 30)))).db
      1
    ≡ some (row (bill paid (some 90) (at 30)))
serve-settled_example =
    serve-settled memory_service table memory_contract memory-Alphabet
      ((4, cancellation 3) ∷ (4, payment 3) ∷ []) (world (bill paid (some 90) (at 30))) 1
      (row (bill paid (some 90) (at 30))) paid_AllValid refl refl
