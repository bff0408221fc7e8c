-- ===== src/AccountBalances/Tests.antt =====
-- The account balances at concrete inputs.
use wealth_management.Prelude.{
  ℕ, ◌+◌, ◌-◌, ◌*◌, true, false, ◌&&◌, ◌||◌, none, some, List, [], ◌∷◌, map, ◌≡◌, refl, ◌↔◌, ◌≢◌,
  All, length, arith, leb, if◌then◌else◌, all, ◌≤◌,
}
use wealth_management.Prelude.Int.{pos, negsuc, ◌+ℤ◌, ◌-ℤ◌, wrap_int64}
use wealth_management.Prelude.Text.{text_lt, Text, codes, text_eq, trim_space, byte_len}
use wealth_management.Currency.{is_iso4217}
use wealth_management.GoTime.{Time, second, utc}
use mathlib.Core.List.{Perm}
use wealth_management.AccountBalances.Types.{
  ok, asset, TransactionKind, debit, credit, BalanceAmount, FinancialAccount, ConfirmedMovement,
  ReplaceOpeningBalanceParams, line_items, TransactionForTreatment, SetTreatmentRequest,
  SetOpeningBalanceRequest, PutUserTreatmentParams, BalanceView,
}
use wealth_management.AccountBalances.MinorUnits.{
  is_canonical, canonical_minor_units, digits_value, parse_int64, parse_minor_units, format_int,
}
use wealth_management.AccountBalances.Opening.{
  insert_sorted, sort_by_currency, normalize_balance, normalize_each, normalize_balances,
  correction_reason,
}
use wealth_management.AccountBalances.Balances.{
  amount_of, put_amount, opening_totals, signed_delta, is_skipped, overflows, add_movement,
  apply_movements,
}
use wealth_management.AccountBalances.Treatment.{
  add_line_item, sum_line_items, check_line_items, is_basis, uses_line_items, treatment_reason,
}
use wealth_management.AccountBalances.Sorted.{IsSorted}
use wealth_management.AccountBalances.Exact.{net, Bounded}
use wealth_management.AccountBalances.Range.{StaysInRange, apply_movements_ok_iff}
use wealth_management.AccountBalances.LineSums.{IsComplete, line_sum, check_line_items_iff}
use wealth_management.AccountBalances.RoundTrip.{parse_minor_units-format_int}
use wealth_management.AccountBalances.View.{opening_amount, view_from_exact}
use wealth_management.AccountBalances.Params.{
  IsFullySplit, HasReason, user_treatment_sound, opening_params_sound,
}
use wealth_management.AccountBalances.Normalized.{printed, IsOpening}
use wealth_management.AccountBalances.Service.{
  view_from, is_system_treated, user_treatment, is_unchanged, opening_balance_request_hash,
  opening_params,
}

abbrev at : ℕ → Time
at n = record { instant = n; wall = n }

abbrev sgd : Text
sgd = codes "SGD"

abbrev eur : Text
eur = codes "EUR"

abbrev savings : FinancialAccount
savings = record {
  id = 1;
  name = codes "Savings";
  account_type = "bank_account";
  side = asset;
  baseline = record { currency = sgd; minor_units = pos 500 } ∷ [];
  baseline_as_of = some (at 100);
  baseline_version = pos 1;
}

abbrev movement : ℕ → TransactionKind → Text → ℕ → ℕ → ConfirmedMovement
movement id kind currency amount time = record {
  transaction_id = id;
  kind = kind;
  currency = currency;
  minor_units = pos amount;
  occurred_at = at time;
}

-- A payment of 700 that overdraws the account, one before the baseline, and income in another currency.
abbrev movements : List ConfirmedMovement
movements =
    movement 1 debit sgd 700 101 ∷ movement 2 debit sgd 9 100 ∷ movement 3 credit eur 30 102 ∷ []

abbrev shown : List BalanceAmount
shown =
    record { currency = eur; minor_units = pos 30 }
    ∷ record { currency = sgd; minor_units = negsuc 199 }
    ∷ []

abbrev savings_view : BalanceView
savings_view = record {
  account_id = 1;
  account_name = codes "Savings";
  state = "configured";
  side = asset;
  version = pos 1;
  as_of = some (at 100);
  opening_balances = savings.baseline;
  current_balances = shown;
}

view_from_exact_example :
    IsSorted shown
    × ((c : Text)
        → amount_of c shown ≡ opening_amount c savings.baseline +ℤ net asset (at 100) c movements)
unfolding view_from opening_totals put_amount apply_movements is_skipped add_movement signed_delta
    overflows amount_of sort_by_currency insert_sorted text_lt text_eq wrap_int64 ◌+ℤ◌ ◌-ℤ◌
view_from_exact_example =
    view_from_exact savings (at 100) movements savings_view (ground arith) (ground arith) refl

apply_movements_ok_iff_example :
    ((totals : List BalanceAmount) × (apply_movements asset (at 100) [] movements ≡ ok totals))
    ↔ StaysInRange asset (at 100) [] movements
unfolding Bounded amount_of
apply_movements_ok_iff_example =
    apply_movements_ok_iff asset (at 100) [] movements (λ c. omega arith) (ground arith)

parse_minor_units-format_int_example :
    (parse_minor_units (codes "-9223372036854775808") ≡ ok (negsuc 9223372036854775807))
    ↔ (codes "-9223372036854775808" ≡ format_int (negsuc 9223372036854775807))
parse_minor_units-format_int_example =
    parse_minor_units-format_int (codes "-9223372036854775808") (negsuc 9223372036854775807)
      (omega arith)

abbrev groceries : TransactionForTreatment
groceries = record {
  id = 4;
  original_currency = sgd;
  original_amount_minor = pos 1000;
  line_items =
      record { currency = sgd; line_total_minor = some (pos 400) }
      ∷ record { currency = sgd; line_total_minor = some (pos 600) }
      ∷ [];
  treatment = none;
}

check_line_items_iff_example : (check_line_items groceries ≡ ok tt) ↔ (
    (length groceries.line_items ≢ 0)
    × All (IsComplete groceries.original_currency) groceries.line_items
    × (line_sum groceries.line_items ≡ groceries.original_amount_minor))
check_line_items_iff_example =
    check_line_items_iff groceries (omega arith) (omega arith) (ground arith)

abbrev split : SetTreatmentRequest
split = record { basis = line_items; reason = codes " shared "; expected_updated_at = none }

abbrev split_params : PutUserTreatmentParams
split_params = record { basis = line_items; reason = codes "shared"; expected_updated_at = none }

user_treatment_sound_example :
    (is_system_treated groceries ≡ false)
    × (split_params.basis ≡ split.basis)
    × (is_basis split.basis ≡ true)
    × (split_params.reason ≡ trim_space split.reason)
    × (1 ≤ byte_len split_params.reason)
    × (byte_len split_params.reason ≤ 500)
    × ((uses_line_items split.basis ≡ true) → IsFullySplit groceries)
unfolding user_treatment treatment_reason check_line_items sum_line_items add_line_item text_eq
    trim_space byte_len wrap_int64 ◌+ℤ◌ ◌-ℤ◌
user_treatment_sound_example =
    user_treatment_sound groceries split split_params (omega arith) (omega arith) (ground arith)
      refl

abbrev upper : ℕ → ℕ
upper c = if leb 97 c && leb c 122 then c - 32 else c

abbrev correction : SetOpeningBalanceRequest
correction = record {
  balances = (sgd, codes "-25") ∷ (eur, codes "30") ∷ [];
  as_of = at 200;
  expected_version = pos 1;
  correction_reason = some (codes "typing error");
}

abbrev corrected : List BalanceAmount
corrected =
    record { currency = eur; minor_units = pos 30 }
    ∷ record { currency = sgd; minor_units = negsuc 24 }
    ∷ []

abbrev correction_params : ReplaceOpeningBalanceParams
correction_params = record {
  expected_version = pos 1;
  balances = corrected;
  as_of = at 200;
  revision = record {
    id = 9;
    account_id = 1;
    version = pos 2;
    balances = corrected;
    as_of = at 200;
    correction_reason = some (codes "typing error");
    changed_by_user_id = 3;
    changed_at = at 301;
  };
  idempotency_key = [];
  request_hash = codes "hash";
  expires_at = at (301 + 24 * 3600 * second);
}

opening_params_sound_example :
    (correction_params.as_of ≡ utc correction.as_of)
    × (correction_params.as_of.instant ≢ 0)
    × (correction_params.as_of.instant ≤ 300 + second)
    × (IsSorted corrected
        × Perm (map printed corrected) correction.balances
        × All
            (IsOpening upper (λ c. text_eq c sgd || text_eq c eur) savings.account_type)
            corrected)
    × (correction_params.expected_version ≡ correction.expected_version)
    × (correction_params.revision.version ≡ correction_params.expected_version +ℤ pos 1)
    × (correction_params.revision.balances ≡ correction_params.balances)
    × (correction_params.revision.as_of ≡ correction_params.as_of)
    × HasReason correction_params
unfolding opening_params normalize_balances normalize_each normalize_balance parse_minor_units
    canonical_minor_units is_canonical parse_int64 digits_value all sort_by_currency insert_sorted
    text_lt text_eq is_unchanged correction_reason opening_balance_request_hash is_iso4217
    trim_space byte_len wrap_int64 ◌+ℤ◌ ◌-ℤ◌
opening_params_sound_example =
    opening_params_sound upper (λ c. text_eq c sgd || text_eq c eur) (λ _. []) (λ _. codes "hash")
      (at 300) (at 301) 9 3 1 savings correction [] correction_params (omega arith) (ground arith)
      refl
