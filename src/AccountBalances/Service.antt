-- ===== src/AccountBalances/Service.antt =====
-- The methods of `Service` (backend/internal/accountbalances/service.go). The clock readings and the
-- new identifier of a call are arguments; `S` is the state of the repository.
use wealth_management.Prelude.{
  Bool, true, false, not, ◌&&◌, ◌||◌, Option, none, some, List, [], ◌∷◌, ℕ, ◌*◌, ◌==◌,
  if◌then◌else◌, map,
}
use wealth_management.Prelude.Int.{ℤ, pos, ◌+ℤ◌, eqb_ℤ, wrap_int64}
use wealth_management.Prelude.Text.{Text}
use wealth_management.GoTime.{Time, second, after, time_eq, is_zero, utc, add}
use wealth_management.CreditCard.Types.{Uuid, nil_uuid}
use wealth_management.AccountBalances.Types.{
  system_treatment_immutable, validation, wrapped, is_not_found, Result, ok, err, ◌>>=◌,
  BalanceAmount, OpeningBalanceRevision, FinancialAccount, configured, ConfirmedMovement,
  ReplaceOpeningBalanceParams, transaction_total, TreatmentSource, CalculationTreatment,
  TransactionForTreatment, CalculationTreatmentView, PutUserTreatmentParams, BalanceView,
  SetOpeningBalanceRequest, SetTreatmentRequest, Repository,
}
use wealth_management.AccountBalances.MinorUnits.{format_int}
use wealth_management.AccountBalances.Opening.{
  sort_by_currency, normalize_balances, balance_amounts_equal, correction_reason, is_safe_key,
}
use wealth_management.AccountBalances.Balances.{opening_totals, apply_movements}
use wealth_management.AccountBalances.Treatment.{
  check_line_items, is_basis, uses_line_items, treatment_reason,
}

-- What `openingBalanceRequestHash` puts into the JSON text.
pub record HashedRequest : Type 0 where
  pub account_id : Uuid
  pub expected_version : ℤ
  pub balances : List (Text × Text)
  pub as_of : Text
  pub correction_reason : Option Text

abbrev pub configured_view : FinancialAccount → List BalanceAmount → BalanceView
configured_view account totals = record {
  account_id = account.id;
  account_name = account.name;
  state = "configured";
  side = account.side;
  version = account.baseline_version;
  as_of = account.baseline_as_of;
  opening_balances = account.baseline;
  current_balances = sort_by_currency totals;
}

abbrev pub unconfigured_view : FinancialAccount → BalanceView
unconfigured_view account = record {
  account_id = account.id;
  account_name = account.name;
  state = "unconfigured";
  side = account.side;
  version = account.baseline_version;
  as_of = account.baseline_as_of;
  opening_balances = [];
  current_balances = [];
}

-- The balances from the movements of a configured account, if they could be read.
unfoldable pub view_from :
    FinancialAccount → Time → Result (List ConfirmedMovement) → Result BalanceView
view_from account as_of movements = movements >>= λ ms.
    apply_movements account.side as_of (opening_totals [] account.baseline) ms >>= λ totals.
    ok (configured_view account totals)

-- The view of an account that has no treatment of its own, or of the one recorded.
unfoldable pub treatment_view : TransactionForTreatment → CalculationTreatmentView
treatment_view transaction = elim transaction.treatment [
  | none ↦ record {
    transaction_id = transaction.id;
    basis = transaction_total;
    source = TreatmentSource.default;
    reason = none;
    immutable = false;
    updated_at = none;
  }
  | some treatment ↦ record {
    transaction_id = transaction.id;
    basis = treatment.basis;
    source = treatment.source;
    reason = some treatment.reason;
    immutable = elim treatment.source [ TreatmentSource.system ↦ true | _ ↦ false ];
    updated_at = some (utc treatment.updated_at);
  }
]

-- The guard of `SetUserTreatment`.
abbrev pub is_system_treated : TransactionForTreatment → Bool
is_system_treated transaction = elim transaction.treatment [
  | none ↦ false
  | some treatment ↦ elim treatment.source [ TreatmentSource.system ↦ true | _ ↦ false ]
]

-- The checks of `SetUserTreatment` and the parameters that it stores.
unfoldable pub user_treatment :
    TransactionForTreatment → SetTreatmentRequest → Result PutUserTreatmentParams
user_treatment transaction request =
    if is_system_treated transaction
    then err system_treatment_immutable
    else if not (is_basis request.basis)
    then err (validation "invalid spending basis")
    else (treatment_reason request.reason >>= λ reason.
        (if uses_line_items request.basis then check_line_items transaction else ok tt) >>= λ _.
        ok (record {
          basis = request.basis;
          reason = reason;
          expected_updated_at = request.expected_updated_at;
        }))

module _ {S : Type 0} (repository : Repository S) where
  unfoldable pub balance_view : Uuid → FinancialAccount → S → Result BalanceView
  unfolding view_from configured
  balance_view user account s =
      if not (configured account)
      then ok (unconfigured_view account)
      else elim account.baseline_as_of [
        | none ↦ ok (unconfigured_view account)
        | some as_of ↦
            view_from account as_of
              (repository.list_confirmed_movements_after user account.id as_of s)
      ]

  abbrev views : Uuid → List FinancialAccount → S → Result (List BalanceView)
  views user [] s = ok []
  views user (account ∷ accounts) s =
      balance_view user account s >>= λ view. views user accounts s >>= λ rest. ok (view ∷ rest)

  unfoldable pub list_balances : Uuid → S → Result (List BalanceView)
  unfolding balance_view
  list_balances user s =
      repository.list_financial_accounts user s >>= λ accounts. views user accounts s

  unfoldable pub get_balance : Uuid → Uuid → S → Result BalanceView
  unfolding balance_view
  get_balance user account_id s =
      repository.get_financial_account user account_id s >>= λ account. balance_view user account s

  unfoldable pub get_calculation_treatment : Uuid → Uuid → S → Result CalculationTreatmentView
  unfolding treatment_view
  get_calculation_treatment user transaction_id s =
      repository.get_transaction_for_treatment user transaction_id s >>= λ transaction.
      ok (treatment_view transaction)

  unfoldable pub list_opening_balance_history :
      Uuid → Uuid → S → Result (List OpeningBalanceRevision)
  list_opening_balance_history user account_id s =
      repository.list_opening_balance_revisions user account_id s

  unfoldable pub set_user_treatment :
      Uuid → Uuid → SetTreatmentRequest → S → Result CalculationTreatment × S
  unfolding user_treatment
  set_user_treatment user transaction_id request s =
      elim (repository.get_transaction_for_treatment user transaction_id s) [
        | err e ↦ (err e, s)
        | ok transaction ↦ elim (user_treatment transaction request) [
          | err e ↦ (err e, s)
          | ok params ↦ repository.put_user_treatment user transaction_id params s
        ]
      ]

  unfoldable pub lock_payoff_treatments : Uuid → List Uuid → S → Result (Unit {0}) × S
  unfolding is_not_found
  lock_payoff_treatments user (a ∷ b ∷ []) s =
      if a == nil_uuid || b == nil_uuid || a == b
      then (err (validation "exactly two distinct payoff legs are required"), s)
      else (let (locked, s') =
            repository.lock_system_payoff_exclusions user (a ∷ b ∷ []) "credit_card_payoff" s in
          elim locked [
            | ok u ↦ (ok u, s')
            | err e ↦ (err (if is_not_found e then e else wrapped "lock payoff treatments" e), s')
          ])
  lock_payoff_treatments user _ s =
      (err (validation "exactly two distinct payoff legs are required"), s)

-- `openingBalanceRequestHash`: `format_time` is `Format(time.RFC3339Nano)`, `digest` the JSON encoding
-- followed by SHA-256 in hexadecimal.
unfoldable pub opening_balance_request_hash :
    (Time → Text)
    → (HashedRequest → Text)
    → Uuid
    → ℤ
    → List BalanceAmount
    → Time
    → Option Text
    → Text
opening_balance_request_hash format_time digest account_id expected balances as_of reason =
    digest (record {
      account_id = account_id;
      expected_version = expected;
      balances = map (λ b. (b.currency, format_int b.minor_units)) balances;
      as_of = format_time as_of;
      correction_reason = reason;
    })

-- The guard against a correction that changes nothing.
unfoldable pub is_unchanged :
    FinancialAccount → SetOpeningBalanceRequest → List BalanceAmount → Bool
unfolding configured balance_amounts_equal
is_unchanged account request balances =
    eqb_ℤ request.expected_version account.baseline_version
    && configured account
    && elim account.baseline_as_of [ none ↦ false | some as_of ↦ time_eq as_of (utc request.as_of) ]
    && balance_amounts_equal account.baseline balances

module _ (upper_rune : ℕ → ℕ) (parse_iso : Text → Bool) (format_time : Time → Text)
    (digest : HashedRequest → Text) where
  -- The checks of `SetOpeningBalance` and the parameters that it stores, at its two clock readings.
  unfoldable pub opening_params :
      Time
      → Time
      → Uuid
      → Uuid
      → Uuid
      → FinancialAccount
      → SetOpeningBalanceRequest
      → Text
      → Result ReplaceOpeningBalanceParams
  opening_params checked_at read_at fresh user account_id account request key =
      let as_of = utc request.as_of in
      let changed_at = utc read_at in
      let next_version = wrap_int64 (request.expected_version +ℤ pos 1) in
      if is_zero request.as_of || after request.as_of (add checked_at second)
      then err (validation "as_of must not be in the future")
      else (normalize_balances upper_rune parse_iso request.balances account.account_type
          >>= λ balances.
              if is_unchanged account request balances
              then err
                  (validation "an opening-balance correction must change the balances or as_of")
              else (correction_reason request.expected_version request.correction_reason
                  >>= λ reason. ok (record {
                    expected_version = request.expected_version;
                    balances = balances;
                    as_of = as_of;
                    revision = record {
                      id = fresh;
                      account_id = account_id;
                      version = next_version;
                      balances = balances;
                      as_of = as_of;
                      correction_reason = reason;
                      changed_by_user_id = user;
                      changed_at = changed_at;
                    };
                    idempotency_key = key;
                    request_hash =
                        opening_balance_request_hash format_time digest account_id
                          request.expected_version balances as_of reason;
                    expires_at = add changed_at (24 * 3600 * second);
                  })))

  module _ {S : Type 0} (repository : Repository S) where
    unfoldable pub set_opening_balance :
        Time
        → Time
        → Uuid
        → Uuid
        → Uuid
        → SetOpeningBalanceRequest
        → Text
        → S
        → Result BalanceView × S
    unfolding is_safe_key opening_params balance_view
    set_opening_balance checked_at read_at fresh user account_id request key s =
        if not (is_safe_key key)
        then (err (validation "Idempotency-Key must contain 32 to 128 visible ASCII characters"), s)
        else elim (repository.get_financial_account user account_id s) [
          | err e ↦ (err e, s)
          | ok account ↦
              elim (opening_params checked_at read_at fresh user account_id account request key) [
                | err e ↦ (err e, s)
                | ok params ↦
                    let (replaced, s') =
                      repository.replace_opening_balance user account_id params s in
                    elim replaced [
                      | err e ↦ (err e, s')
                      | ok updated ↦ (balance_view repository user updated s', s')
                    ]
              ]
        ]
