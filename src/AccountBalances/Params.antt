-- ===== src/AccountBalances/Params.antt =====
-- What `SetOpeningBalance` and `SetUserTreatment` hand to the repository.
use wealth_management.Prelude.{
  ℕ, ◌+◌, ◌≤◌, Bool, true, false, ◌||◌, Option, none, some, ◌≡◌, refl, ◌⊎◌, inl, inr, All, length,
  arith, ap, sym, ◌∙◌, ◌≢◌, map,
}
use mathlib.Core.List.{Perm}
use wealth_management.Prelude.Int.{
  ℤ, pos, ◌+ℤ◌, ◌≤ℤ◌, eqb_ℤ_iff, IsInt64, max_int64, wrap_int64, wrap_int64_id, int_laws,
}
use wealth_management.Prelude.Text.{Text, trim_space, byte_len}
use wealth_management.GoTime.{Time, second, after, is_zero, add, utc}
use wealth_management.CreditCard.Types.{Uuid}
use wealth_management.AccountBalances.Types.{
  Result-cases, ok, FinancialAccount, ReplaceOpeningBalanceParams, TransactionForTreatment,
  SetTreatmentRequest, SetOpeningBalanceRequest, PutUserTreatmentParams,
}
use wealth_management.AccountBalances.Opening.{normalize_balances, correction_reason}
use wealth_management.AccountBalances.Treatment.{
  check_line_items, is_basis, uses_line_items, treatment_reason,
}
use wealth_management.AccountBalances.Sorted.{IsSorted}
use wealth_management.AccountBalances.Normalized.{printed, IsOpening, normalize_balances_sound}
use wealth_management.AccountBalances.LineSums.{
  line_total, IsComplete, line_sum, check_line_items_iff,
}
use wealth_management.AccountBalances.Service.{
  HashedRequest, is_system_treated, user_treatment, is_unchanged, opening_params,
}

unfoldable pub IsFullySplit : TransactionForTreatment → Type 0
unfolding IsComplete line_sum
IsFullySplit t =
    (length t.line_items ≢ 0)
    × All (IsComplete t.original_currency) t.line_items
    × (line_sum t.line_items ≡ t.original_amount_minor)

user_treatment_checks :
    (t : TransactionForTreatment) (request : SetTreatmentRequest) (params : PutUserTreatmentParams)
    → user_treatment t request ≡ ok params
    → (is_system_treated t ≡ false)
      × (params.basis ≡ request.basis)
      × (is_basis request.basis ≡ true)
      × (treatment_reason request.reason ≡ ok params.reason)
      × (params.expected_updated_at ≡ request.expected_updated_at)
      × ((uses_line_items request.basis ≡ true) → (check_line_items t ≡ ok tt))
unfolding user_treatment
user_treatment_checks t request params e = elim (Result-cases (treatment_reason request.reason)) [
  | inr (_, r) ↦ ground arith
  | inl (reason, r) ↦ elim (Result-cases (check_line_items t)) [
    | inr (_, c) ↦ ground arith
    | inl (_, c) ↦ ground arith
  ]
]

treatment_reason_sound :
    (given reason : Text)
    → treatment_reason given ≡ ok reason
    → (reason ≡ trim_space given) × (1 ≤ byte_len reason) × (byte_len reason ≤ 500)
unfolding treatment_reason
treatment_reason_sound given reason e = ground arith

-- Of a transaction with an amount and line totals that an `int64` holds, the amount not negative: a
-- treatment that is stored has the basis of the request, one of the three, and its reason without the
-- space around it, 1 to 500 bytes long; the transaction is not treated by the system; and if its line
-- items are to count, they are complete, in its currency and add up to its amount.
pub user_treatment_sound :
    (t : TransactionForTreatment) (request : SetTreatmentRequest) (params : PutUserTreatmentParams)
    → pos 0 ≤ℤ t.original_amount_minor
    → t.original_amount_minor ≤ℤ max_int64
    → All (λ i. IsInt64 (line_total i)) t.line_items
    → user_treatment t request ≡ ok params
    → (is_system_treated t ≡ false)
      × (params.basis ≡ request.basis)
      × (is_basis request.basis ≡ true)
      × (params.reason ≡ trim_space request.reason)
      × (1 ≤ byte_len params.reason)
      × (byte_len params.reason ≤ 500)
      × ((uses_line_items request.basis ≡ true) → IsFullySplit t)
unfolding IsFullySplit
user_treatment_sound t request params p q b e =
    let (s, c, v, r, _, l) = user_treatment_checks t request params e in
    let (r', n, m) = treatment_reason_sound request.reason params.reason r in
    (s, c, v, r', n, m, λ u. (check_line_items_iff t p q b).0 (l u))

-- What a correction is stored with: no reason for the first balance, and 1 to 500 bytes later on.
correction_reason_sound :
    (expected : ℤ) (given reason : Option Text)
    → correction_reason expected given ≡ ok reason
    → ((expected ≡ pos 0) × (reason ≡ none))
      ⊎ ((text : Text) × (reason ≡ some (trim_space text))
          × (given ≡ some text)
          × (expected ≢ pos 0)
          × (1 ≤ byte_len (trim_space text))
          × (byte_len (trim_space text) ≤ 500))
unfolding correction_reason
correction_reason_sound expected none reason e =
    let i = eqb_ℤ_iff expected (pos 0) in inl (ground arith)
correction_reason_sound expected (some text) reason e = inr (
  text,
  ground arith,
  refl,
  (λ z. let i = (eqb_ℤ_iff expected (pos 0)).1 z in ground arith),
  ground arith,
  ground arith,
)

-- The reason for a correction is given exactly with the balances after the first.
unfoldable pub HasReason : ReplaceOpeningBalanceParams → Type 0
HasReason params =
    ((params.expected_version ≡ pos 0) × (params.revision.correction_reason ≡ none))
    ⊎ ((text : Text) × (params.revision.correction_reason ≡ some text)
        × (params.expected_version ≢ pos 0)
        × (1 ≤ byte_len text)
        × (byte_len text ≤ 500))

correction_reason-HasReason :
    (params : ReplaceOpeningBalanceParams) (expected : ℤ) (given : Option Text)
    → params.expected_version ≡ expected
    → correction_reason expected given ≡ ok params.revision.correction_reason
    → HasReason params
unfolding HasReason
correction_reason-HasReason params expected given v c =
    elim (correction_reason_sound expected given params.revision.correction_reason c) [
      | inl (z, n) ↦ inl (v ∙ z, n)
      | inr (text, n, _, z, l, m) ↦ inr (trim_space text, n, (λ w. z (sym v ∙ w)), l, m)
    ]

module _ (upper_rune : ℕ → ℕ) (parse_iso : Text → Bool) (format_time : Time → Text)
    (digest : HashedRequest → Text) where
  opening_params_checks :
      (checked_at read_at : Time) (fresh user account_id : Uuid) (account : FinancialAccount)
      (request : SetOpeningBalanceRequest) (key : Text) (params : ReplaceOpeningBalanceParams)
      → opening_params upper_rune parse_iso format_time digest checked_at read_at fresh user
          account_id account request key
        ≡ ok params
      → ((is_zero request.as_of || after request.as_of (add checked_at second)) ≡ false)
        × (normalize_balances upper_rune parse_iso request.balances account.account_type
            ≡ ok params.balances)
        × (is_unchanged account request params.balances ≡ false)
        × (correction_reason request.expected_version request.correction_reason
            ≡ ok params.revision.correction_reason)
        × (params.as_of ≡ utc request.as_of)
        × (params.expected_version ≡ request.expected_version)
        × (params.revision.version ≡ wrap_int64 (request.expected_version +ℤ pos 1))
        × (params.revision.balances ≡ params.balances)
        × (params.revision.as_of ≡ params.as_of)
  unfolding opening_params
  opening_params_checks checked_at read_at fresh user account_id account request key params e =
      elim (Result-cases
        (normalize_balances upper_rune parse_iso request.balances account.account_type)) [
          | inr (_, n) ↦ ground arith
          | inl (bs, n) ↦
              elim (Result-cases
                (correction_reason request.expected_version request.correction_reason)) [
                  | inr (_, c) ↦ ground arith
                  | inl (reason, c) ↦ ground arith
                ]
        ]

  -- A call that reaches the repository, with an expected version below the largest `int64`: the date
  -- that is stored is that of the request in UTC, is set, and is at most a second after the first clock
  -- reading; the balances are sorted, rearrange the entries of the request and are valid for the type of
  -- the account; the expected version is that of the request; the revision has the next version, the
  -- same balances and date, and a reason of 1 to 500 bytes unless it is the first.
  pub opening_params_sound :
      (checked_at read_at : Time) (fresh user account_id : Uuid) (account : FinancialAccount)
      (request : SetOpeningBalanceRequest) (key : Text) (params : ReplaceOpeningBalanceParams)
      → pos 0 ≤ℤ request.expected_version
      → request.expected_version +ℤ pos 1 ≤ℤ max_int64
      → opening_params upper_rune parse_iso format_time digest checked_at read_at fresh user
          account_id account request key
        ≡ ok params
      → (params.as_of ≡ utc request.as_of)
        × (params.as_of.instant ≢ 0)
        × (params.as_of.instant ≤ checked_at.instant + second)
        × (IsSorted params.balances
            × Perm (map printed params.balances) request.balances
            × All (IsOpening upper_rune parse_iso account.account_type) params.balances)
        × (params.expected_version ≡ request.expected_version)
        × (params.revision.version ≡ params.expected_version +ℤ pos 1)
        × (params.revision.balances ≡ params.balances)
        × (params.revision.as_of ≡ params.as_of)
        × HasReason params
  opening_params_sound checked_at read_at fresh user account_id account request key params l m e =
      let (z, n, _, c, d, x, v, b, a) =
        opening_params_checks checked_at read_at fresh user account_id account request key params
          e in
      let (_, _, s, r, o) =
        normalize_balances_sound upper_rune parse_iso account.account_type request.balances
          params.balances n in
      let w = wrap_int64_id (request.expected_version +ℤ pos 1) (grind int_laws) in
      (
        d,
        (λ y. ground arith),
        ground arith,
        (s, r, o),
        x,
        v ∙ w ∙ ap (λ y. y +ℤ pos 1) (sym x),
        b,
        a,
        correction_reason-HasReason params request.expected_version request.correction_reason x c,
      )
