-- ===== src/Reconciliation/Decide.antt =====
-- `Reconcile` and `scoreCandidate` (backend/internal/reconciliation/reconciliation.go).
use wealth_management.Prelude.{
  ◌*◌, Bool, true, false, not, ◌&&◌, ◌||◌, none, some, List, [], ◌∷◌, ◌++◌, map, if◌then◌else◌, any,
  ◌⊎◌, inl, inr,
}
use wealth_management.Prelude.Int.{
  ℤ, pos, ◌-ℤ◌, sub_ℕ, ltb_ℤ, leb_ℤ, eqb_ℤ, max_int64, min_int64, wrap_int64,
}
use wealth_management.Prelude.Text.{Text, codes, text_eq, trim_space, is_space, is_empty}
use wealth_management.GoTime.{Time, second}
use wealth_management.Reconciliation.Types.{
  below_minimum, TransactionKind, debit, credit, attach, create, review, dangling, AccountIdentity,
  Candidate, Transaction, MatchScore, Decision, Platform,
}
use wealth_management.Reconciliation.Validation.{join, validate_candidate}
use wealth_management.Reconciliation.Accounts.{
  account_missing, account_unmatched, account_ambiguous, account_resolved, resolve_account,
}

-- `t.Sub(u)`: the difference in nanoseconds, cut off at the ends of an `int64`.
unfoldable pub sub : Time → Time → ℤ
sub t u =
    let d = sub_ℕ t.instant u.instant in
    if ltb_ℤ max_int64 d then max_int64 else if ltb_ℤ d min_int64 then min_int64 else d

unfoldable pub absolute_duration : ℤ → ℤ
absolute_duration value = if ltb_ℤ value (pos 0) then wrap_int64 (pos 0 -ℤ value) else value

abbrev pub match_window : ℤ
match_window = pos (600 * second)

unfoldable pub is_near : Time → Time → Bool
is_near t u = leb_ℤ (absolute_duration (sub t u)) match_window

abbrev pub same_kind : TransactionKind → TransactionKind → Bool
same_kind debit debit = true
same_kind credit credit = true
same_kind (TransactionKind.other a) (TransactionKind.other b) = text_eq a b
same_kind _ _ = false

-- `strings.Fields`, with the word read so far.
unfoldable pub fields : Text → Text → List Text
fields word [] = if is_empty word then [] else word ∷ []
fields word (c ∷ s) = elim (is_space c) [
  | true ↦ elim (is_empty word) [ true ↦ fields [] s | false ↦ word ∷ fields [] s ]
  | false ↦ fields (word ++ (c ∷ [])) s
]

module _ (p : Platform) where
  unfoldable pub currencies_compatible : Text → Text → Bool
  currencies_compatible left right =
      is_empty (trim_space left)
      || is_empty (trim_space right)
      || p.equal_fold (trim_space left) (trim_space right)

  -- The tests of the loop over the transactions.
  unfoldable pub is_match : Candidate → Text → Transaction → Bool
  is_match c account_id t =
      text_eq t.user_id c.user_id
      && text_eq t.account_id account_id
      && same_kind t.kind c.kind
      && eqb_ℤ t.original_amount_minor c.original_amount_minor
      && currencies_compatible c.original_currency t.original_currency
      && is_near c.occurred_at t.occurred_at

  unfoldable pub matches : Candidate → Text → List Transaction → List Transaction
  matches c account_id [] = []
  matches c account_id (t ∷ ts) = elim (is_match c account_id t) [
    | true ↦ t ∷ matches c account_id ts
    | false ↦ matches c account_id ts
  ]

  unfoldable pub normalize_reference : Text → Text
  normalize_reference value = map p.upper_rune (trim_space value)

  unfoldable pub has_shared_reference : List Text → List Text → Bool
  has_shared_reference left right =
      any
        (λ r.
          not (is_empty (normalize_reference r))
          && any (λ l. text_eq (normalize_reference l) (normalize_reference r)) left)
        right

  unfoldable pub normalize_merchant : Text → Text
  normalize_merchant value = join (codes " ") (fields [] (map p.lower_rune (trim_space value)))

  unfoldable pub score_candidate : Candidate → Transaction → MatchScore
  score_candidate c t = record {
    account_score = 50;
    reference_score = if has_shared_reference c.references t.references then 60 else 0;
    amount_score = if eqb_ℤ c.original_amount_minor t.original_amount_minor then 25 else 0;
    currency_score = if text_eq c.original_currency t.original_currency then 15 else 0;
    merchant_score =
        if not (is_empty (normalize_merchant c.merchant_name))
          && text_eq (normalize_merchant c.merchant_name) (normalize_merchant t.merchant_name)
        then 12
        else 0;
    time_score = if is_near c.occurred_at t.occurred_at then 15 else 0;
  }

  abbrev no_score : MatchScore
  no_score = record {
    account_score = 0;
    reference_score = 0;
    amount_score = 0;
    currency_score = 0;
    merchant_score = 0;
    time_score = 0;
  }

  abbrev dangles : Text → Decision
  dangles reason = record {
    outcome = dangling;
    reason = reason;
    account_id = [];
    transaction_id = [];
    score = no_score;
  }

  abbrev reviews : Text → Text → Decision
  reviews account_id reason = record {
    outcome = review;
    reason = reason;
    account_id = account_id;
    transaction_id = [];
    score = no_score;
  }

  -- What follows the search for matching transactions of the account.
  unfoldable pub decide : Candidate → Text → List Transaction → Decision
  decide c account_id (t ∷ []) = record {
    outcome = attach;
    reason = codes "unique account, amount, direction, currency, and time match";
    account_id = account_id;
    transaction_id = t.id;
    score = score_candidate c t;
  }
  decide c account_id (_ ∷ _ ∷ _) =
      reviews account_id (codes "multiple account, amount, direction, currency, and time matches")
  decide c account_id [] =
      if not c.auto_eligible
      then reviews account_id
          (codes "source evidence is not sufficiently corroborated for automatic creation")
      else if below_minimum c.confidence
      then reviews account_id (codes "candidate confidence is below creation threshold")
      else record {
        outcome = create;
        reason = codes "reliable unmatched candidate";
        account_id = account_id;
        transaction_id = [];
        score = no_score;
      }

  -- The decision, or the text of the error.
  unfoldable pub reconcile : Candidate → List AccountIdentity → List Transaction → Text ⊎ Decision
  reconcile c accounts transactions = elim (validate_candidate p c) [
    | some problem ↦ inl problem
    | none ↦ elim (resolve_account p.lower_rune c.user_id c.account_evidence accounts) [
      | account_missing ↦ inr (dangles (codes "no account evidence"))
      | account_unmatched ↦ inr (dangles (codes "account evidence did not match an owned account"))
      | account_ambiguous ↦
          inr (reviews [] (codes "account evidence matches more than one account"))
      | account_resolved account_id ↦ inr (decide c account_id (matches c account_id transactions))
    ]
  ]
