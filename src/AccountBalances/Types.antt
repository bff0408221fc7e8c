-- ===== src/AccountBalances/Types.antt =====
-- The data of backend/internal/accountbalances/store.go and of the requests in service.go, and the
-- repository as a record of actions on its state.
use wealth_management.Prelude.{
  String, Bool, true, false, ◌&&◌, Option, List, is_some, ◌≡◌, refl, ◌⊎◌, inl, inr, arith,
}
use wealth_management.Prelude.Int.{ℤ, pos, ltb_ℤ}
use wealth_management.Prelude.Text.{Text}
use wealth_management.GoTime.{Time}
use wealth_management.CreditCard.Types.{Uuid}

pub data AccountSide : Type 0 where
  asset liability : AccountSide

pub data TransactionKind : Type 0 where
  debit credit : TransactionKind

pub record BalanceAmount : Type 0 where
  pub currency : Text
  pub minor_units : ℤ

pub record OpeningBalanceRevision : Type 0 where
  pub id : Uuid
  pub account_id : Uuid
  pub version : ℤ
  pub balances : List BalanceAmount
  pub as_of : Time
  pub correction_reason : Option Text
  pub changed_by_user_id : Uuid
  pub changed_at : Time

pub record FinancialAccount : Type 0 where
  pub id : Uuid
  pub name : Text
  pub account_type : String
  pub side : AccountSide
  pub baseline : List BalanceAmount
  pub baseline_as_of : Option Time
  pub baseline_version : ℤ

pub data Error : Type 0 where
  not_found treatment_version_conflict system_treatment_immutable : Error
  idempotency_conflict idempotency_in_flight : Error
  version_conflict : FinancialAccount → Error
  validation plain : String → Error
  wrapped : String → Error → Error

-- `errors.Is(err, ErrNotFound)`.
unfoldable pub is_not_found : Error → Bool
is_not_found not_found = true
is_not_found (wrapped _ e) = is_not_found e
is_not_found _ = false

pub data Result (A : Type 0) : Type 0 where
  ok : A → Result A
  err : Error → Result A

pub ok_inj : {A : Type 0} {a b : A} → ok a ≡ ok b → a ≡ b
ok_inj e = ground arith

pub Result-cases :
    {A : Type 0} (r : Result A) → ((a : A) × (r ≡ ok a)) ⊎ ((e : Error) × (r ≡ err e))
Result-cases (ok a) = inl (a, refl)
Result-cases (err e) = inr (e, refl)

infixl 5 ◌>>=◌
abbrev pub ◌>>=◌ : {A B : Type 0} → Result A → (A → Result B) → Result B
ok a >>= f = f a
err e >>= f = err e

unfoldable pub configured : FinancialAccount → Bool
configured a = ltb_ℤ (pos 0) a.baseline_version && is_some a.baseline_as_of

pub record ConfirmedMovement : Type 0 where
  pub transaction_id : Uuid
  pub kind : TransactionKind
  pub currency : Text
  pub minor_units : ℤ
  pub occurred_at : Time

pub record ReplaceOpeningBalanceParams : Type 0 where
  pub expected_version : ℤ
  pub balances : List BalanceAmount
  pub as_of : Time
  pub revision : OpeningBalanceRevision
  pub idempotency_key : Text
  pub request_hash : Text
  pub expires_at : Time

pub data SpendingBasis : Type 0 where
  transaction_total line_items exclude : SpendingBasis
  other : String → SpendingBasis

pub data TreatmentSource : Type 0 where
  default user system : TreatmentSource

pub record LineItemAmount : Type 0 where
  pub currency : Text
  pub line_total_minor : Option ℤ

pub record CalculationTreatment : Type 0 where
  pub transaction_id : Uuid
  pub basis : SpendingBasis
  pub source : TreatmentSource
  pub reason : Text
  pub created_at : Time
  pub updated_at : Time

pub record TransactionForTreatment : Type 0 where
  pub id : Uuid
  pub original_currency : Text
  pub original_amount_minor : ℤ
  pub line_items : List LineItemAmount
  pub treatment : Option CalculationTreatment

pub record CalculationTreatmentView : Type 0 where
  pub transaction_id : Uuid
  pub basis : SpendingBasis
  pub source : TreatmentSource
  pub reason : Option Text
  pub immutable : Bool
  pub updated_at : Option Time

pub record PutUserTreatmentParams : Type 0 where
  pub basis : SpendingBasis
  pub reason : Text
  pub expected_updated_at : Option Time

-- `BalanceView`; `CurrencyBalance` is `BalanceAmount` under another name.
pub record BalanceView : Type 0 where
  pub account_id : Uuid
  pub account_name : Text
  pub state : String
  pub side : AccountSide
  pub version : ℤ
  pub as_of : Option Time
  pub opening_balances : List BalanceAmount
  pub current_balances : List BalanceAmount

-- `Balances` is the Go map, in the order in which it is iterated over.
pub record SetOpeningBalanceRequest : Type 0 where
  pub balances : List (Text × Text)
  pub as_of : Time
  pub expected_version : ℤ
  pub correction_reason : Option Text

pub record SetTreatmentRequest : Type 0 where
  pub basis : SpendingBasis
  pub reason : Text
  pub expected_updated_at : Option Time

pub record Repository (S : Type 0) : Type 0 where
  pub list_financial_accounts : Uuid → S → Result (List FinancialAccount)
  pub get_financial_account : Uuid → Uuid → S → Result FinancialAccount
  pub list_confirmed_movements_after : Uuid → Uuid → Time → S → Result (List ConfirmedMovement)
  pub replace_opening_balance :
      Uuid → Uuid → ReplaceOpeningBalanceParams → S → Result FinancialAccount × S
  pub list_opening_balance_revisions : Uuid → Uuid → S → Result (List OpeningBalanceRevision)
  pub get_transaction_for_treatment : Uuid → Uuid → S → Result TransactionForTreatment
  pub put_user_treatment :
      Uuid → Uuid → PutUserTreatmentParams → S → Result CalculationTreatment × S
  pub lock_system_payoff_exclusions : Uuid → List Uuid → String → S → Result (Unit {0}) × S
