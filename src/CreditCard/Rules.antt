-- ===== src/CreditCard/Rules.antt =====
-- The rules of backend/internal/creditcard/service.go that need no database: headers, reasons,
-- versions and the changes to a bill's record.
use wealth_management.Prelude.{
  ℕ, Bool, false, not, ◌&&◌, ◌||◌, Option, none, some, List, [], ◌∷◌, ◌++◌, map, ltb, leb, ◌==◌,
  if◌then◌else◌, is_some, length, any, all,
}
use wealth_management.Prelude.Int.{ℤ, pos, leb_ℤ}
use wealth_management.Prelude.Text.{Text, text_eq, trim_space, byte_len}
use wealth_management.GoTime.{Time, after, before, utc, date_only}
use wealth_management.Currency.{is_iso4217}
use wealth_management.CreditCard.Types.{
  Uuid, version_conflict, validation, paid, Bill, BillLine, CorrectHeaderInput, is_pending,
}
use wealth_management.CreditCard.Action.{Result, ok, err, Service}

-- A test of what a pointer points at.
abbrev pub holds {ℓ} : {A : Type ℓ} → (A → Bool) → Option A → Bool
holds p none = false
holds p (some a) = p a

-- `a != nil && b != nil && a.After(*b)`.
abbrev pub follows : Option Time → Option Time → Bool
follows none b = false
follows (some a) b = holds (after a) b

unfoldable pub date_within : Time → Time → Time → Bool
date_within value start end =
    not (before (date_only value) (date_only start))
    && not (after (date_only value) (date_only end))

unfoldable pub header_complete : Bill → Bool
header_complete bill =
    is_some bill.period_start
    && is_some bill.period_end
    && is_some bill.statement_date
    && is_some bill.due_date
    && is_some bill.settlement_currency
    && is_some bill.amount_due_minor

unfoldable pub has_pending_lines : List BillLine → Bool
unfolding any
has_pending_lines lines = any (λ line. is_pending line.status) lines

unfoldable pub require_version : Bill → ℕ → Result (Unit {0})
require_version bill expected =
    if ltb expected 1 || not (expected == bill.version) then err version_conflict else ok tt

unfoldable pub replace_in : List BillLine → BillLine → List BillLine
replace_in [] replacement = []
replace_in (line ∷ lines) replacement =
    if line.id == replacement.id then replacement ∷ lines else line ∷ replace_in lines replacement

unfoldable pub replace_line : Bill → BillLine → Bill
unfolding replace_in
replace_line bill replacement = record bill { lines = replace_in bill.lines replacement }

unfoldable pub bounded_reason : Text → Result Text
bounded_reason value =
    let trimmed = trim_space value in
    if ltb (byte_len trimmed) 1 || ltb 500 (byte_len trimmed)
    then err (validation "reason must contain 1 to 500 characters")
    else ok trimmed

unfoldable pub optional_bounded_reason : Option Text → Bool → Result (Option Text)
unfolding bounded_reason
optional_bounded_reason none required = if required then err (validation "") else ok none
optional_bounded_reason (some value) required = elim (bounded_reason value) [
  | ok trimmed ↦ ok (some trimmed)
  | err e ↦ err e
]

-- `^[\x21-\x7e]{32,128}$`.
unfoldable pub validate_idempotency_key : Text → Result (Unit {0})
unfolding all
validate_idempotency_key key =
    if all (λ c. leb 0x21 c && leb c 0x7e) key && leb 32 (length key) && leb (length key) 128
    then ok tt
    else err (validation "Idempotency-Key must contain 32 to 128 visible ASCII characters")

unfoldable pub contains_uuid : List Uuid → Uuid → Bool
unfolding any
contains_uuid values target = any (λ value. value == target) values

unfoldable pub mark_paid : Bill → Uuid → Time → Bill
mark_paid bill transfer_id now = record bill {
  status = paid;
  payoff_transfer_id = some transfer_id;
  payment_candidate_transaction_id = none;
  payment_candidate_selected = false;
  ambiguous_payment_candidates = [];
  void_reason = none;
  paid_at = some (utc now);
}

-- `if correction.X != nil { bill.X = datePointer(*correction.X) }`.
abbrev pub corrected_date : Option Time → Option Time → Option Time
corrected_date none old = old
corrected_date (some value) old = some (date_only value)

abbrev pub corrected_amount : Option ℤ → Option ℤ → Option ℤ
corrected_amount none old = old
corrected_amount (some amount) old = some amount

module _ {S : Type 0} (s : Service S) where
  abbrev corrected_currency : Option Text → Option Text → Option Text
  corrected_currency none old = old
  corrected_currency (some currency) old = some (map s.upper_rune (trim_space currency))

  unfoldable pub apply_header_correction : Bill → CorrectHeaderInput → Bill
  apply_header_correction bill correction = record bill {
    period_start = corrected_date correction.period_start bill.period_start;
    period_end = corrected_date correction.period_end bill.period_end;
    statement_date = corrected_date correction.statement_date bill.statement_date;
    due_date = corrected_date correction.due_date bill.due_date;
    settlement_currency =
        corrected_currency correction.settlement_currency bill.settlement_currency;
    amount_due_minor = corrected_amount correction.amount_due_minor bill.amount_due_minor;
  }

  abbrev bad_currency : Text → Bool
  bad_currency currency =
      not (is_iso4217 s.upper_rune s.parse_iso currency)
      || not (text_eq currency (map s.upper_rune currency))

  unfoldable pub validate_header_fields : Bill → Bool → Result (Unit {0})
  unfolding header_complete
  validate_header_fields bill require_complete =
      if follows bill.period_start bill.period_end
      then err (validation "period_start must not follow period_end")
      else if follows bill.statement_date bill.due_date
      then err (validation "due_date must not precede statement_date")
      else if holds bad_currency bill.settlement_currency
      then err (validation "invalid settlement_currency")
      else if holds (λ amount. leb_ℤ amount (pos 0)) bill.amount_due_minor
      then err (validation "amount_due_minor must be positive")
      else if require_complete && not (header_complete bill)
      then err (validation "bill header is incomplete")
      else ok tt

  unfoldable pub request_hash : Text → Uuid → Text → Text
  request_hash action resource value =
      s.sha256_hex (action ++ (0 ∷ []) ++ s.uuid_text resource ++ (0 ∷ []) ++ value)
