-- ===== src/BulkParse/Fingerprint.antt =====
-- `FingerprintV1` and `DedupeV1` (backend/internal/bulkparse/decoder.go). An account's identifier is
-- its text form, as `uuid.UUID.String` writes it.
use wealth_management.Prelude.{
  ℕ, suc, not, Option, none, some, List, [], ◌∷◌, map, length, ◌==◌, if◌then◌else◌,
}
use wealth_management.Prelude.Text.{Text, codes, text_eq, text_lt}
use wealth_management.Prelude.Sort.{sort_by}
use wealth_management.AccountBalances.MinorUnits.{format_int}
use wealth_management.Reconciliation.Validation.{join}
use wealth_management.Reconciliation.Decide.{fields}
use wealth_management.BulkParse.Types.{Candidate, Result, error, ok, Platform}

abbrev pub nil_uuid : Text
nil_uuid = codes "00000000-0000-0000-0000-000000000000"

pub record Deduped : Type 0 where
  pub index : ℕ
  pub fingerprint : Text
  pub duplicate_of : Option ℕ

-- The index at which a fingerprint was first seen.
unfoldable pub lookup : Text → List (Text × ℕ) → Option ℕ
lookup key [] = none
lookup key ((k, i) ∷ rest) = if text_eq k key then some i else lookup key rest

unfoldable pub remember : Text → ℕ → Option ℕ → List (Text × ℕ) → List (Text × ℕ)
remember key index none first = (key, index) ∷ first
remember key index (some _) first = first

abbrev pub zip : {A B : Type 0} → List A → List B → List (A × B)
zip [] ys = []
zip (x ∷ xs) [] = []
zip (x ∷ xs) (y ∷ ys) = (x, y) ∷ zip xs ys

module _ (p : Platform) where
  unfoldable pub normalize_text : Text → Text
  normalize_text value = map p.lower_rune (join (codes " ") (fields [] value))

  -- The text that is digested; its parts are separated by U+0000, the references by U+001E.
  unfoldable pub canonical : Text → Candidate → Text
  canonical account c = join (0 ∷ []) (
      codes "bulk-candidate-fingerprint-v1"
      ∷ account
      ∷ c.transaction_kind
      ∷ format_int c.original_amount_minor
      ∷ c.original_currency
      ∷ c.occurred_on
      ∷ join (30 ∷ []) (sort_by text_lt (map normalize_text c.references))
      ∷ normalize_text c.merchant_name
      ∷ normalize_text c.title
      ∷ [])

  unfoldable pub fingerprint_v1 : Text → Candidate → Result Text
  fingerprint_v1 account c =
      if text_eq account nil_uuid
      then error (codes "resolved account is required")
      else if not (p.is_date c.occurred_on)
      then error (codes "candidate date is invalid")
      else ok (p.digest (canonical account c))

  -- The loop of `DedupeV1`, over the accounts and the candidates together.
  unfoldable pub dedupe_from : ℕ → List (Text × ℕ) → List (Text × Candidate) → Result (List Deduped)
  dedupe_from index first [] = ok []
  dedupe_from index first ((account, c) ∷ rest) = elim (fingerprint_v1 account c) [
    | error problem ↦ error problem
    | ok fp ↦
        let seen = lookup fp first in
        elim (dedupe_from (suc index) (remember fp index seen first) rest) [
          | error problem ↦ error problem
          | ok entries ↦
              ok (record { index = index; fingerprint = fp; duplicate_of = seen } ∷ entries)
        ]
  ]

  unfoldable pub dedupe_v1 : List Text → List Candidate → Result (List Deduped)
  dedupe_v1 accounts candidates =
      if not (length accounts == length candidates)
      then error (codes "one resolved account is required per candidate")
      else dedupe_from 0 [] (zip accounts candidates)
