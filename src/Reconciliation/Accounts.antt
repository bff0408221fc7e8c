-- ===== src/Reconciliation/Accounts.antt =====
-- `resolveAccount` and `NormalizeAccountMatchingKey` (backend/internal/reconciliation/reconciliation.go).
use wealth_management.Prelude.{
  ℕ, Bool, true, false, not, ◌&&◌, ◌||◌, Option, none, some, List, [], ◌∷◌, map, ltb, ◌==◌,
  if◌then◌else◌, length, any,
}
use wealth_management.Prelude.Text.{Text, text_eq, trim_space, is_space, is_empty}
use wealth_management.Prelude.Decimal.{is_digit}
use wealth_management.Reconciliation.Types.{
  AccountEvidence, KeyType, card_last_four, bank_account_suffix, AccountMatchingKey,
  AccountIdentity,
}
use wealth_management.Reconciliation.Validation.{is_blank}

abbrev pub is_mask : ℕ → Bool
is_mask c = is_space c || c == b'*' || c == 0x2022 || c == b'-'

-- The digits of a card's key, unless another character than a mask stands between them.
unfoldable pub card_digits : Text → Option Text
card_digits [] = some []
card_digits (c ∷ s) = elim (card_digits s) [
  | none ↦ none
  | some digits ↦
      if is_digit c
      then some (c ∷ digits)
      else if is_mask c || c == b'x' || c == b'X'
      then some digits
      else none
]

unfoldable pub without_masks : Text → Text
without_masks [] = []
without_masks (c ∷ s) = elim (is_mask c) [ true ↦ without_masks s | false ↦ c ∷ without_masks s ]

module _ (lower_rune : ℕ → ℕ) where
  -- The normalized key, if there is one.
  unfoldable pub normalize_account_matching_key : KeyType → Text → Option Text
  normalize_account_matching_key card_last_four value = elim (card_digits (trim_space value)) [
    | none ↦ none
    | some digits ↦ if length digits == 4 then some digits else none
  ]
  normalize_account_matching_key bank_account_suffix value =
      let normalized = without_masks (map lower_rune (trim_space value)) in
      if is_empty normalized || ltb 100 (length normalized) then none else some normalized
  normalize_account_matching_key (KeyType.other_key _) value = none

  abbrev key_of : KeyType → Text → List AccountMatchingKey
  key_of key_type value = elim (normalize_account_matching_key key_type value) [
    | none ↦ []
    | some normalized ↦ record { key_type = key_type; normalized_value = normalized } ∷ []
  ]

  unfoldable pub evidence_matching_keys : AccountEvidence → List AccountMatchingKey
  evidence_matching_keys evidence = elim (key_of card_last_four evidence.card_last_four) [
    | [] ↦ key_of bank_account_suffix evidence.masked_bank_reference
    | key ∷ _ ↦ key ∷ key_of bank_account_suffix evidence.masked_bank_reference
  ]

abbrev same_type : KeyType → KeyType → Bool
same_type card_last_four card_last_four = true
same_type bank_account_suffix bank_account_suffix = true
same_type (KeyType.other_key a) (KeyType.other_key b) = text_eq a b
same_type _ _ = false

-- Whether an account has one of the keys.
unfoldable pub shares_key : List AccountMatchingKey → AccountIdentity → Bool
shares_key keys account =
    any
      (λ source.
        any
          (λ key.
            same_type source.key_type key.key_type
            && text_eq source.normalized_value key.normalized_value)
          account.matching_keys)
      keys

-- An account that may be matched, and is.
unfoldable pub is_matched : Text → List AccountMatchingKey → AccountIdentity → Bool
is_matched user keys account =
    text_eq account.user_id user && not (is_blank account.id) && shares_key keys account

-- `matched[id] = struct{}{}`.
unfoldable pub add_id : Text → List Text → List Text
add_id id ids = if any (text_eq id) ids then ids else id ∷ ids

unfoldable pub matched_ids : Text → List AccountMatchingKey → List AccountIdentity → List Text
matched_ids user keys [] = []
matched_ids user keys (account ∷ accounts) = elim (is_matched user keys account) [
  | true ↦ add_id account.id (matched_ids user keys accounts)
  | false ↦ matched_ids user keys accounts
]

pub data AccountResolution : Type 0 where
  account_missing account_unmatched account_ambiguous : AccountResolution
  account_resolved : Text → AccountResolution

abbrev pub resolution : List Text → AccountResolution
resolution [] = account_unmatched
resolution (id ∷ []) = account_resolved id
resolution (_ ∷ _ ∷ _) = account_ambiguous

unfoldable pub resolve_account :
    (ℕ → ℕ) → Text → AccountEvidence → List AccountIdentity → AccountResolution
resolve_account lower_rune user evidence accounts =
    elim (evidence_matching_keys lower_rune evidence) [
      | [] ↦ account_missing
      | key ∷ keys ↦ resolution (matched_ids user (key ∷ keys) accounts)
    ]
