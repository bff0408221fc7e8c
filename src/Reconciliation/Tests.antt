-- ===== src/Reconciliation/Tests.antt =====
-- Reconciliation at concrete inputs.
use wealth_management.Prelude.{
  arith, ℕ, ◌+◌, ◌-◌, ◌*◌, ◌^◌, ◌≤◌, true, false, ◌&&◌, none, some, List, [], ◌∷◌, if◌then◌else◌,
  any, leb, ◌≡◌, refl, ◌↔◌, ◌⊎◌,
}
use wealth_management.Prelude.Int.{pos, ◌-ℤ◌, wrap_int64}
use wealth_management.Prelude.Text.{Text, codes, text_eq, trim_space, is_space}
use wealth_management.Currency.{is_iso4217}
use wealth_management.GoTime.{Time, second, distance}
use wealth_management.Reconciliation.Types.{
  finite, three_quarters_bits, valid_confidence, below_minimum, debit, attach, create,
  card_last_four, bank_account_suffix, AccountIdentity, Candidate, Transaction, Decision, Platform,
}
use wealth_management.Reconciliation.Validation.{
  validate_candidate, validate_line_items, validate_line_item, line_item_problems, join,
}
use wealth_management.Reconciliation.Accounts.{
  card_digits, without_masks, normalize_account_matching_key, evidence_matching_keys, shares_key,
  is_matched, add_id, matched_ids, resolve_account,
}
use wealth_management.Reconciliation.Decide.{
  sub, absolute_duration, is_near, fields, currencies_compatible, is_match, matches,
  normalize_reference, has_shared_reference, normalize_merchant, score_candidate, decide, reconcile,
}
use wealth_management.Reconciliation.Keys.{normalize_account_matching_key_stable}
use wealth_management.Reconciliation.Attach.{is_near_iff, is_candidate_id, IsOnlyMatch, NoMatch}
use wealth_management.Reconciliation.Decisions.{Agrees, attach_sound, create_sound}

abbrev pub platform : Platform
platform = record {
  upper_rune = λ c. if leb 97 c && leb c 122 then c - 32 else c;
  lower_rune = λ c. if leb 65 c && leb c 90 then c + 32 else c;
  equal_fold = text_eq;
  parse_iso = λ s. text_eq s (codes "SGD");
  is_object = λ s. true;
  encoded_len = λ items. some 2;
}

abbrev at : ℕ → Time
at n = record { instant = n; wall = n }

abbrev pub receipt : ℕ → Candidate
receipt time = record {
  user_id = codes "u";
  kind = debit;
  title = codes "Lunch";
  merchant_name = codes "Cafe";
  original_amount_minor = pos 1250;
  original_currency = codes "SGD";
  sgd_amount_minor = none;
  occurred_at = at time;
  references = [];
  account_evidence = record {
    card_last_four = codes "**** 1234";
    masked_bank_reference = [];
    additional_identifiers = [];
  };
  line_items = [];
  category_leaf_name = [];
  confidence = finite (pos three_quarters_bits);
  auto_eligible = true;
}

abbrev card : AccountIdentity
card = record {
  id = codes "a";
  user_id = codes "u";
  matching_keys = record { key_type = card_last_four; normalized_value = codes "1234" } ∷ [];
}

abbrev payment : Text → ℕ → Transaction
payment id time = record {
  id = id;
  user_id = codes "u";
  account_id = codes "a";
  kind = debit;
  merchant_name = codes "CAFE";
  original_amount_minor = pos 1250;
  original_currency = codes "SGD";
  occurred_at = at time;
  references = [];
}

-- One transaction a minute later and one an hour later.
abbrev payments : List Transaction
payments = payment (codes "t") (90 * second) ∷ payment (codes "far") (3690 * second) ∷ []

abbrev attached : Decision
attached = record {
  outcome = attach;
  reason = codes "unique account, amount, direction, currency, and time match";
  account_id = codes "a";
  transaction_id = codes "t";
  score = record {
    account_score = 50;
    reference_score = 0;
    amount_score = 25;
    currency_score = 15;
    merchant_score = 12;
    time_score = 15;
  };
}

abbrev created : Decision
created = record {
  outcome = create;
  reason = codes "reliable unmatched candidate";
  account_id = codes "a";
  transaction_id = [];
  score = record {
    account_score = 0;
    reference_score = 0;
    amount_score = 0;
    currency_score = 0;
    merchant_score = 0;
    time_score = 0;
  };
}

is_near_iff_example :
    (is_near (at 5) (at (5 + 2 ^ 63)) ≡ true)
    ↔ ((distance (at 5) (at (5 + 2 ^ 63)) ≤ 600 * second) ⊎ (5 + 2 ^ 63 ≤ 5 + 2 ^ 63))
is_near_iff_example = is_near_iff (at 5) (at (5 + 2 ^ 63))

attach_sound_example :
    (validate_candidate platform (receipt (30 * second)) ≡ none)
    × ((x : Text)
        → is_candidate_id
            (codes "u")
            (evidence_matching_keys platform.lower_rune (receipt (30 * second)).account_evidence)
            (card ∷ [])
            x
          ≡ text_eq x (codes "a"))
    × ((t : Transaction) × (codes "t" ≡ t.id)
        × IsOnlyMatch platform (receipt (30 * second)) (codes "a") payments t
        × Agrees platform (receipt (30 * second)) (codes "a") t)
unfolding reconcile validate_candidate trim_space is_iso4217 text_eq valid_confidence any
    validate_line_items line_item_problems resolve_account evidence_matching_keys
    normalize_account_matching_key card_digits matched_ids is_matched shares_key add_id decide
    matches wrap_int64 ◌-ℤ◌ is_space without_masks absolute_duration currencies_compatible fields
    has_shared_reference is_match is_near normalize_merchant normalize_reference score_candidate sub
    below_minimum join validate_line_item
attach_sound_example =
    attach_sound platform (receipt (30 * second)) (card ∷ []) payments attached refl refl

create_sound_example :
    (validate_candidate platform (receipt (9000 * second)) ≡ none)
    × ((receipt (9000 * second)).auto_eligible ≡ true)
    × (below_minimum (receipt (9000 * second)).confidence ≡ false)
    × ((x : Text)
        → is_candidate_id
            (codes "u")
            (evidence_matching_keys platform.lower_rune (receipt (9000 * second)).account_evidence)
            (card ∷ [])
            x
          ≡ text_eq x (codes "a"))
    × NoMatch platform (receipt (9000 * second)) (codes "a") payments
unfolding reconcile validate_candidate trim_space is_iso4217 text_eq valid_confidence any
    validate_line_items line_item_problems resolve_account evidence_matching_keys
    normalize_account_matching_key card_digits matched_ids is_matched shares_key add_id decide
    matches wrap_int64 ◌-ℤ◌ is_space without_masks absolute_duration currencies_compatible fields
    has_shared_reference is_match is_near normalize_merchant normalize_reference score_candidate sub
    below_minimum join validate_line_item
create_sound_example =
    create_sound platform (receipt (9000 * second)) (card ∷ []) payments created refl refl

lower_idempotent : (c : ℕ) → platform.lower_rune (platform.lower_rune c) ≡ platform.lower_rune c
lower_idempotent c = ground arith

normalize_account_matching_key_stable_example :
    normalize_account_matching_key platform.lower_rune bank_account_suffix (codes "ab12")
    ≡ some (codes "ab12")
unfolding normalize_account_matching_key without_masks trim_space is_space
normalize_account_matching_key_stable_example =
    normalize_account_matching_key_stable platform.lower_rune lower_idempotent bank_account_suffix
      (codes " AB-12*") (codes "ab12") refl
