-- ===== src/Reconciliation/Attach.antt =====
-- What a decision of `Reconcile` means for the account and the transaction that it names.
use wealth_management.Prelude.{
  ℕ, ◌+◌, ◌*◌, ◌^◌, ◌≤◌, Bool, true, false, ◌&&◌, ◌||◌, List, [], ◌∷◌, ◌++◌, any, All, ◌≡◌, refl,
  ◌↔◌, ◌⊎◌, inl, inr, arith, ap, sym, ◌∙◌, Bool-cases, List-cases,
}
use wealth_management.Prelude.Int.{◌+ℤ◌, ◌-ℤ◌, wrap_int64}
use wealth_management.Prelude.Text.{Text, text_eq, text_eq_iff}
use wealth_management.GoTime.{Time, second, distance}
use wealth_management.Reconciliation.Types.{
  TransactionKind, debit, credit, AccountIdentity, AccountMatchingKey, Candidate, Transaction,
  Platform,
}
use wealth_management.Reconciliation.Accounts.{
  is_matched, add_id, matched_ids, account_resolved, resolution, resolve_account,
  evidence_matching_keys,
}
use wealth_management.Reconciliation.Decide.{
  sub, absolute_duration, is_near, same_kind, is_match, matches,
}

-- Two times pass the test of the match window exactly when they are at most ten minutes apart, or the
-- first is earlier by 2^63 nanoseconds, some 292 years, or more.
pub is_near_iff :
    (t u : Time)
    → (is_near t u ≡ true) ↔ ((distance t u ≤ 600 * second) ⊎ (t.instant + 2 ^ 63 ≤ u.instant))
unfolding is_near absolute_duration sub wrap_int64 ◌+ℤ◌ ◌-ℤ◌
is_near_iff t u = ground arith

pub same_kind_sound : (a b : TransactionKind) → same_kind a b ≡ true → a ≡ b
same_kind_sound debit debit h = refl
same_kind_sound debit credit h = ground arith
same_kind_sound debit (TransactionKind.other b) h = ground arith
same_kind_sound credit debit h = ground arith
same_kind_sound credit credit h = refl
same_kind_sound credit (TransactionKind.other b) h = ground arith
same_kind_sound (TransactionKind.other a) debit h = ground arith
same_kind_sound (TransactionKind.other a) credit h = ground arith
same_kind_sound (TransactionKind.other a) (TransactionKind.other b) h =
    ap TransactionKind.other ((text_eq_iff a b).0 h)

any-add_id :
    (x id : Text) (ids : List Text)
    → any (text_eq x) (add_id id ids) ≡ (text_eq x id || any (text_eq x) ids)
unfolding any add_id
any-add_id x id ids = elim (Bool-cases (text_eq x id)) [
  | inl e ↦ let p = (text_eq_iff x id).0 e in ground arith
  | inr e ↦ ground arith
]

-- Whether an account that shares a key has the identifier.
abbrev pub is_candidate_id : Text → List AccountMatchingKey → List AccountIdentity → Text → Bool
is_candidate_id user keys accounts x = any (λ a. is_matched user keys a && text_eq x a.id) accounts

any-matched_ids :
    (user : Text) (keys : List AccountMatchingKey) (accounts : List AccountIdentity) (x : Text)
    → any (text_eq x) (matched_ids user keys accounts) ≡ is_candidate_id user keys accounts x
unfolding any matched_ids
any-matched_ids user keys [] x = refl
any-matched_ids user keys (a ∷ rest) x =
    ground (arith, any-matched_ids user keys rest x, any-add_id x a.id (matched_ids user keys rest))

resolution_sound :
    (ids : List Text) (id : Text) → resolution ids ≡ account_resolved id → ids ≡ id ∷ []
resolution_sound [] id e = ground arith
resolution_sound (i ∷ []) id e = ground arith
resolution_sound (i ∷ j ∷ ids) id e = ground arith

resolved_ids :
    (lower_rune : ℕ → ℕ) (user : Text) (c : Candidate) (accounts : List AccountIdentity) (id : Text)
    → resolve_account lower_rune user c.account_evidence accounts ≡ account_resolved id
    → matched_ids user (evidence_matching_keys lower_rune c.account_evidence) accounts ≡ id ∷ []
unfolding resolve_account
resolved_ids lower_rune user c accounts id e =
    elim (List-cases (evidence_matching_keys lower_rune c.account_evidence)) [
      | inl k ↦ ground arith
      | inr (key, keys, k) ↦
          ap (λ ks. matched_ids user ks accounts) k
          ∙ resolution_sound (matched_ids user (key ∷ keys) accounts) id (ground arith)
    ]

-- An account is resolved: its identifier, and no other, belongs to accounts of the user that share a
-- key with the evidence.
pub resolve_account_sound :
    (lower_rune : ℕ → ℕ) (user : Text) (c : Candidate) (accounts : List AccountIdentity) (id : Text)
    → resolve_account lower_rune user c.account_evidence accounts ≡ account_resolved id
    → (x : Text)
    → is_candidate_id user (evidence_matching_keys lower_rune c.account_evidence) accounts x
      ≡ text_eq x id
unfolding resolve_account any
resolve_account_sound lower_rune user c accounts id e x =
    let keys = evidence_matching_keys lower_rune c.account_evidence in
    let r = resolved_ids lower_rune user c accounts id e in
    sym (any-matched_ids user keys accounts x) ∙ ap (any (text_eq x)) r ∙ ground arith

-- The transaction that alone passes the tests, wherever it stands.
pub record IsOnlyMatch (p : Platform) (c : Candidate) (account_id : Text) (ts : List Transaction)
    (t : Transaction) : Type 0 where
  pub front : List Transaction
  pub back : List Transaction
  pub split : ts ≡ front ++ (t ∷ back)
  pub passes : is_match p c account_id t ≡ true
  pub front_fails : All (λ u. is_match p c account_id u ≡ false) front
  pub back_fails : All (λ u. is_match p c account_id u ≡ false) back

module _ (p : Platform) (c : Candidate) (account_id : Text) where
  abbrev pub NoMatch : List Transaction → Type 0
  NoMatch ts = All (λ u. is_match p c account_id u ≡ false) ts

  pub matches-nil : (ts : List Transaction) → matches p c account_id ts ≡ [] → NoMatch ts
  unfolding matches
  matches-nil [] e = tt
  matches-nil (t ∷ ts) e = elim (Bool-cases (is_match p c account_id t)) [
    | inl m ↦ ground arith
    | inr m ↦ (m, matches-nil ts (ground arith))
  ]

  pub matches_one :
      (t : Transaction) (ts : List Transaction)
      → matches p c account_id ts ≡ t ∷ []
      → IsOnlyMatch p c account_id ts t
  unfolding matches
  matches_one t [] e = ground arith
  matches_one t (u ∷ ts) e = elim (Bool-cases (is_match p c account_id u)) [
    | inl m ↦
        let q : u ≡ t = ground arith in
        record {
          front = [];
          back = ts;
          split = ap (λ v. v ∷ ts) q;
          passes = ap (is_match p c account_id) (sym q) ∙ m;
          front_fails = tt;
          back_fails = matches-nil ts (ground arith);
        }
    | inr m ↦
        let r = matches_one t ts (ground arith) in
        record {
          front = u ∷ r.front;
          back = r.back;
          split = ap (λ vs. u ∷ vs) r.split;
          passes = r.passes;
          front_fails = (m, r.front_fails);
          back_fails = r.back_fails;
        }
  ]
