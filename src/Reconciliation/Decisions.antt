-- ===== src/Reconciliation/Decisions.antt =====
-- What `Reconcile` promises of its decisions to attach and to create.
use wealth_management.Prelude.{
  ◌+◌, ◌*◌, ◌^◌, ◌≤◌, Bool, true, false, Option, none, some, List, [], ◌∷◌, ◌≡◌, refl, ◌⊎◌, inr,
  arith, ap, sym, ◌∙◌, subst,
}
use wealth_management.Prelude.Int.{eqb_ℤ_iff}
use wealth_management.Prelude.Text.{Text, text_eq, text_eq_iff}
use wealth_management.GoTime.{second, distance}
use wealth_management.Reconciliation.Types.{
  below_minimum, Outcome, attach, create, review, dangling, AccountIdentity, Candidate, Transaction,
  Decision, Platform,
}
use wealth_management.Reconciliation.Validation.{validate_candidate}
use wealth_management.Reconciliation.Accounts.{
  AccountResolution, account_missing, account_unmatched, account_ambiguous, account_resolved,
  resolve_account, evidence_matching_keys,
}
use wealth_management.Reconciliation.Decide.{
  is_match, matches, currencies_compatible, decide, reconcile,
}
use wealth_management.Reconciliation.Attach.{
  is_near_iff, same_kind_sound, is_candidate_id, resolve_account_sound, IsOnlyMatch, NoMatch,
  matches-nil, matches_one,
}

-- The fields in which a transaction agrees with a candidate of an account.
unfoldable pub Agrees : Platform → Candidate → Text → Transaction → Type 0
Agrees p c account_id t =
    (t.user_id ≡ c.user_id)
    × (t.account_id ≡ account_id)
    × (t.kind ≡ c.kind)
    × (t.original_amount_minor ≡ c.original_amount_minor)
    × (currencies_compatible p c.original_currency t.original_currency ≡ true)
    × ((distance c.occurred_at t.occurred_at ≤ 600 * second)
        ⊎ (c.occurred_at.instant + 2 ^ 63 ≤ t.occurred_at.instant))

is_match-Agrees :
    (p : Platform) (c : Candidate) (account_id : Text) (t : Transaction)
    → is_match p c account_id t ≡ true
    → Agrees p c account_id t
unfolding is_match Agrees
is_match-Agrees p c account_id t h =
    let i = text_eq_iff t.user_id c.user_id in
    let j = text_eq_iff t.account_id account_id in
    let k = same_kind_sound t.kind c.kind in
    let a = eqb_ℤ_iff t.original_amount_minor c.original_amount_minor in
    let n = is_near_iff c.occurred_at t.occurred_at in
    (ground arith, ground arith, k (ground arith), ground arith, ground arith, n.0 (ground arith))

abbrev pub names_account : Outcome → Bool
names_account attach = true
names_account create = true
names_account review = false
names_account dangling = false

-- By the outcome of the validation and of the search for the account.
decided :
    (p : Platform) (c : Candidate) (accounts : List AccountIdentity) (ts : List Transaction)
    (d : Decision) (v : Option Text) (r : AccountResolution)
    → validate_candidate p c ≡ v
    → resolve_account p.lower_rune c.user_id c.account_evidence accounts ≡ r
    → reconcile p c accounts ts ≡ inr d
    → names_account d.outcome ≡ true
    → (id : Text) × (validate_candidate p c ≡ none)
      × (resolve_account p.lower_rune c.user_id c.account_evidence accounts ≡ account_resolved id)
      × (decide p c id (matches p c id ts) ≡ d)
unfolding reconcile
decided p c accounts ts d (some problem) r h k e n = ground arith
decided p c accounts ts d none account_missing h k e n = ground arith
decided p c accounts ts d none account_unmatched h k e n = ground arith
decided p c accounts ts d none account_ambiguous h k e n = ground arith
decided p c accounts ts d none (account_resolved id) h k e n = (id, h, k, ground arith)

reconcile-decide :
    (p : Platform) (c : Candidate) (accounts : List AccountIdentity) (ts : List Transaction)
    (d : Decision)
    → reconcile p c accounts ts ≡ inr d
    → names_account d.outcome ≡ true
    → (id : Text) × (validate_candidate p c ≡ none)
      × (resolve_account p.lower_rune c.user_id c.account_evidence accounts ≡ account_resolved id)
      × (decide p c id (matches p c id ts) ≡ d)
reconcile-decide p c accounts ts d e n =
    decided p c accounts ts d (validate_candidate p c)
      (resolve_account p.lower_rune c.user_id c.account_evidence accounts) refl refl e n

decide-attach :
    (p : Platform) (c : Candidate) (id : Text) (ts : List Transaction)
    → (decide p c id ts).outcome ≡ attach
    → (t : Transaction) × (ts ≡ t ∷ [])
      × ((decide p c id ts).account_id ≡ id)
      × ((decide p c id ts).transaction_id ≡ t.id)
unfolding decide
decide-attach p c id [] e = ground arith
decide-attach p c id (t ∷ []) e = (t, refl, refl, refl)
decide-attach p c id (t ∷ u ∷ ts) e = ground arith

decide-create :
    (p : Platform) (c : Candidate) (id : Text) (ts : List Transaction)
    → (decide p c id ts).outcome ≡ create
    → (ts ≡ [])
      × ((decide p c id ts).account_id ≡ id)
      × (c.auto_eligible ≡ true)
      × (below_minimum c.confidence ≡ false)
unfolding decide
decide-create p c id [] e = ground arith
decide-create p c id (t ∷ []) e = ground arith
decide-create p c id (t ∷ u ∷ ts) e = ground arith

-- A decision to attach: the candidate is valid; the account named is the only one of the user's that
-- shares a key with the evidence; the transaction named is the only one of the list that passes the
-- tests for that account, and it agrees with the candidate in user, account, direction and amount, has
-- a compatible currency and is within ten minutes of it, or 2^63 nanoseconds or more later.
pub attach_sound :
    (p : Platform) (c : Candidate) (accounts : List AccountIdentity) (ts : List Transaction)
    (d : Decision)
    → reconcile p c accounts ts ≡ inr d
    → d.outcome ≡ attach
    → (validate_candidate p c ≡ none)
      × ((x : Text)
          → is_candidate_id c.user_id
              (evidence_matching_keys p.lower_rune c.account_evidence)
              accounts
              x
            ≡ text_eq x d.account_id)
      × ((t : Transaction) × (d.transaction_id ≡ t.id)
          × IsOnlyMatch p c d.account_id ts t
          × Agrees p c d.account_id t)
attach_sound p c accounts ts d e o =
    let (id, v, r, q) = reconcile-decide p c accounts ts d e (ap names_account o) in
    let (t, m, i, x) = decide-attach p c id (matches p c id ts) (ap (λ z. z.outcome) q ∙ o) in
    let a : d.account_id ≡ id = sym (ap (λ z. z.account_id) q) ∙ i in
    let only = matches_one p c id t ts m in
    (
      v,
      λ y. resolve_account_sound p.lower_rune c.user_id c accounts id r y ∙ ap (text_eq y) (sym a),
      (
        t,
        sym (ap (λ z. z.transaction_id) q) ∙ x,
        subst (λ z. IsOnlyMatch p c z ts t) (sym a) only,
        subst (λ z. Agrees p c z t) (sym a) (is_match-Agrees p c id t only.passes),
      ),
    )

-- A decision to create: the candidate is valid, corroborated and not below the least confidence; the
-- account named is the only one of the user's that shares a key with the evidence; and no transaction
-- of the list passes the tests for that account, so that none is recorded twice.
pub create_sound :
    (p : Platform) (c : Candidate) (accounts : List AccountIdentity) (ts : List Transaction)
    (d : Decision)
    → reconcile p c accounts ts ≡ inr d
    → d.outcome ≡ create
    → (validate_candidate p c ≡ none)
      × (c.auto_eligible ≡ true)
      × (below_minimum c.confidence ≡ false)
      × ((x : Text)
          → is_candidate_id c.user_id
              (evidence_matching_keys p.lower_rune c.account_evidence)
              accounts
              x
            ≡ text_eq x d.account_id)
      × NoMatch p c d.account_id ts
create_sound p c accounts ts d e o =
    let (id, v, r, q) = reconcile-decide p c accounts ts d e (ap names_account o) in
    let (m, i, a, b) = decide-create p c id (matches p c id ts) (ap (λ z. z.outcome) q ∙ o) in
    let s : d.account_id ≡ id = sym (ap (λ z. z.account_id) q) ∙ i in
    (
      v,
      a,
      b,
      λ y. resolve_account_sound p.lower_rune c.user_id c accounts id r y ∙ ap (text_eq y) (sym s),
      subst (λ z. NoMatch p c z ts) (sym s) (matches-nil p c id ts m),
    )
