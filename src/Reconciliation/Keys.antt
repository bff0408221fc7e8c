-- ===== src/Reconciliation/Keys.antt =====
-- `NormalizeAccountMatchingKey`: what it keeps of a value, and that it does not change a key again.
use wealth_management.Prelude.{
  ℕ, Bool, true, not, some, [], ◌∷◌, map, all, ◌≡◌, refl, arith, ap, sym, ◌∙◌, Option-cases, inl,
  inr,
}
use wealth_management.Prelude.Text.{Text, trim_space, is_space, is_no_space, trim_space-id}
use wealth_management.Prelude.Decimal.{is_digit}
use wealth_management.Reconciliation.Types.{KeyType, card_last_four, bank_account_suffix}
use wealth_management.Reconciliation.Accounts.{
  is_mask, card_digits, without_masks, normalize_account_matching_key,
}

card_digits-all : (v ds : Text) → card_digits v ≡ some ds → all is_digit ds ≡ true
unfolding card_digits all
card_digits-all [] ds e = ground arith
card_digits-all (c ∷ s) ds e = elim (Option-cases (card_digits s)) [
  | inl n ↦ ground arith
  | inr (es, m) ↦ ground (arith, card_digits-all s es m)
]

card_digits-id : (ds : Text) → all is_digit ds ≡ true → card_digits ds ≡ some ds
unfolding card_digits all
card_digits-id [] h = refl
card_digits-id (c ∷ ds) h = ground (arith, card_digits-id ds)

digits_no_space : (ds : Text) → all is_digit ds ≡ true → all is_no_space ds ≡ true
unfolding all is_space
digits_no_space [] h = refl
digits_no_space (c ∷ ds) h = ground (arith, digits_no_space ds)

abbrev is_kept : ℕ → Bool
is_kept c = not (is_mask c)

without_masks-all : (s : Text) → all is_kept (without_masks s) ≡ true
unfolding without_masks all
without_masks-all [] = refl
without_masks-all (c ∷ s) = ground (arith, without_masks-all s)

without_masks-id : (s : Text) → all is_kept s ≡ true → without_masks s ≡ s
unfolding without_masks all
without_masks-id [] h = refl
without_masks-id (c ∷ s) h = ground (arith, without_masks-id s)

kept_no_space : (s : Text) → all is_kept s ≡ true → all is_no_space s ≡ true
unfolding all
kept_no_space [] h = refl
kept_no_space (c ∷ s) h = ground (arith, kept_no_space s)

module _ (lower_rune : ℕ → ℕ)
    (idempotent : (c : ℕ) → lower_rune (lower_rune c) ≡ lower_rune c) where
  lower_kept :
      (s : Text)
      → map lower_rune (without_masks (map lower_rune s)) ≡ without_masks (map lower_rune s)
  unfolding without_masks
  lower_kept [] = refl
  lower_kept (c ∷ s) = ground (arith, lower_kept s, idempotent c)

  card_key-id :
      (value key : Text)
      → normalize_account_matching_key lower_rune card_last_four value ≡ some key
      → normalize_account_matching_key lower_rune card_last_four key ≡ some key
  unfolding normalize_account_matching_key
  card_key-id value key e = elim (Option-cases (card_digits (trim_space value))) [
    | inl n ↦ ground arith
    | inr (ds, m) ↦
        let q : ds ≡ key = ground arith in
        let d = ap (all is_digit) (sym q) ∙ card_digits-all (trim_space value) ds m in
        let t = ap card_digits (trim_space-id key (digits_no_space key d)) ∙ card_digits-id key d in
        ground arith
  ]

  suffix_key-id :
      (value key : Text)
      → normalize_account_matching_key lower_rune bank_account_suffix value ≡ some key
      → normalize_account_matching_key lower_rune bank_account_suffix key ≡ some key
  unfolding normalize_account_matching_key
  suffix_key-id value key e =
      let s = map lower_rune (trim_space value) in
      let q : without_masks s ≡ key = ground arith in
      let k = ap (all is_kept) (sym q) ∙ without_masks-all s in
      let l : map lower_rune key ≡ key =
        ap (map lower_rune) (sym q) ∙ lower_kept (trim_space value) ∙ q in
      let t : without_masks (map lower_rune (trim_space key)) ≡ key =
        ap (λ z. without_masks (map lower_rune z)) (trim_space-id key (kept_no_space key k))
        ∙ ap without_masks l
        ∙ without_masks-id key k in
      ground arith

-- A key that was normalized is a fixed point: normalized again, it stays as it is, so that a stored key
-- and one read from a source are compared in one form. Lowering a character twice is taken to be the
-- same as lowering it once, as in the Unicode tables.
pub normalize_account_matching_key_stable :
    (lower_rune : ℕ → ℕ)
    → ((c : ℕ) → lower_rune (lower_rune c) ≡ lower_rune c)
    → (key_type : KeyType) (value key : Text)
    → normalize_account_matching_key lower_rune key_type value ≡ some key
    → normalize_account_matching_key lower_rune key_type key ≡ some key
unfolding normalize_account_matching_key
normalize_account_matching_key_stable lower i card_last_four value key e =
    card_key-id lower i value key e
normalize_account_matching_key_stable lower i bank_account_suffix value key e =
    suffix_key-id lower i value key e
normalize_account_matching_key_stable lower i (KeyType.other_key _) value key e = ground arith
