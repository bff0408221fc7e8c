-- ===== src/Reconciliation/Eligible.antt =====
-- What corroboration lets through.
use wealth_management.Prelude.{
  ℕ, ◌*◌, ◌≤◌, Bool, true, false, not, ◌||◌, Option, none, some, List, [], ◌∷◌, ◌++◌, map, any,
  ◌==◌, if◌then◌else◌, is_some, ◌≡◌, refl, ◌⊎◌, inl, inr, arith, ap, sym, ◌∙◌, Bool-cases,
}
use mathlib.Core.List.{append-nil}
use wealth_management.Prelude.Int.{pos}
use wealth_management.Prelude.Text.{Text, text_eq, text_eq_iff, trim_space, is_empty}
use wealth_management.Prelude.Decimal.{decimal}
use wealth_management.Currency.{is_iso4217}
use wealth_management.Reconciliation.Types.{AccountEvidence, card_last_four, Platform, Patterns}
use wealth_management.Reconciliation.Accounts.{card_digits, normalize_account_matching_key}
use wealth_management.Reconciliation.Amounts.{amount_representations}
use wealth_management.Reconciliation.Grouping.{Has, any-append, amount_representations_ten}
use wealth_management.Reconciliation.Corroboration.{
  code_first, code_last, matches_amount, has_qualified_amount,
  has_semantically_corroborated_card_last_four, sanitize_account_evidence_for_matching,
}

any-Has : (v : Text) (f : Text → Bool) (xs : List Text) → Has v xs → f v ≡ true → any f xs ≡ true
unfolding any
any-Has v f [] h m = h
any-Has v f (x ∷ xs) h m = elim (Bool-cases (text_eq v x)) [
  | inl e ↦ let q = ap f (sym ((text_eq_iff v x).0 e)) ∙ m in ground arith
  | inr e ↦ ground (arith, any-Has v f xs)
]

trim_space-nil : trim_space [] ≡ []
unfolding trim_space
trim_space-nil = refl

no_key :
    (lower : ℕ → ℕ) (s : Text)
    → is_empty s ≡ true
    → normalize_account_matching_key lower card_last_four s ≡ none
unfolding normalize_account_matching_key card_digits trim_space
no_key lower [] h = refl
no_key lower (c ∷ s) h = ground arith

is_none : {A : Type 0} (o : Option A) → not (is_some o) ≡ true → o ≡ none
is_none none h = refl
is_none (some a) h = ground arith

-- An identifier is the suffix, perhaps with space around it.
abbrev pub stands_for : Text → Text → Bool
stands_for suffix existing = text_eq (trim_space existing) suffix || text_eq existing suffix

any-stands_for :
    (suffix : Text) (xs : List Text)
    → any (λ existing. text_eq (trim_space existing) suffix) xs ≡ true
    → any (stands_for suffix) xs ≡ true
unfolding any
any-stands_for suffix [] h = h
any-stands_for suffix (x ∷ xs) h = ground (arith, any-stands_for suffix xs)

-- The identifiers with the suffix, which is not added again.
shown :
    (evidence : AccountEvidence) (suffix : Text)
    → let found =
        any (λ existing. text_eq (trim_space existing) suffix) evidence.additional_identifiers in
      let after =
        if found
        then evidence.additional_identifiers
        else evidence.additional_identifiers ++ (suffix ∷ []) in
      (any (stands_for suffix) after ≡ true)
      × ((added : List Text) × (after ≡ evidence.additional_identifiers ++ added))
unfolding any
shown evidence suffix =
    let ids = evidence.additional_identifiers in
    elim (Bool-cases (any (λ existing. text_eq (trim_space existing) suffix) ids)) [
      | inl f ↦ rw f (any-stands_for suffix ids f, ([], sym (append-nil ids)))
      | inr f ↦ rw f (
        any-append (stands_for suffix) ids (suffix ∷ [])
            ∙ ground (arith, text_eq_iff suffix suffix),
        (suffix ∷ [], refl),
      )
    ]

module _ (p : Platform) (r : Patterns) where
  -- A mail that shows the code of a currency with two decimals before the number k corroborates an
  -- amount of 10 k units of it, which is ten times as much.
  pub has_qualified_amount_ten :
      (k : ℕ) (code source : Text)
      → 1 ≤ k
      → is_iso4217 p.upper_rune p.parse_iso code ≡ true
      → r.scale code ≡ some 2
      → r.matches (code_first p r (map p.upper_rune code) (decimal k)) source ≡ true
      → has_qualified_amount p r (pos (1000 * k)) code source ≡ true
  unfolding has_qualified_amount matches_amount any
  has_qualified_amount_ten k code source h i s m =
      let z : (1000 * k == 0) ≡ false = ground arith in
      let upper = map p.upper_rune code in
      let f =
        any-Has (decimal k)
          (λ numeric.
            r.matches (code_first p r upper numeric) source
            || r.matches (code_last p r upper numeric) source)
          (amount_representations (1000 * k) 2) (amount_representations_ten k h) (ground arith) in
      rw (z, i, s, has_qualified_amount) (rw (f, matches_amount) refl)

  -- After the evidence is sanitized, its card suffix is no key for an account, or the source bears it
  -- out; the masked bank reference and all identifiers are kept; and a suffix that was taken out stands
  -- among the additional identifiers.
  pub sanitize_account_evidence_for_matching_sound :
      (evidence : AccountEvidence) (source : Text)
      → let after = sanitize_account_evidence_for_matching p r evidence source in
        ((normalize_account_matching_key p.lower_rune card_last_four
              (trim_space after.card_last_four)
            ≡ none)
          ⊎ (has_semantically_corroborated_card_last_four p r
                (trim_space after.card_last_four)
                source
              ≡ true))
        × (after.masked_bank_reference ≡ evidence.masked_bank_reference)
        × ((after ≡ evidence)
            ⊎ ((any (stands_for (trim_space evidence.card_last_four)) after.additional_identifiers
                  ≡ true)
                × ((added : List Text) × (after.additional_identifiers
                      ≡ evidence.additional_identifiers ++ added))))
  unfolding sanitize_account_evidence_for_matching
  sanitize_account_evidence_for_matching_sound evidence source =
      let suffix = trim_space evidence.card_last_four in
      let key = normalize_account_matching_key p.lower_rune card_last_four suffix in
      let borne = has_semantically_corroborated_card_last_four p r suffix source in
      let kept = is_empty suffix || not (is_some key) || borne in
      elim (Bool-cases kept) [
        | inl t ↦ rw t (
          elim (Bool-cases borne) [
            | inl b ↦ inr b
            | inr b ↦ elim (Bool-cases (is_empty suffix)) [
              | inl e ↦ inl (no_key p.lower_rune suffix e)
              | inr e ↦ inl (is_none key (ground arith))
            ]
          ],
          refl,
          inl refl,
        )
        | inr t ↦ rw t (
          inl (
              ap (normalize_account_matching_key p.lower_rune card_last_four) trim_space-nil
              ∙ no_key p.lower_rune [] refl),
          refl,
          inr (shown evidence suffix),
        )
      ]
