-- ===== src/AccountBalances/Normalized.antt =====
-- `normalizeBalances`: what it accepts and what it returns.
use wealth_management.Prelude.{
  ℕ, String, Bool, true, false, not, ◌&&◌, List, [], ◌∷◌, map, ◌≤◌, ◌≡◌, ◌⊎◌, inl, inr, All, length,
  arith, ap, sym, ◌∙◌, subst, Bool-cases,
}
use text.Mathlib.Text.{◌==◌ as str_eq}
use mathlib.Core.List.{Perm}
use mathlib.Core.List.Perm
use wealth_management.Prelude.Int.{ℤ, pos, ltb_ℤ, IsInt64, ◌≤ℤ◌}
use wealth_management.Prelude.Text.{text_lt, Text, text_eq, text_eq_iff}
use wealth_management.Currency.{is_iso4217}
use wealth_management.AccountBalances.Types.{Result-cases, ok, ok_inj, BalanceAmount}
use wealth_management.AccountBalances.MinorUnits.{parse_minor_units, parse_int64, format_int}
use wealth_management.AccountBalances.Opening.{
  insert_sorted, sort_by_currency, normalize_balance, normalize_each, normalize_balances,
}
use wealth_management.AccountBalances.RoundTrip.{parse_accepts}
use wealth_management.AccountBalances.Sorted.{
  IsSorted, sort_by_currency-IsSorted, sort_by_currency-Perm,
}

-- An entry as the request gives it: the currency and the amount in decimal.
abbrev pub printed : BalanceAmount → Text × Text
printed b = (b.currency, format_int b.minor_units)

parse_minor_units-IsInt64 :
    (raw : Text) (value : ℤ) → parse_minor_units raw ≡ ok value → IsInt64 value
unfolding parse_minor_units parse_int64
parse_minor_units-IsInt64 [] value e = ground arith
parse_minor_units-IsInt64 (c ∷ s) value e = ground arith

module _ (upper_rune : ℕ → ℕ) (parse_iso : Text → Bool) (account_type : String) where
  -- An amount that an account of this type may open with.
  unfoldable pub IsOpening : BalanceAmount → Type 0
  IsOpening b =
      (map upper_rune b.currency ≡ b.currency)
      × (is_iso4217 upper_rune parse_iso b.currency ≡ true)
      × IsInt64 b.minor_units
      × ((str_eq account_type "bank_account" ≡ true) ⊎ (pos 0 ≤ℤ b.minor_units))

  normalize_balance_checks :
      (currency raw : Text) (b : BalanceAmount)
      → normalize_balance upper_rune parse_iso account_type (currency, raw) ≡ ok b
      → (parse_minor_units raw ≡ ok b.minor_units)
        × (b.currency ≡ currency)
        × (text_eq currency (map upper_rune currency) ≡ true)
        × (is_iso4217 upper_rune parse_iso currency ≡ true)
        × ((ltb_ℤ b.minor_units (pos 0) && not (str_eq account_type "bank_account")) ≡ false)
  unfolding normalize_balance
  normalize_balance_checks currency raw b e = elim (Result-cases (parse_minor_units raw)) [
    | inl (amount, p) ↦ ground arith
    | inr (_, p) ↦ ground arith
  ]

  normalize_balance_sound :
      (value : Text × Text) (b : BalanceAmount)
      → normalize_balance upper_rune parse_iso account_type value ≡ ok b
      → (printed b ≡ value) × IsOpening b
  unfolding IsOpening
  normalize_balance_sound (currency, raw) b e =
      let (p, c, u, i, n) = normalize_balance_checks currency raw b e in
      let r = parse_accepts raw b.minor_units p in
      (
        ap (λ d. (d, format_int b.minor_units)) c ∙ ap (λ t. (currency, t)) (sym r),
        (
          ap (map upper_rune) c
              ∙ sym ((text_eq_iff currency (map upper_rune currency)).0 u)
              ∙ sym c,
          ap (is_iso4217 upper_rune parse_iso) c ∙ i,
          parse_minor_units-IsInt64 raw b.minor_units p,
          ground arith,
        ),
      )

  insert_sorted-IsOpening :
      (x : BalanceAmount) (ys : List BalanceAmount)
      → IsOpening x
      → All IsOpening ys
      → All IsOpening (insert_sorted x ys)
  unfolding insert_sorted
  insert_sorted-IsOpening x [] h hs = (h, hs)
  insert_sorted-IsOpening x (y ∷ ys) h (g, gs) = elim (Bool-cases (text_lt y.currency x.currency)) [
    | inl e ↦ rw e (g, insert_sorted-IsOpening x ys h gs)
    | inr e ↦ rw e (h, (g, gs))
  ]

  sort_by_currency-IsOpening :
      (xs : List BalanceAmount) → All IsOpening xs → All IsOpening (sort_by_currency xs)
  unfolding sort_by_currency
  sort_by_currency-IsOpening [] h = h
  sort_by_currency-IsOpening (x ∷ xs) (h, hs) =
      insert_sorted-IsOpening x (sort_by_currency xs) h (sort_by_currency-IsOpening xs hs)

  normalize_each_step :
      (value : Text × Text) (values : List (Text × Text)) (bs : List BalanceAmount)
      → normalize_each upper_rune parse_iso account_type (value ∷ values) ≡ ok bs
      → (b : BalanceAmount) × (cs : List BalanceAmount) × (bs ≡ b ∷ cs)
        × (normalize_balance upper_rune parse_iso account_type value ≡ ok b)
        × (normalize_each upper_rune parse_iso account_type values ≡ ok cs)
  unfolding normalize_each
  normalize_each_step value values bs e =
      elim (Result-cases (normalize_balance upper_rune parse_iso account_type value)) [
        | inr (_, f) ↦ ground arith
        | inl (b, f) ↦
            elim (Result-cases (normalize_each upper_rune parse_iso account_type values)) [
              | inr (_, g) ↦ ground arith
              | inl (cs, g) ↦ (b, cs, ground arith, f, g)
            ]
      ]

  normalize_each_sound :
      (values : List (Text × Text)) (bs : List BalanceAmount)
      → normalize_each upper_rune parse_iso account_type values ≡ ok bs
      → (map printed bs ≡ values) × All IsOpening bs
  unfolding normalize_each
  normalize_each_sound [] bs e =
      (ap (map printed) (sym (ok_inj e)), subst (All IsOpening) (ok_inj e) tt)
  normalize_each_sound (value ∷ values) bs e =
      let (b, cs, p, f, g) = normalize_each_step value values bs e in
      let (v, o) = normalize_balance_sound value b f in
      let (vs, os) = normalize_each_sound values cs g in
      subst (λ zs. (map printed zs ≡ value ∷ values) × All IsOpening zs) (sym p)
        (ap (λ z. z ∷ map printed cs) v ∙ ap (λ zs. value ∷ zs) vs, (o, os))

  -- What is accepted: 1 to 20 entries, each with a currency that is its own upper case and is
  -- registered, and an amount that is a canonical `int64` and is negative for a bank account only. The
  -- result is sorted by currency and holds the very entries of the request, rearranged.
  pub normalize_balances_sound :
      (values : List (Text × Text)) (bs : List BalanceAmount)
      → normalize_balances upper_rune parse_iso values account_type ≡ ok bs
      → (1 ≤ length values)
        × (length values ≤ 20)
        × IsSorted bs
        × Perm (map printed bs) values
        × All IsOpening bs
  unfolding normalize_balances
  normalize_balances_sound values bs e =
      elim (Result-cases (normalize_each upper_rune parse_iso account_type values)) [
        | inr (_, f) ↦ ground arith
        | inl (cs, f) ↦
            let (v, o) = normalize_each_sound values cs f in
            let s : sort_by_currency cs ≡ bs = ground arith in
            (
              ground arith,
              ground arith,
              subst IsSorted s (sort_by_currency-IsSorted cs),
              subst (λ zs. Perm (map printed zs) values) s
                  (subst (λ zs. Perm (map printed (sort_by_currency cs)) zs) v
                    (Perm.map printed (sort_by_currency-Perm cs))),
              subst (All IsOpening) s (sort_by_currency-IsOpening cs o),
            )
      ]
