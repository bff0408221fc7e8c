-- ===== src/AccountBalances/View.antt =====
-- `balanceView` as a whole.
use wealth_management.Prelude.{
  none, some, List, [], ◌∷◌, ◌≡◌, refl, inl, inr, All, arith, ap, sym, ◌∙◌, subst,
}
use wealth_management.Prelude.Int.{ℤ, pos, ◌+ℤ◌, IsInt64}
use wealth_management.Prelude.Text.{Text}
use wealth_management.GoTime.{Time}
use wealth_management.AccountBalances.Types.{
  Result-cases, ok, ok_inj, BalanceAmount, FinancialAccount, ConfirmedMovement, BalanceView,
}
use wealth_management.AccountBalances.Balances.{
  amount_of, put_amount, opening_totals, apply_movements,
}
use wealth_management.AccountBalances.Opening.{last_amount}
use wealth_management.AccountBalances.Sorted.{
  IsSorted, sort_by_currency-IsSorted, amount_of-sort_by_currency,
}
use wealth_management.AccountBalances.Exact.{
  net, Bounded, AllInt64, amount_of-put_amount, apply_movements_exact,
}
use wealth_management.AccountBalances.Service.{view_from, configured_view}

-- The balance that the list of opening balances holds for a currency: its last entry, or 0.
abbrev pub opening_amount : Text → List BalanceAmount → ℤ
opening_amount c baseline = elim (last_amount c baseline) [ none ↦ pos 0 | some amount ↦ amount ]

opening_totals_last :
    (c : Text) (totals baseline : List BalanceAmount)
    → amount_of c (opening_totals totals baseline)
      ≡ elim (last_amount c baseline) [ none ↦ amount_of c totals | some amount ↦ amount ]
unfolding opening_totals last_amount
opening_totals_last c totals [] = refl
opening_totals_last c totals (x ∷ xs) =
    let ih = opening_totals_last c (put_amount x.currency x.minor_units totals) xs in
    ground (arith, ih, amount_of-put_amount c x.currency x.minor_units totals)

opening_totals_amount :
    (c : Text) (baseline : List BalanceAmount)
    → amount_of c (opening_totals [] baseline) ≡ opening_amount c baseline
unfolding amount_of
opening_totals_amount c baseline = opening_totals_last c [] baseline

last_amount-IsInt64 :
    (c : Text) (baseline : List BalanceAmount)
    → All (λ b. IsInt64 b.minor_units) baseline
    → IsInt64 (opening_amount c baseline)
unfolding last_amount
last_amount-IsInt64 c [] h = ground arith
last_amount-IsInt64 c (x ∷ xs) (h, hs) = ground (arith, last_amount-IsInt64 c xs hs)

-- The balances shown for an account that could be calculated are sorted by currency, and each is the
-- opening balance of that currency and what the movements after the baseline add to it, summed without
-- a bound: money out of an asset and payments on a liability lower it. The opening amounts and the
-- amounts of the movements are any `int64`, and a negative movement does not count.
pub view_from_exact :
    (account : FinancialAccount) (as_of : Time) (ms : List ConfirmedMovement) (view : BalanceView)
    → All (λ b. IsInt64 b.minor_units) account.baseline
    → AllInt64 ms
    → view_from account as_of (ok ms) ≡ ok view
    → IsSorted view.current_balances
      × ((c : Text)
          → amount_of c view.current_balances
            ≡ opening_amount c account.baseline +ℤ net account.side as_of c ms)
unfolding view_from Bounded
view_from_exact account as_of ms view b h e =
    elim (Result-cases
      (apply_movements account.side as_of (opening_totals [] account.baseline) ms)) [
        | inr (_, f) ↦ ground arith
        | inl (totals, f) ↦
            let v : configured_view account totals ≡ view = ok_inj (ground arith) in
            subst
              (λ w.
                IsSorted w.current_balances
                × ((c : Text)
                    → amount_of c w.current_balances
                      ≡ opening_amount c account.baseline +ℤ net account.side as_of c ms))
              v
              (
                sort_by_currency-IsSorted totals,
                λ c.
                    amount_of-sort_by_currency c totals
                    ∙ apply_movements_exact account.side as_of (opening_totals [] account.baseline)
                        totals ms
                        (λ d.
                          subst IsInt64 (sym (opening_totals_amount d account.baseline))
                            (last_amount-IsInt64 d account.baseline b))
                        h f c
                    ∙ ap (λ z. z +ℤ net account.side as_of c ms)
                        (opening_totals_amount c account.baseline),
              )
      ]
