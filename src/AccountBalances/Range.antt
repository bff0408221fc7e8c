-- ===== src/AccountBalances/Range.antt =====
-- When `balanceView` reports an overflow: exactly when a balance leaves the 64 bits on the way.
use wealth_management.Prelude.{
  true, false, List, [], ◌∷◌, ◌++◌, ◌≡◌, refl, ◌↔◌, inl, inr, Bool-cases, ap, sym, ◌∙◌, subst,
}
use wealth_management.Prelude.Int.{◌+ℤ◌, IsInt64, int_laws}
use wealth_management.Prelude.Text.{Text, text_eq_iff}
use wealth_management.GoTime.{Time}
use wealth_management.AccountBalances.Types.{ok, AccountSide, BalanceAmount, ConfirmedMovement}
use wealth_management.AccountBalances.Balances.{amount_of, is_skipped, apply_movements}
use wealth_management.AccountBalances.Exact.{
  net, net_step, Bounded, AllInt64, next_amount, next_totals, next_totals-Bounded, fits,
  apply_movements_skip, apply_movements_step,
}

-- After every prefix of the movements, the balance of every currency is an `int64`.
unfoldable pub StaysInRange :
    AccountSide → Time → List BalanceAmount → List ConfirmedMovement → Type 0
unfolding amount_of net
StaysInRange side as_of totals ms =
    (xs ys : List ConfirmedMovement)
    → (ms ≡ xs ++ ys)
    → (c : Text) → IsInt64 (amount_of c totals +ℤ net side as_of c xs)

net_skip :
    (side : AccountSide) (as_of : Time) (m : ConfirmedMovement) (ms : List ConfirmedMovement)
    (c : Text)
    → is_skipped as_of m ≡ true
    → net side as_of c (m ∷ ms) ≡ net side as_of c ms
unfolding net
net_skip side as_of m ms c s = grind int_laws

in_range_of_ok :
    (side : AccountSide) (as_of : Time) (totals totals' : List BalanceAmount)
    (xs ys : List ConfirmedMovement)
    → Bounded totals
    → AllInt64 (xs ++ ys)
    → apply_movements side as_of totals (xs ++ ys) ≡ ok totals'
    → (c : Text) → IsInt64 (amount_of c totals +ℤ net side as_of c xs)
unfolding Bounded net
in_range_of_ok side as_of totals totals' [] ys b h e c = let bc = b c in grind int_laws
in_range_of_ok side as_of totals totals' (m ∷ xs) ys b (h, hs) e c =
    elim (Bool-cases (is_skipped as_of m)) [
      | inl s ↦
          subst (λ z. IsInt64 (amount_of c totals +ℤ z)) (sym (net_skip side as_of m xs c s))
            (in_range_of_ok side as_of totals totals' xs ys b hs
              (sym (apply_movements_skip side as_of totals m (xs ++ ys) s) ∙ e) c)
      | inr s ↦
          let f = fits side as_of totals totals' m (xs ++ ys) b h s e in
          subst IsInt64 (net_step side as_of totals m xs c s) (
            in_range_of_ok side as_of (next_totals side totals m) totals' xs ys
              (next_totals-Bounded side totals m b f) hs
              (sym (apply_movements_step side as_of totals m (xs ++ ys) b h s f) ∙ e) c)
    ]

next_amount_fits :
    (side : AccountSide) (as_of : Time) (totals : List BalanceAmount) (m : ConfirmedMovement)
    (ms : List ConfirmedMovement)
    → is_skipped as_of m ≡ false
    → StaysInRange side as_of totals (m ∷ ms)
    → IsInt64 (next_amount side totals m)
unfolding StaysInRange net
next_amount_fits side as_of totals m ms s r =
    let f = r (m ∷ []) ms refl m.currency in grind (int_laws, text_eq_iff m.currency m.currency)

StaysInRange-skip :
    (side : AccountSide) (as_of : Time) (totals : List BalanceAmount) (m : ConfirmedMovement)
    (ms : List ConfirmedMovement)
    → is_skipped as_of m ≡ true
    → StaysInRange side as_of totals (m ∷ ms)
    → StaysInRange side as_of totals ms
unfolding StaysInRange
StaysInRange-skip side as_of totals m ms s r xs ys e c =
    subst (λ z. IsInt64 (amount_of c totals +ℤ z)) (net_skip side as_of m xs c s)
      (r (m ∷ xs) ys (ap (λ zs. m ∷ zs) e) c)

StaysInRange-step :
    (side : AccountSide) (as_of : Time) (totals : List BalanceAmount) (m : ConfirmedMovement)
    (ms : List ConfirmedMovement)
    → is_skipped as_of m ≡ false
    → StaysInRange side as_of totals (m ∷ ms)
    → StaysInRange side as_of (next_totals side totals m) ms
unfolding StaysInRange
StaysInRange-step side as_of totals m ms s r xs ys e c =
    subst IsInt64 (sym (net_step side as_of totals m xs c s))
      (r (m ∷ xs) ys (ap (λ zs. m ∷ zs) e) c)

ok_of_in_range :
    (side : AccountSide) (as_of : Time) (totals : List BalanceAmount) (ms : List ConfirmedMovement)
    → Bounded totals
    → AllInt64 ms
    → StaysInRange side as_of totals ms
    → (totals' : List BalanceAmount) × (apply_movements side as_of totals ms ≡ ok totals')
unfolding apply_movements
ok_of_in_range side as_of totals [] b h r = (totals, refl)
ok_of_in_range side as_of totals (m ∷ ms) b (h, hs) r = elim (Bool-cases (is_skipped as_of m)) [
  | inl s ↦
      let (t, e) =
        ok_of_in_range side as_of totals ms b hs (StaysInRange-skip side as_of totals m ms s r) in
      (t, apply_movements_skip side as_of totals m ms s ∙ e)
  | inr s ↦
      let f = next_amount_fits side as_of totals m ms s r in
      let (t, e) =
        ok_of_in_range side as_of (next_totals side totals m) ms
          (next_totals-Bounded side totals m b f) hs
          (StaysInRange-step side as_of totals m ms s r) in
      (t, apply_movements_step side as_of totals m ms b h s f ∙ e)
]

-- From totals and movements that are any `int64`: the sum is calculated, and no overflow reported,
-- exactly when after every prefix of the movements the exact balance of every currency is an `int64`.
pub apply_movements_ok_iff :
    (side : AccountSide) (as_of : Time) (totals : List BalanceAmount) (ms : List ConfirmedMovement)
    → Bounded totals
    → AllInt64 ms
    → ((totals' : List BalanceAmount) × (apply_movements side as_of totals ms ≡ ok totals'))
      ↔ StaysInRange side as_of totals ms
unfolding StaysInRange
apply_movements_ok_iff side as_of totals ms b h = (
  λ (t, e) xs ys p.
      in_range_of_ok side as_of totals t xs ys b (subst AllInt64 p h)
        (ap (apply_movements side as_of totals) (sym p) ∙ e),
  ok_of_in_range side as_of totals ms b h,
)
