-- ===== src/AccountBalances/Exact.antt =====
-- What `balanceView` computes, against sums of integers without a bound.
use wealth_management.Prelude.{
  true, false, not, ◌&&◌, List, [], ◌∷◌, if◌then◌else◌, ◌≡◌, refl, ◌↔◌, inl, inr, All, arith,
  Bool-cases, ap, sym, ◌∙◌,
}
use wealth_management.Prelude.Int.{
  ℤ, pos, ◌+ℤ◌, ◌-ℤ◌, ◌≤ℤ◌, IsInt64, wrap_int64, wrap_int64_id, int_laws,
}
use wealth_management.Prelude.Text.{Text, text_eq, text_eq_iff}
use wealth_management.GoTime.{Time}
use wealth_management.AccountBalances.Types.{
  ok, ok_inj, AccountSide, asset, liability, debit, credit, BalanceAmount, ConfirmedMovement,
}
use wealth_management.AccountBalances.Balances.{
  amount_of, put_amount, signed_delta, is_skipped, overflows, add_movement, apply_movements,
}

pub overflows_exact : (a d : ℤ) → IsInt64 a → IsInt64 d → (overflows a d ≡ false) ↔ IsInt64 (a +ℤ d)
unfolding overflows wrap_int64 ◌+ℤ◌ ◌-ℤ◌
overflows_exact a d ha hd = ground arith

-- What a movement adds to an account: money out of an asset and payments on a debt lower it.
unfoldable pub effect : AccountSide → ConfirmedMovement → ℤ
effect asset m = elim m.kind [ debit ↦ pos 0 -ℤ m.minor_units | credit ↦ m.minor_units ]
effect liability m = elim m.kind [ debit ↦ m.minor_units | credit ↦ pos 0 -ℤ m.minor_units ]

pub signed_delta-effect :
    (side : AccountSide) (m : ConfirmedMovement)
    → IsInt64 m.minor_units
    → (pos 0 ≤ℤ m.minor_units)
    → (signed_delta side m ≡ effect side m) × IsInt64 (effect side m)
unfolding signed_delta effect wrap_int64
signed_delta-effect side m h p = elim side [
  | asset ↦ elim m.kind [ debit ↦ grind int_laws | credit ↦ grind int_laws ]
  | liability ↦ elim m.kind [ debit ↦ grind int_laws | credit ↦ grind int_laws ]
]

-- What the movements after `as_of` add to an account's balance of one currency.
unfoldable pub net : AccountSide → Time → Text → List ConfirmedMovement → ℤ
unfolding effect is_skipped
net side as_of c [] = pos 0
net side as_of c (m ∷ ms) =
    (if not (is_skipped as_of m) && text_eq m.currency c then effect side m else pos 0)
    +ℤ net side as_of c ms

-- Every total is an `int64`.
unfoldable pub Bounded : List BalanceAmount → Type 0
unfolding amount_of
Bounded totals = (c : Text) → IsInt64 (amount_of c totals)

pub amount_of-put_amount :
    (c k : Text) (v : ℤ) (totals : List BalanceAmount)
    → amount_of c (put_amount k v totals) ≡ (if text_eq k c then v else amount_of c totals)
unfolding amount_of put_amount
amount_of-put_amount c k v [] = refl
amount_of-put_amount c k v (x ∷ xs) = ground (
  arith,
  amount_of-put_amount c k v xs,
  text_eq_iff x.currency k,
  text_eq_iff x.currency c,
  text_eq_iff k c,
)

pub apply_movements_skip :
    (side : AccountSide) (as_of : Time) (totals : List BalanceAmount) (m : ConfirmedMovement)
    (ms : List ConfirmedMovement)
    → is_skipped as_of m ≡ true
    → apply_movements side as_of totals (m ∷ ms) ≡ apply_movements side as_of totals ms
unfolding apply_movements
apply_movements_skip side as_of totals m ms h = rw (h, apply_movements)

pub add_movement-ok :
    (side : AccountSide) (as_of : Time) (totals : List BalanceAmount) (m : ConfirmedMovement)
    → Bounded totals
    → IsInt64 m.minor_units
    → is_skipped as_of m ≡ false
    → IsInt64 (amount_of m.currency totals +ℤ effect side m)
    → add_movement side totals m
      ≡ ok (put_amount m.currency (amount_of m.currency totals +ℤ effect side m) totals)
unfolding add_movement is_skipped Bounded
add_movement-ok side as_of totals m b h s f =
    let cur = amount_of m.currency totals in
    let (e, i) = signed_delta-effect side m h (ground arith) in
    rw (
      e,
      (overflows_exact cur (effect side m) (b m.currency) i).1 f,
      wrap_int64_id (cur +ℤ effect side m) f,
    )

pub add_movement_fits :
    (side : AccountSide) (as_of : Time) (totals totals' : List BalanceAmount)
    (m : ConfirmedMovement)
    → Bounded totals
    → IsInt64 m.minor_units
    → is_skipped as_of m ≡ false
    → add_movement side totals m ≡ ok totals'
    → IsInt64 (amount_of m.currency totals +ℤ effect side m)
unfolding add_movement is_skipped Bounded
add_movement_fits side as_of totals totals' m b h s r =
    let cur = amount_of m.currency totals in
    let (e, i) = signed_delta-effect side m h (ground arith) in
    (overflows_exact cur (effect side m) (b m.currency) i).0
      (ap (overflows cur) (sym e) ∙ ground arith)

abbrev pub next_amount : AccountSide → List BalanceAmount → ConfirmedMovement → ℤ
next_amount side totals m = amount_of m.currency totals +ℤ effect side m

abbrev pub next_totals : AccountSide → List BalanceAmount → ConfirmedMovement → List BalanceAmount
next_totals side totals m = put_amount m.currency (next_amount side totals m) totals

pub next_totals-Bounded :
    (side : AccountSide) (totals : List BalanceAmount) (m : ConfirmedMovement)
    → Bounded totals
    → IsInt64 (next_amount side totals m)
    → Bounded (next_totals side totals m)
unfolding Bounded
next_totals-Bounded side totals m b f c =
    ground (arith, b c, amount_of-put_amount c m.currency (next_amount side totals m) totals)

pub apply_movements_step :
    (side : AccountSide) (as_of : Time) (totals : List BalanceAmount) (m : ConfirmedMovement)
    (ms : List ConfirmedMovement)
    → Bounded totals
    → IsInt64 m.minor_units
    → is_skipped as_of m ≡ false
    → IsInt64 (next_amount side totals m)
    → apply_movements side as_of totals (m ∷ ms)
      ≡ apply_movements side as_of (next_totals side totals m) ms
unfolding apply_movements
apply_movements_step side as_of totals m ms b h s f =
    rw (s, add_movement-ok side as_of totals m b h s f, apply_movements)

apply_movements_added :
    (side : AccountSide) (as_of : Time) (totals totals' : List BalanceAmount)
    (m : ConfirmedMovement) (ms : List ConfirmedMovement)
    → is_skipped as_of m ≡ false
    → apply_movements side as_of totals (m ∷ ms) ≡ ok totals'
    → (t : List BalanceAmount) × (add_movement side totals m ≡ ok t)
unfolding apply_movements
apply_movements_added side as_of totals totals' m ms s h = ground arith

pub net_step :
    (side : AccountSide) (as_of : Time) (totals : List BalanceAmount) (m : ConfirmedMovement)
    (ms : List ConfirmedMovement) (c : Text)
    → is_skipped as_of m ≡ false
    → amount_of c (next_totals side totals m) +ℤ net side as_of c ms
      ≡ amount_of c totals +ℤ net side as_of c (m ∷ ms)
unfolding net
net_step side as_of totals m ms c s = grind (
  int_laws,
  amount_of-put_amount c m.currency (next_amount side totals m) totals,
  text_eq_iff m.currency c,
)

-- The test that `apply_movements_exact` and its converse share: a movement that counts fits.
pub fits :
    (side : AccountSide) (as_of : Time) (totals totals' : List BalanceAmount)
    (m : ConfirmedMovement) (ms : List ConfirmedMovement)
    → Bounded totals
    → IsInt64 m.minor_units
    → is_skipped as_of m ≡ false
    → apply_movements side as_of totals (m ∷ ms) ≡ ok totals'
    → IsInt64 (next_amount side totals m)
fits side as_of totals totals' m ms b h s e =
    let (t, r) = apply_movements_added side as_of totals totals' m ms s e in
    add_movement_fits side as_of totals t m b h s r

abbrev pub AllInt64 : List ConfirmedMovement → Type 0
AllInt64 ms = All (λ m. IsInt64 m.minor_units) ms

pub apply_movements_exact :
    (side : AccountSide) (as_of : Time) (totals totals' : List BalanceAmount)
    (ms : List ConfirmedMovement)
    → Bounded totals
    → AllInt64 ms
    → apply_movements side as_of totals ms ≡ ok totals'
    → (c : Text) → (amount_of c totals' ≡ amount_of c totals +ℤ net side as_of c ms)
unfolding net apply_movements
apply_movements_exact side as_of totals totals' [] b h e c = grind (int_laws, ok_inj e)
apply_movements_exact side as_of totals totals' (m ∷ ms) b (h, hs) e c =
    elim (Bool-cases (is_skipped as_of m)) [
      | inl s ↦
          let ih =
            apply_movements_exact side as_of totals totals' ms b hs
              (sym (apply_movements_skip side as_of totals m ms s) ∙ e) c in
          grind int_laws
      | inr s ↦
          let f = fits side as_of totals totals' m ms b h s e in
          let ih =
            apply_movements_exact side as_of (next_totals side totals m) totals' ms
              (next_totals-Bounded side totals m b f) hs
              (sym (apply_movements_step side as_of totals m ms b h s f) ∙ e) c in
          ih ∙ net_step side as_of totals m ms c s
    ]
