-- ===== src/AccountBalances/Sorted.antt =====
-- `sort.Slice` by currency: sorted, a rearrangement, and the same balance of every currency.
use wealth_management.Prelude.{true, false, List, [], ◌∷◌, ◌≡◌, refl, inl, inr, arith, Bool-cases}
use mathlib.Core.List.{Perm}
use mathlib.Core.List.Perm
use wealth_management.Prelude.Text.{text_lt, text_lt_asymm, Text, text_eq, text_eq_iff}
use wealth_management.AccountBalances.Types.{BalanceAmount}
use wealth_management.AccountBalances.Opening.{insert_sorted, sort_by_currency}
use wealth_management.AccountBalances.Balances.{amount_of}

text_lt_irrefl : (s : Text) → text_lt s s ≡ false
unfolding text_lt
text_lt_irrefl [] = refl
text_lt_irrefl (c ∷ s) = ground (arith, text_lt_irrefl s)

text_lt_neq : (s t : Text) → text_lt s t ≡ true → text_eq s t ≡ false
unfolding text_lt text_eq
text_lt_neq [] [] h = ground arith
text_lt_neq [] (d ∷ t) h = refl
text_lt_neq (c ∷ s) [] h = refl
text_lt_neq (c ∷ s) (d ∷ t) h = ground (arith, text_lt_neq s t)

-- No entry is smaller than the one before it.
unfoldable pub StartsAfter : BalanceAmount → List BalanceAmount → Type 0
StartsAfter x [] = Unit
StartsAfter x (y ∷ ys) = text_lt y.currency x.currency ≡ false

unfoldable pub IsSorted : List BalanceAmount → Type 0
unfolding StartsAfter
IsSorted [] = Unit
IsSorted (x ∷ xs) = StartsAfter x xs × IsSorted xs

StartsAfter-insert_sorted :
    (y x : BalanceAmount) (ys : List BalanceAmount)
    → text_lt y.currency x.currency ≡ true
    → StartsAfter y ys
    → StartsAfter y (insert_sorted x ys)
unfolding StartsAfter insert_sorted
StartsAfter-insert_sorted y x [] h p = text_lt_asymm y.currency x.currency h
StartsAfter-insert_sorted y x (z ∷ zs) h p = ground (arith, text_lt_asymm y.currency x.currency)

insert_sorted-IsSorted :
    (x : BalanceAmount) (ys : List BalanceAmount) → IsSorted ys → IsSorted (insert_sorted x ys)
unfolding IsSorted insert_sorted
insert_sorted-IsSorted x [] h = (tt, tt)
insert_sorted-IsSorted x (y ∷ ys) (h, hs) = elim (Bool-cases (text_lt y.currency x.currency)) [
  | inl e ↦ rw e (StartsAfter-insert_sorted y x ys e h, insert_sorted-IsSorted x ys hs)
  | inr e ↦ rw e (e, (h, hs))
]

pub sort_by_currency-IsSorted : (xs : List BalanceAmount) → IsSorted (sort_by_currency xs)
unfolding sort_by_currency IsSorted
sort_by_currency-IsSorted [] = tt
sort_by_currency-IsSorted (x ∷ xs) =
    insert_sorted-IsSorted x (sort_by_currency xs) (sort_by_currency-IsSorted xs)

insert_sorted-Perm :
    (x : BalanceAmount) (ys : List BalanceAmount) → Perm (insert_sorted x ys) (x ∷ ys)
unfolding insert_sorted
insert_sorted-Perm x [] = Perm.rfl
insert_sorted-Perm x (y ∷ ys) = elim (Bool-cases (text_lt y.currency x.currency)) [
  | inl e ↦ rw e (Perm.trans (Perm.cons y (insert_sorted-Perm x ys)) (Perm.swap x y ys))
  | inr e ↦ rw e Perm.rfl
]

pub sort_by_currency-Perm : (xs : List BalanceAmount) → Perm (sort_by_currency xs) xs
unfolding sort_by_currency
sort_by_currency-Perm [] = Perm.nil
sort_by_currency-Perm (x ∷ xs) =
    Perm.trans (insert_sorted-Perm x (sort_by_currency xs)) (Perm.cons x (sort_by_currency-Perm xs))

amount_of-insert_sorted :
    (c : Text) (x : BalanceAmount) (ys : List BalanceAmount)
    → amount_of c (insert_sorted x ys) ≡ amount_of c (x ∷ ys)
unfolding amount_of insert_sorted
amount_of-insert_sorted c x [] = refl
amount_of-insert_sorted c x (y ∷ ys) = ground (
  arith,
  amount_of-insert_sorted c x ys,
  text_lt_neq y.currency x.currency,
  text_eq_iff x.currency c,
  text_eq_iff y.currency c,
  text_eq_iff y.currency x.currency,
)

pub amount_of-sort_by_currency :
    (c : Text) (xs : List BalanceAmount) → amount_of c (sort_by_currency xs) ≡ amount_of c xs
unfolding amount_of sort_by_currency
amount_of-sort_by_currency c [] = refl
amount_of-sort_by_currency c (x ∷ xs) =
    ground
      (arith, amount_of-insert_sorted c x (sort_by_currency xs), amount_of-sort_by_currency c xs)
