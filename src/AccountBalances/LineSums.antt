-- ===== src/AccountBalances/LineSums.antt =====
-- The line items that `SetUserTreatment` accepts, against the sum of integers without a bound.
use wealth_management.Prelude.{
  true, false, ◌&&◌, none, some, List, [], ◌∷◌, ◌≡◌, refl, ◌↔◌, All, arith, ap, sym, subst, length,
  ◌≢◌, ◌∙◌, Option-cases, is_some, inl, inr,
}
use wealth_management.Prelude.Int.{
  ℤ, pos, ◌+ℤ◌, ◌-ℤ◌, ◌≤ℤ◌, ltb_ℤ, eqb_ℤ_iff, IsInt64, max_int64, wrap_int64, wrap_int64_id,
  int_laws,
}
use wealth_management.Prelude.Text.{Text, text_eq_iff}
use wealth_management.AccountBalances.Types.{
  Result-cases, ok, ok_inj, LineItemAmount, TransactionForTreatment,
}
use wealth_management.AccountBalances.Treatment.{add_line_item, sum_line_items, check_line_items}

-- The total of a line item, 0 if it has none.
abbrev pub line_total : LineItemAmount → ℤ
line_total item = elim item.line_total_minor [ none ↦ pos 0 | some total ↦ total ]

-- A line item that has a total, not negative and in the given currency.
unfoldable pub IsComplete : Text → LineItemAmount → Type 0
IsComplete currency item =
    (is_some item.line_total_minor ≡ true) × (item.currency ≡ currency) × (pos 0 ≤ℤ line_total item)

unfoldable pub line_sum : List LineItemAmount → ℤ
line_sum [] = pos 0
line_sum (item ∷ items) = line_total item +ℤ line_sum items

-- The test of one line item, without the bounds of an `int64`.
fits_iff :
    (amount sum total : ℤ)
    → pos 0 ≤ℤ amount
    → amount ≤ℤ max_int64
    → pos 0 ≤ℤ sum
    → sum ≤ℤ amount
    → pos 0 ≤ℤ total
    → total ≤ℤ max_int64
    → ((ltb_ℤ (pos 0) total && ltb_ℤ (wrap_int64 (amount -ℤ total)) sum) ≡ false)
      ↔ (sum +ℤ total ≤ℤ amount)
unfolding wrap_int64 ◌+ℤ◌ ◌-ℤ◌
fits_iff amount sum total p q r u v w = ground arith

wrap_sum :
    (amount sum total : ℤ)
    → amount ≤ℤ max_int64
    → pos 0 ≤ℤ sum
    → pos 0 ≤ℤ total
    → sum +ℤ total ≤ℤ amount
    → (wrap_int64 (sum +ℤ total) ≡ sum +ℤ total) × (pos 0 ≤ℤ sum +ℤ total) × (total ≤ℤ max_int64)
wrap_sum amount sum total p q r u =
    (wrap_int64_id (sum +ℤ total) (grind int_laws), grind int_laws, grind int_laws)

add_line_item_ok :
    (t : TransactionForTreatment) (sum sum' : ℤ) (item : LineItemAmount)
    → pos 0 ≤ℤ t.original_amount_minor
    → t.original_amount_minor ≤ℤ max_int64
    → pos 0 ≤ℤ sum
    → sum ≤ℤ t.original_amount_minor
    → IsInt64 (line_total item)
    → add_line_item t sum item ≡ ok sum'
    → IsComplete t.original_currency item
      × (sum' ≡ sum +ℤ line_total item)
      × (pos 0 ≤ℤ sum')
      × (sum' ≤ℤ t.original_amount_minor)
unfolding add_line_item IsComplete
add_line_item_ok t sum sum' item p q r u b e = ground (
  arith,
  text_eq_iff item.currency t.original_currency,
  fits_iff t.original_amount_minor sum (line_total item),
  wrap_sum t.original_amount_minor sum (line_total item),
)

line_total-some :
    (item : LineItemAmount) (total : ℤ)
    → item.line_total_minor ≡ some total
    → line_total item ≡ total
line_total-some item total e = rw e

add_line_item-some :
    (t : TransactionForTreatment) (sum total : ℤ) (item : LineItemAmount)
    → pos 0 ≤ℤ t.original_amount_minor
    → t.original_amount_minor ≤ℤ max_int64
    → pos 0 ≤ℤ sum
    → (sum +ℤ total) ≤ℤ t.original_amount_minor
    → item.line_total_minor ≡ some total
    → item.currency ≡ t.original_currency
    → pos 0 ≤ℤ total
    → add_line_item t sum item ≡ ok (sum +ℤ total)
unfolding add_line_item
add_line_item-some t sum total item p q r u e c n =
    let (w, x, y) = wrap_sum t.original_amount_minor sum total q r n u in
    let f = (fits_iff t.original_amount_minor sum total p q r (grind int_laws) n y).1 u in
    let d = (text_eq_iff item.currency t.original_currency).1 c in ground arith

add_line_item_complete :
    (t : TransactionForTreatment) (sum : ℤ) (item : LineItemAmount)
    → pos 0 ≤ℤ t.original_amount_minor
    → t.original_amount_minor ≤ℤ max_int64
    → pos 0 ≤ℤ sum
    → (sum +ℤ line_total item) ≤ℤ t.original_amount_minor
    → IsComplete t.original_currency item
    → add_line_item t sum item ≡ ok (sum +ℤ line_total item)
unfolding IsComplete
add_line_item_complete t sum item p q r u (b, c, n) = elim (Option-cases item.line_total_minor) [
  | inl e ↦ ground arith
  | inr (total, e) ↦
      let l = line_total-some item total e in
      subst (λ z. add_line_item t sum item ≡ ok (sum +ℤ z)) (sym l)
        (add_line_item-some t sum total item p q r
          (subst (λ z. sum +ℤ z ≤ℤ t.original_amount_minor) l u) e c (subst (λ z. pos 0 ≤ℤ z) l n))
]

-- The line items from `sum` on, for a transaction with an amount that an `int64` can hold.
module _ (t : TransactionForTreatment) (p : pos 0 ≤ℤ t.original_amount_minor)
    (q : t.original_amount_minor ≤ℤ max_int64) where
  abbrev AllComplete : List LineItemAmount → Type 0
  AllComplete items = All (IsComplete t.original_currency) items

  line_sum_nonneg : (items : List LineItemAmount) → AllComplete items → pos 0 ≤ℤ line_sum items
  unfolding line_sum IsComplete
  line_sum_nonneg [] h = omega arith
  line_sum_nonneg (item ∷ items) (h, hs) =
      let (_, _, i) = h in let ih = line_sum_nonneg items hs in grind int_laws

  sum_line_items_step :
      (item : LineItemAmount) (items : List LineItemAmount) (sum total : ℤ)
      → sum_line_items t sum (item ∷ items) ≡ ok total
      → (sum' : ℤ) × (add_line_item t sum item ≡ ok sum') × (sum_line_items t sum' items ≡ ok total)
  unfolding sum_line_items
  sum_line_items_step item items sum total e = elim (Result-cases (add_line_item t sum item)) [
    | inl (sum', e') ↦ (sum', e', ground arith)
    | inr (_, e') ↦ ground arith
  ]

  sum_line_items_ok :
      (items : List LineItemAmount) (sum total : ℤ)
      → pos 0 ≤ℤ sum
      → sum ≤ℤ t.original_amount_minor
      → All (λ i. IsInt64 (line_total i)) items
      → sum_line_items t sum items ≡ ok total
      → AllComplete items × (total ≡ sum +ℤ line_sum items)
  unfolding sum_line_items line_sum
  sum_line_items_ok [] sum total r u b e = (tt, grind (int_laws, ok_inj e))
  sum_line_items_ok (item ∷ items) sum total r u (b, bs) e =
      let (sum', e', rest) = sum_line_items_step item items sum total e in
      let (c, v, w, x) = add_line_item_ok t sum sum' item p q r u b e' in
      let (cs, y) = sum_line_items_ok items sum' total w x bs rest in ((c, cs), grind int_laws)

  sum_line_items_complete :
      (items : List LineItemAmount) (sum : ℤ)
      → pos 0 ≤ℤ sum
      → (sum +ℤ line_sum items) ≤ℤ t.original_amount_minor
      → AllComplete items
      → sum_line_items t sum items ≡ ok (sum +ℤ line_sum items)
  unfolding sum_line_items line_sum IsComplete
  sum_line_items_complete [] sum r u c = ap ok (grind int_laws)
  sum_line_items_complete (item ∷ items) sum r u (c, cs) =
      let n = line_sum_nonneg items cs in
      let e = add_line_item_complete t sum item p q r (grind int_laws) c in
      let ih =
        sum_line_items_complete items (sum +ℤ line_total item) (grind int_laws) (grind int_laws)
          cs in
      rw (e, sum_line_items, ih) (ap ok (grind int_laws))

  check_line_items_sum :
      (x : LineItemAmount) (xs : List LineItemAmount)
      → t.line_items ≡ x ∷ xs
      → (check_line_items t ≡ ok tt)
        ↔ (sum_line_items t (pos 0) (x ∷ xs) ≡ ok t.original_amount_minor)
  unfolding check_line_items
  check_line_items_sum x xs e = elim (Result-cases (sum_line_items t (pos 0) (x ∷ xs))) [
    | inl (sum, s) ↦ ground (arith, eqb_ℤ_iff sum t.original_amount_minor)
    | inr (_, s) ↦ ground arith
  ]

  accepted_iff :
      (xs : List LineItemAmount)
      → t.line_items ≡ xs
      → All (λ i. IsInt64 (line_total i)) xs
      → (check_line_items t ≡ ok tt)
        ↔ ((length xs ≢ 0) × AllComplete xs × (line_sum xs ≡ t.original_amount_minor))
  unfolding check_line_items
  accepted_iff [] e b = (λ r. ground arith, λ (n, _, _). elim (n refl) [ ])
  accepted_iff (x ∷ xs) e b = (
    λ r.
        let s = (check_line_items_sum x xs e).0 r in
        let (c, y) =
          sum_line_items_ok (x ∷ xs) (pos 0) t.original_amount_minor (omega arith) p b s in
        (λ z. omega arith, c, grind int_laws),
    λ (_, c, y).
        let s = sum_line_items_complete (x ∷ xs) (pos 0) (omega arith) (grind int_laws) c in
        (check_line_items_sum x xs e).1 (s ∙ ap ok (grind int_laws)),
  )

-- The line items of a transaction with an amount that is not negative are accepted exactly when there
-- are some, each has a total in the transaction's currency that is not negative, and the totals add up
-- to the amount. The totals are any `int64`: their sum, taken without a bound, never leaves the range.
pub check_line_items_iff :
    (t : TransactionForTreatment)
    → pos 0 ≤ℤ t.original_amount_minor
    → t.original_amount_minor ≤ℤ max_int64
    → All (λ i. IsInt64 (line_total i)) t.line_items
    → (check_line_items t ≡ ok tt) ↔ (
        (length t.line_items ≢ 0)
        × All (IsComplete t.original_currency) t.line_items
        × (line_sum t.line_items ≡ t.original_amount_minor))
check_line_items_iff t p q b = accepted_iff t p q t.line_items refl b
