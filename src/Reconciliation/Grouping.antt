-- ===== src/Reconciliation/Grouping.antt =====
-- What grouping and abbreviating make of an amount.
use wealth_management.Prelude.{
  ℕ, ◌*◌, ◌/◌, ◌%◌, ◌≤◌, Bool, true, false, not, ◌||◌, List, [], ◌∷◌, ◌++◌, any, all, ◌==◌, ◌≡◌,
  ◌≢◌, refl, arith, ap, sym, ◌∙◌, Bool-cases, subst, inl, inr,
}
use mathlib.Core.List.{append_assoc, reverse, reverse-append, reverse-reverse}
use wealth_management.Prelude.Text.{Text, text_eq, text_eq_iff, all-reverse}
use wealth_management.Prelude.Decimal.{
  is_digit, decimal, decimal_ten, decimal-all, decimal_nonempty,
}
use wealth_management.Reconciliation.Amounts.{
  zeros, padded, format_minor_amount, abbreviations, grouped_amount, has_point, values_of, add_new,
  representations, amount_representations,
}

-- The text without its commas.
unfoldable pub ungrouped : Text → Text
ungrouped [] = []
ungrouped (c ∷ s) = elim (c == b',') [ true ↦ ungrouped s | false ↦ c ∷ ungrouped s ]

abbrev pub is_plain : ℕ → Bool
is_plain c = not (c == b',')

-- From the right: groups of three, none with a comma in it and one comma between two groups, and a last
-- group of one to three.
unfoldable pub IsGroups : Text → Type 0
IsGroups [] = Unit
IsGroups (a ∷ []) = is_plain a ≡ true
IsGroups (a ∷ b ∷ []) = (is_plain a ≡ true) × (is_plain b ≡ true)
IsGroups (a ∷ b ∷ c ∷ []) = (is_plain a ≡ true) × (is_plain b ≡ true) × (is_plain c ≡ true)
IsGroups (a ∷ b ∷ c ∷ d ∷ s) =
    ((is_plain a ≡ true) × (is_plain b ≡ true) × (is_plain c ≡ true))
    × (d ≡ b',')
    × (s ≢ [])
    × IsGroups s

-- `v` is one of the texts.
abbrev pub Has : Text → List Text → Type 0
Has v texts = any (text_eq v) texts ≡ true

pub any-append :
    {A : Type 0} (p : A → Bool) (xs ys : List A) → any p (xs ++ ys) ≡ (any p xs || any p ys)
unfolding any
any-append p [] ys = refl
any-append p (x ∷ xs) ys = ground (arith, any-append p xs ys)

add_new-Has : (v x : Text) (seen : List Text) → Has v seen → Has v (add_new x seen)
unfolding add_new any
add_new-Has v x seen h = ground (arith, any-append (text_eq v) seen (x ∷ []))

add_new_self : (v : Text) (seen : List Text) → Has v (add_new v seen)
unfolding add_new any
add_new_self v seen = ground (arith, any-append (text_eq v) seen (v ∷ []), text_eq_iff v v)

representations-Has :
    (v : Text) (seen values : List Text) → Has v seen → Has v (representations seen values)
unfolding representations
representations-Has v seen [] h = h
representations-Has v seen (x ∷ xs) h =
    representations-Has v (add_new (grouped_amount x) (add_new x seen)) xs
      (add_new-Has v (grouped_amount x) (add_new x seen) (add_new-Has v x seen h))

Has-representations :
    (v : Text) (seen values : List Text) → Has v values → Has v (representations seen values)
unfolding representations any
Has-representations v seen [] h = ground arith
Has-representations v seen (x ∷ xs) h = elim (Bool-cases (text_eq v x)) [
  | inl e ↦
      let p = (text_eq_iff v x).0 e in
      representations-Has v (add_new (grouped_amount x) (add_new x seen)) xs (
        add_new-Has v (grouped_amount x) (add_new x seen)
          (subst (λ z. Has v (add_new z seen)) p (add_new_self v seen)))
  | inr e ↦ Has-representations v (add_new (grouped_amount x) (add_new x seen)) xs (ground arith)
]

-- A zero at the end is taken off, also where no point stands before it.
abbreviations_step :
    (e : ℕ) (t : Text) → is_digit e ≡ true → Has (reverse (e ∷ t)) (abbreviations (b'0' ∷ e ∷ t))
unfolding abbreviations any
abbreviations_step e t d = ground (arith, text_eq_iff (reverse (e ∷ t)) (reverse (e ∷ t)))

abbreviations_digits :
    (v r : Text) → reverse v ≡ r → all is_digit r ≡ true → v ≢ [] → Has v (abbreviations (b'0' ∷ r))
unfolding all
abbreviations_digits v [] e d n = absurd (n (sym (reverse-reverse v) ∙ ap reverse e))
abbreviations_digits v (c ∷ t) e d n =
    subst (λ z. Has z (abbreviations (b'0' ∷ c ∷ t))) (ap reverse (sym e) ∙ reverse-reverse v)
      (abbreviations_step c t (ground arith))

canonical_ten :
    (k : ℕ)
    → 1 ≤ k
    → format_minor_amount (1000 * k) 2 ≡ decimal k ++ (b'0' ∷ b'.' ∷ b'0' ∷ b'0' ∷ [])
unfolding format_minor_amount padded zeros
canonical_ten k h =
    let q : 1000 * k / 100 ≡ 10 * k = omega arith in
    let r : 1000 * k % 100 ≡ 0 = omega arith in
    rw (q, r)
      (ap (λ s. s ++ (b'.' ∷ b'0' ∷ b'0' ∷ [])) (decimal_ten k h)
        ∙ append_assoc (decimal k) (b'0' ∷ []) (b'.' ∷ b'0' ∷ b'0' ∷ []))

abbreviations_ten :
    (v : Text)
    → all is_digit v ≡ true
    → v ≢ []
    → Has v (abbreviations (b'0' ∷ b'0' ∷ b'.' ∷ b'0' ∷ reverse v))
unfolding abbreviations any
abbreviations_ten v d n =
    let h = abbreviations_digits v (reverse v) refl (all-reverse is_digit v d) n in ground arith

values_ten :
    (v : Text)
    → all is_digit v ≡ true
    → v ≢ []
    → Has v (values_of (v ++ (b'0' ∷ b'.' ∷ b'0' ∷ b'0' ∷ [])))
unfolding values_of any
values_ten v d n =
    let tail = b'0' ∷ b'.' ∷ b'0' ∷ b'0' ∷ [] in
    let p : has_point (v ++ tail) ≡ true = ground (arith, any-append (λ c. c == b'.') v tail) in
    let h = abbreviations_ten v d n in rw (p, reverse-append v tail) (ground arith)

-- The amount of 10 k whole units of a currency with two decimals may be written as k: the loop that
-- takes zeros from the end goes on past the point.
pub amount_representations_ten :
    (k : ℕ) → 1 ≤ k → any (text_eq (decimal k)) (amount_representations (1000 * k) 2) ≡ true
unfolding amount_representations
amount_representations_ten k h =
    Has-representations (decimal k) [] (values_of (format_minor_amount (1000 * k) 2)) (
      subst (λ c. Has (decimal k) (values_of c)) (sym (canonical_ten k h))
        (values_ten (decimal k) (decimal-all k) (decimal_nonempty k)))
