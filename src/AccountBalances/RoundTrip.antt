-- ===== src/AccountBalances/RoundTrip.antt =====
-- `ParseMinorUnits` reads back what `strconv.FormatInt` prints, and accepts nothing else.
use wealth_management.Prelude.{
  ℕ, zero, suc, ◌+◌, ◌-◌, ◌*◌, ◌/◌, ◌%◌, ◌≤◌, true, false, ◌&&◌, [], ◌∷◌, ◌++◌, leb, ◌==◌, all, ◌≡◌,
  refl, ◌↔◌, arith, ap, sym, ◌∙◌, ==-cases, Bool-cases, &&-true, ==_iff, inl, inr,
}
use mathlib.Core.List.{append-nil}
use wealth_management.Prelude.Int.{ℤ, pos, negsuc, IsInt64}
use wealth_management.Prelude.Text.{Text, text_eq, text_eq_iff}
use wealth_management.Prelude.Decimal.{
  is_digit, digits_onto, digits_onto_step, digits_onto_zero, decimal,
}
use wealth_management.AccountBalances.Types.{ok}
use wealth_management.AccountBalances.MinorUnits.{
  is_canonical, canonical_minor_units, digits_value, negated, parse_int64, parse_minor_units,
  format_int,
}

digits_value-digits_onto :
    (f n : ℕ) (acc : Text) → n ≤ f → digits_value 0 (digits_onto f n acc) ≡ digits_value n acc
unfolding digits_onto digits_value
digits_value-digits_onto zero n acc h = ap (λ m. digits_value m acc) (omega arith)
digits_value-digits_onto (suc f) n acc h =
    let ih = digits_value-digits_onto f (n / 10) ((b'0' + n % 10) ∷ acc) (omega arith) in
    elim (==-cases n 0) [
      | inl z ↦ rw z refl
      | inr z ↦ rw z (ih ∙ ap (λ m. digits_value m acc) (omega arith))
    ]

digits_onto-is_canonical :
    (f n : ℕ) (acc : Text)
    → 1 ≤ n
    → n ≤ f
    → all is_digit acc ≡ true
    → is_canonical (digits_onto f n acc) ≡ true
unfolding digits_onto is_canonical
digits_onto-is_canonical zero n acc p q h = ground arith
digits_onto-is_canonical (suc f) n acc p q h = elim (==-cases (n / 10) 0) [
  | inl z ↦ rw (z, digits_onto_zero f ((b'0' + n % 10) ∷ acc)) (ground arith)
  | inr z ↦ ground (arith, digits_onto-is_canonical f (n / 10) ((b'0' + n % 10) ∷ acc))
]

decimal-is_canonical : (n : ℕ) → is_canonical (decimal n) ≡ true
unfolding decimal is_canonical text_eq
decimal-is_canonical n = elim (==-cases n 0) [
  | inl z ↦ rw z refl
  | inr z ↦ rw z (digits_onto-is_canonical n n [] (ground arith) (omega arith) refl)
]

digits_value-decimal : (n : ℕ) → digits_value 0 (decimal n) ≡ n
unfolding decimal digits_value
digits_value-decimal n = elim (==-cases n 0) [
  | inl z ↦ rw z refl
  | inr z ↦ rw z (digits_value-digits_onto n n [] (omega arith))
]

-- The digits read so far are those that are printed first.
digits_onto-digits_value :
    (a : ℕ) (s acc : Text)
    → 1 ≤ a
    → all is_digit s ≡ true
    → digits_onto (digits_value a s) (digits_value a s) acc ≡ digits_onto a a (s ++ acc)
unfolding digits_value all
digits_onto-digits_value a [] acc h d = refl
digits_onto-digits_value a (c ∷ s) acc h d =
    let a' = a * 10 + (c - b'0') in
    let ih = digits_onto-digits_value a' s acc (ground arith) (ground arith) in
    let q : a' / 10 ≡ a = ground arith in
    let r : b'0' + a' % 10 ≡ c = ground arith in
    ih
    ∙ digits_onto_step a' (s ++ acc) (ground arith)
    ∙ ap (λ m. digits_onto m m ((b'0' + a' % 10) ∷ (s ++ acc))) q
    ∙ ap (λ d'. digits_onto a a (d' ∷ (s ++ acc))) r

digits_value_pos : (a : ℕ) (s : Text) → 1 ≤ a → 1 ≤ digits_value a s
unfolding digits_value
digits_value_pos a [] h = h
digits_value_pos a (c ∷ s) h = digits_value_pos (a * 10 + (c - b'0')) s (omega arith)

decimal_nonzero :
    (c : ℕ) (s : Text)
    → (leb b'1' c && leb c b'9') ≡ true
    → all is_digit s ≡ true
    → decimal (digits_value 0 (c ∷ s)) ≡ c ∷ s
unfolding decimal digits_value
decimal_nonzero c s h d =
    let a = 0 * 10 + (c - b'0') in
    let v = digits_value a s in
    let n = digits_value_pos a s (ground arith) in
    let e : (v == 0) ≡ false = ground arith in
    let q : a / 10 ≡ 0 = ground arith in
    let r : b'0' + a % 10 ≡ c = ground arith in
    rw e (
      digits_onto-digits_value a s [] (ground arith) d
      ∙ digits_onto_step a (s ++ []) (ground arith)
      ∙ rw (q, r, append-nil s) refl)

decimal-digits_value : (s : Text) → is_canonical s ≡ true → decimal (digits_value 0 s) ≡ s
unfolding is_canonical digits_value decimal
decimal-digits_value [] h = ground arith
decimal-digits_value (c ∷ s) h = elim (Bool-cases (c == b'0' && text_eq s [])) [
  | inl z ↦
      let (p, q) = &&-true (c == b'0') (text_eq s []) z in
      rw ((==_iff c b'0').0 p, (text_eq_iff s []).0 q) refl
  | inr z ↦ decimal_nonzero c s (ground arith) (ground arith)
]

canonical_not_minus : (c : ℕ) (s : Text) → is_canonical (c ∷ s) ≡ true → (c == b'-') ≡ false
unfolding is_canonical
canonical_not_minus c s h = ground arith

parse_positive :
    (s : Text) (n : ℕ)
    → is_canonical s ≡ true
    → digits_value 0 s ≡ n
    → n ≤ 9223372036854775807
    → parse_minor_units s ≡ ok (pos n)
unfolding parse_minor_units canonical_minor_units parse_int64 text_eq is_canonical digits_value
parse_positive [] n h v r = ground arith
parse_positive (c ∷ s) n h v r = ground (arith, canonical_not_minus c s)

zero_value : (s : Text) → text_eq s (b'0' ∷ []) ≡ true → digits_value 0 s ≡ 0
unfolding digits_value
zero_value s h = rw ((text_eq_iff s (b'0' ∷ [])).0 h) refl

parse_negative :
    (s : Text) (n : ℕ)
    → is_canonical s ≡ true
    → digits_value 0 s ≡ suc n
    → n ≤ 9223372036854775807
    → parse_minor_units (b'-' ∷ s) ≡ ok (negsuc n)
unfolding parse_minor_units canonical_minor_units parse_int64 text_eq
parse_negative s n h v r = ground (arith, zero_value s)

accepted_positive :
    (c : ℕ) (s : Text) (value : ℤ)
    → (c == b'-') ≡ false
    → parse_minor_units (c ∷ s) ≡ ok value
    → (is_canonical (c ∷ s) ≡ true) × (value ≡ pos (digits_value 0 (c ∷ s)))
unfolding parse_minor_units canonical_minor_units parse_int64
accepted_positive c s value m e = ground arith

accepted_negative :
    (s : Text) (value : ℤ)
    → parse_minor_units (b'-' ∷ s) ≡ ok value
    → (is_canonical s ≡ true)
      × (text_eq s (b'0' ∷ []) ≡ false)
      × (value ≡ negated (digits_value 0 s))
unfolding parse_minor_units canonical_minor_units parse_int64 text_eq
accepted_negative s value e = ground arith

printed_negative :
    (s : Text) (n : ℕ)
    → is_canonical s ≡ true
    → text_eq s (b'0' ∷ []) ≡ false
    → digits_value 0 s ≡ n
    → b'-' ∷ s ≡ format_int (negated n)
unfolding format_int decimal
printed_negative s zero h z v =
    let s0 = (text_eq_iff s (b'0' ∷ [])).1 (sym (decimal-digits_value s h) ∙ ap decimal v) in
    ground arith
printed_negative s (suc n) h z v =
    ap (λ t. b'-' ∷ t) (sym (decimal-digits_value s h) ∙ ap decimal v)

pub parse_accepts :
    (raw : Text) (value : ℤ) → parse_minor_units raw ≡ ok value → raw ≡ format_int value
unfolding parse_minor_units canonical_minor_units format_int
parse_accepts [] value e = ground arith
parse_accepts (c ∷ s) value e = elim (==-cases c b'-') [
  | inl m ↦
      let (h, z, v) = accepted_negative s value (ap (λ d. parse_minor_units (d ∷ s)) (sym m) ∙ e) in
      ap (λ d. d ∷ s) m ∙ printed_negative s (digits_value 0 s) h z refl ∙ ap format_int (sym v)
  | inr m ↦
      let (h, v) = accepted_positive c s value m e in
      sym (decimal-digits_value (c ∷ s) h) ∙ ap format_int (sym v)
]

format_accepted : (value : ℤ) → IsInt64 value → parse_minor_units (format_int value) ≡ ok value
unfolding format_int
format_accepted (pos n) h =
    parse_positive (decimal n) n (decimal-is_canonical n) (digits_value-decimal n) (ground arith)
format_accepted (negsuc n) h =
    parse_negative (decimal (suc n)) n (decimal-is_canonical (suc n)) (digits_value-decimal (suc n))
      (ground arith)

-- For every text and every `int64`: the text is accepted as an amount with that value exactly when it
-- is what `strconv.FormatInt` prints for the value.
pub parse_minor_units-format_int :
    (raw : Text) (value : ℤ)
    → IsInt64 value
    → (parse_minor_units raw ≡ ok value) ↔ (raw ≡ format_int value)
parse_minor_units-format_int raw value h =
    (parse_accepts raw value, λ e. ap parse_minor_units e ∙ format_accepted value h)
