-- ===== src/Prelude/Decimal.antt =====
-- Decimal numerals of natural numbers, as `fmt.Sprint` and `strconv.FormatInt` print them.
use Prim.Native.Nat.{ℕ, zero, suc, ◌+◌, ◌*◌, ◌/◌, ◌%◌, ◌≤◌}
use mathlib.Core.Path.{◌≡◌, refl, ap, sym, ◌∙◌}
use mathlib.Core.Bool.{Bool, true, false, ◌&&◌}
use mathlib.Core.Logic.{◌≢◌, inl, inr}
use mathlib.Core.List.{[], ◌∷◌, ◌++◌, append_assoc}
use native.Mathlib.Omega.{arith}
use wealth_management.Prelude.Lists.{all}
use wealth_management.Prelude.Tests.{leb, ◌==◌, if◌then◌else◌, Bool-cases}
use wealth_management.Prelude.Text.{Text}

-- The digits of `n` in front of `acc`; `n` rounds are more than it has digits.
unfoldable pub digits_onto : ℕ → ℕ → Text → Text
digits_onto zero n acc = acc
digits_onto (suc fuel) n acc =
    let rest = digits_onto fuel (n / 10) ((b'0' + n % 10) ∷ acc) in if n == 0 then acc else rest

unfoldable pub decimal : ℕ → Text
unfolding digits_onto
decimal n = if n == 0 then b'0' ∷ [] else digits_onto n n []

abbrev pub is_digit : ℕ → Bool
is_digit c = leb b'0' c && leb c b'9'

digits_onto_fuel :
    (f g n : ℕ) (acc : Text) → n ≤ f → n ≤ g → digits_onto f n acc ≡ digits_onto g n acc
unfolding digits_onto
digits_onto_fuel zero zero n acc p q = refl
digits_onto_fuel zero (suc g) n acc p q = ground arith
digits_onto_fuel (suc f) zero n acc p q = ground arith
digits_onto_fuel (suc f) (suc g) n acc p q =
    ground (arith, digits_onto_fuel f g (n / 10) ((b'0' + n % 10) ∷ acc))

-- One digit of a number that is not 0.
pub digits_onto_step :
    (n : ℕ) (acc : Text)
    → 1 ≤ n
    → digits_onto n n acc ≡ digits_onto (n / 10) (n / 10) ((b'0' + n % 10) ∷ acc)
unfolding digits_onto
digits_onto_step zero acc h = ground arith
digits_onto_step (suc m) acc h =
    ground (arith, digits_onto_fuel m (suc m / 10) (suc m / 10) ((b'0' + suc m % 10) ∷ acc))

pub digits_onto_zero : (f : ℕ) (acc : Text) → digits_onto f 0 acc ≡ acc
unfolding digits_onto
digits_onto_zero zero acc = refl
digits_onto_zero (suc f) acc = refl

digits_onto-append : (f n : ℕ) (acc : Text) → digits_onto f n acc ≡ digits_onto f n [] ++ acc
unfolding digits_onto
digits_onto-append zero n acc = refl
digits_onto-append (suc f) n acc = elim (Bool-cases (n == 0)) [
  | inl z ↦ rw z refl
  | inr z ↦ rw z (
      digits_onto-append f (n / 10) ((b'0' + n % 10) ∷ acc)
      ∙ sym (append_assoc (digits_onto f (n / 10) []) ((b'0' + n % 10) ∷ []) acc)
      ∙ ap (λ s. s ++ acc) (sym (digits_onto-append f (n / 10) ((b'0' + n % 10) ∷ []))))
]

-- Ten times a number ends in a zero.
pub decimal_ten : (k : ℕ) → 1 ≤ k → decimal (10 * k) ≡ decimal k ++ (b'0' ∷ [])
unfolding decimal
decimal_ten k h =
    let e : (10 * k == 0) ≡ false = ground arith in
    let f : (k == 0) ≡ false = ground arith in
    let q : 10 * k / 10 ≡ k = omega arith in
    let r : b'0' + 10 * k % 10 ≡ b'0' = omega arith in
    rw (e, f)
      (digits_onto_step (10 * k) [] (omega arith)
        ∙ ap (λ m. digits_onto m m ((b'0' + 10 * k % 10) ∷ [])) q
        ∙ ap (λ d. digits_onto k k (d ∷ [])) r
        ∙ digits_onto-append k k (b'0' ∷ []))

digits_onto-all :
    (f n : ℕ) (acc : Text) → all is_digit acc ≡ true → all is_digit (digits_onto f n acc) ≡ true
unfolding digits_onto all
digits_onto-all zero n acc h = h
digits_onto-all (suc f) n acc h = ground (arith, digits_onto-all f (n / 10) ((b'0' + n % 10) ∷ acc))

pub decimal-all : (n : ℕ) → all is_digit (decimal n) ≡ true
unfolding decimal all
decimal-all n = ground (arith, digits_onto-all n n [])

digits_onto_nonempty : (f n c : ℕ) (acc : Text) → digits_onto f n (c ∷ acc) ≢ []
unfolding digits_onto
digits_onto_nonempty zero n c acc = λ h. ground arith
digits_onto_nonempty (suc f) n c acc =
    λ h. ground (arith, digits_onto_nonempty f (n / 10) (b'0' + n % 10) (c ∷ acc))

pub decimal_nonempty : (n : ℕ) → decimal n ≢ []
unfolding decimal
decimal_nonempty n = λ h.
    ground (arith, digits_onto_step n [], digits_onto_nonempty (n / 10) (n / 10) (b'0' + n % 10) [])
