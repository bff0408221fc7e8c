-- ===== src/Prelude/Text.antt =====
-- Go strings as lists of code points, and the functions of `strings`, `unicode` and `utf8` that the
-- backend calls on them. A string is taken to be valid UTF-8, as decoded JSON and Postgres text are.
pub mod Trim
use Prim.Native.Char.{code}
use Prim.Native.Nat.{ℕ, ◌+◌}
use Prim.Native.String.{String}
use mathlib.Core.Path.{◌≡◌, refl, ap, ◌∙◌}
use mathlib.Core.Bool.{Bool, true, false, not, ◌&&◌, ◌||◌}
use mathlib.Core.Logic.{◌↔◌}
use mathlib.Core.List.{List, [], ◌∷◌, reverse, reverse-reverse, reverse-cons, ◌++◌}
use native.Mathlib.Omega.{arith}
use wealth_management.Prelude.Lists.{all}
use wealth_management.Prelude.Tests.{ltb, leb, ◌==◌, if◌then◌else◌}

abbrev pub Text : Type 0
Text = List ℕ

-- The code points of a literal.
abbrev pub codes : String → Text
codes String.[] = []
codes (String.◌∷◌ c s) = code c ∷ codes s

-- `len(s)`: a string's length is that of its UTF-8 form.
abbrev pub rune_len : ℕ → ℕ
rune_len c = if ltb c 128 then 1 else if ltb c 2048 then 2 else if ltb c 65536 then 3 else 4

unfoldable pub byte_len : Text → ℕ
byte_len [] = 0
byte_len (c ∷ s) = rune_len c + byte_len s

unfoldable pub text_eq : Text → Text → Bool
text_eq [] [] = true
text_eq [] (d ∷ t) = false
text_eq (c ∷ s) [] = false
text_eq (c ∷ s) (d ∷ t) = (c == d) && text_eq s t

pub text_eq_iff : (s t : Text) → (text_eq s t ≡ true) ↔ (s ≡ t)
unfolding text_eq
text_eq_iff [] [] = (λ _. refl, λ _. refl)
text_eq_iff [] (d ∷ t) = (λ h. cc, λ h. cc)
text_eq_iff (c ∷ s) [] = (λ h. cc, λ h. cc)
text_eq_iff (c ∷ s) (d ∷ t) = ground (arith, text_eq_iff s t)

pub text_eq_self : (s : Text) → text_eq s s ≡ true
text_eq_self s = (text_eq_iff s s).1 refl

pub text_eq_comm : (s t : Text) → text_eq s t ≡ text_eq t s
unfolding text_eq
text_eq_comm [] [] = refl
text_eq_comm [] (d ∷ t) = refl
text_eq_comm (c ∷ s) [] = refl
text_eq_comm (c ∷ s) (d ∷ t) = ground (arith, text_eq_comm s t)

-- `a < b` on Go strings. The order of UTF-8 texts is that of their code points.
unfoldable pub text_lt : Text → Text → Bool
text_lt [] [] = false
text_lt [] (d ∷ t) = true
text_lt (c ∷ s) [] = false
text_lt (c ∷ s) (d ∷ t) = ltb c d || (c == d && text_lt s t)

pub text_lt_asymm : (s t : Text) → text_lt s t ≡ true → text_lt t s ≡ false
unfolding text_lt
text_lt_asymm [] [] h = refl
text_lt_asymm [] (d ∷ t) h = refl
text_lt_asymm (c ∷ s) [] h = ground arith
text_lt_asymm (c ∷ s) (d ∷ t) h = ground (arith, text_lt_asymm s t)

pub text_lt_trans : (r s t : Text) → text_lt s r ≡ false → text_lt t s ≡ false → text_lt t r ≡ false
unfolding text_lt
text_lt_trans [] s [] h k = refl
text_lt_trans r (d ∷ s) [] h k = ground arith
text_lt_trans (c ∷ r) [] t h k = ground arith
text_lt_trans [] s (e ∷ t) h k = refl
text_lt_trans (c ∷ r) (d ∷ s) (e ∷ t) h k = ground (arith, text_lt_trans r s t)

pub text_lt_antisymm : (s t : Text) → text_lt s t ≡ false → text_lt t s ≡ false → s ≡ t
unfolding text_lt
text_lt_antisymm [] [] h k = refl
text_lt_antisymm [] (d ∷ t) h k = ground arith
text_lt_antisymm (c ∷ s) [] h k = ground arith
text_lt_antisymm (c ∷ s) (d ∷ t) h k = ground (arith, text_lt_antisymm s t)

-- `unicode.IsSpace`.
unfoldable pub is_space : ℕ → Bool
is_space c =
    (leb 9 c && leb c 13)
    || c == 32
    || c == 0x85
    || c == 0xa0
    || c == 0x1680
    || (leb 0x2000 c && leb c 0x200a)
    || c == 0x2028
    || c == 0x2029
    || c == 0x202f
    || c == 0x205f
    || c == 0x3000

pub trim_left : Text → Text
trim_left [] = []
trim_left (c ∷ s) = if is_space c then trim_left s else c ∷ s

-- `strings.TrimSpace`.
unfoldable pub trim_space : Text → Text
unfolding trim_left is_space
trim_space s = reverse (trim_left (reverse (trim_left s)))

abbrev pub is_empty : Text → Bool
is_empty [] = true
is_empty (_ ∷ _) = false

all-append : (p : ℕ → Bool) (s t : Text) → all p (s ++ t) ≡ (all p s && all p t)
unfolding all
all-append p [] t = refl
all-append p (c ∷ s) t = ground (arith, all-append p s t)

pub all-reverse : (p : ℕ → Bool) (s : Text) → all p s ≡ true → all p (reverse s) ≡ true
unfolding all
all-reverse p [] h = refl
all-reverse p (c ∷ s) h =
    rw (reverse-cons c s, all-append p (reverse s) (c ∷ [])) (ground (arith, all-reverse p s))

abbrev pub is_no_space : ℕ → Bool
is_no_space c = not (is_space c)

trim_left-id : (s : Text) → all is_no_space s ≡ true → trim_left s ≡ s
unfolding trim_left all
trim_left-id [] h = refl
trim_left-id (c ∷ s) h = ground arith

pub trim_space-id : (s : Text) → all is_no_space s ≡ true → trim_space s ≡ s
unfolding trim_space
trim_space-id s h =
    ap (λ t. reverse (trim_left (reverse t))) (trim_left-id s h)
    ∙ ap reverse (trim_left-id (reverse s) (all-reverse is_no_space s h))
    ∙ reverse-reverse s
