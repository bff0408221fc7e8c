-- ===== src/Prelude/Text/Trim.antt =====
-- `strings.TrimSpace`, and the `btrim` of Postgres, which takes off blanks only.
use Prim.Native.Nat.{ℕ, ◌≤◌}
use mathlib.Core.Path.{◌≡◌, refl, sym, ap, ◌∙◌}
use mathlib.Core.Bool.{false}
use mathlib.Core.Logic.{inl, inr}
use mathlib.Core.List.{[], ◌∷◌, ◌++◌, map, reverse, reverse-reverse, reverse-cons, reverse-append}
use native.Mathlib.Omega.{arith}
use wealth_management.Prelude.Lists.{length}
use wealth_management.Prelude.Tests.{◌==◌, if◌then◌else◌, Bool-cases}
use wealth_management.Prelude.Text.{Text, is_space, trim_left, trim_space, byte_len}

blank_left : Text → Text
blank_left [] = []
blank_left (c ∷ s) = if c == 32 then blank_left s else c ∷ s

unfoldable pub btrim : Text → Text
unfolding blank_left
btrim s = reverse (blank_left (reverse (blank_left s)))

-- The text does not start with space.
abbrev Starts : Text → Type 0
Starts [] = Unit
Starts (c ∷ s) = is_space c ≡ false

trim_left-Starts : (s : Text) → Starts (trim_left s)
unfolding trim_left
trim_left-Starts [] = tt
trim_left-Starts (c ∷ s) = elim (Bool-cases (is_space c)) [
  | inl e ↦ rw (e, trim_left) (trim_left-Starts s)
  | inr e ↦ rw (e, trim_left) e
]

Starts-trim_left : (s : Text) → Starts s → trim_left s ≡ s
unfolding trim_left
Starts-trim_left [] h = refl
Starts-trim_left (c ∷ s) h = rw (h, trim_left) refl

blank_left-Starts : (s : Text) → Starts s → blank_left s ≡ s
unfolding blank_left is_space
blank_left-Starts [] h = refl
blank_left-Starts (c ∷ s) h = ground arith

trim_left-snoc :
    (s : Text) (c : ℕ) → is_space c ≡ false → trim_left (s ++ (c ∷ [])) ≡ trim_left s ++ (c ∷ [])
unfolding trim_left
trim_left-snoc [] c h = rw (h, trim_left) refl
trim_left-snoc (d ∷ s) c h = elim (Bool-cases (is_space d)) [
  | inl e ↦ rw (e, trim_left) (trim_left-snoc s c h)
  | inr e ↦ rw (e, trim_left) refl
]

-- Taking space off the end leaves the start.
Starts-end : (s : Text) → Starts s → Starts (reverse (trim_left (reverse s)))
unfolding trim_left
Starts-end [] h = tt
Starts-end (c ∷ s) h =
    rw
      (
        reverse-cons c s,
        trim_left-snoc (reverse s) c h,
        reverse-append (trim_left (reverse s)) (c ∷ []),
      )
      h

trim_space-Starts : (s : Text) → Starts (trim_space s) × Starts (reverse (trim_space s))
unfolding trim_space
trim_space-Starts s = (
  Starts-end (trim_left s) (trim_left-Starts s),
  rw (reverse-reverse (trim_left (reverse (trim_left s))))
      (trim_left-Starts (reverse (trim_left s))),
)

trim_space-Trimmed : (t : Text) → Starts t × Starts (reverse t) → trim_space t ≡ t
unfolding trim_space
trim_space-Trimmed t (h, k) =
    ap (λ u. reverse (trim_left (reverse u))) (Starts-trim_left t h)
    ∙ ap reverse (Starts-trim_left (reverse t) k)
    ∙ reverse-reverse t

btrim-Trimmed : (t : Text) → Starts t × Starts (reverse t) → btrim t ≡ t
unfolding btrim
btrim-Trimmed t (h, k) =
    ap (λ u. reverse (blank_left (reverse u))) (blank_left-Starts t h)
    ∙ ap reverse (blank_left-Starts (reverse t) k)
    ∙ reverse-reverse t

pub trim_space_trimmed : (s : Text) → trim_space (trim_space s) ≡ trim_space s
trim_space_trimmed s = trim_space-Trimmed (trim_space s) (trim_space-Starts s)

pub btrim-trim_space : (s : Text) → btrim (trim_space s) ≡ trim_space s
btrim-trim_space s = btrim-Trimmed (trim_space s) (trim_space-Starts s)

-- A change of letters that makes and removes no space can be made before or after.
module _ (f : ℕ → ℕ) (same : (c : ℕ) → is_space (f c) ≡ is_space c) where
  trim_left-map : (s : Text) → trim_left (map f s) ≡ map f (trim_left s)
  unfolding trim_left
  trim_left-map [] = refl
  trim_left-map (c ∷ s) = elim (Bool-cases (is_space c)) [
    | inl e ↦ rw (same c, e, trim_left) (trim_left-map s)
    | inr e ↦ rw (same c, e, trim_left) refl
  ]

  map-append : (s t : Text) → map f (s ++ t) ≡ map f s ++ map f t
  map-append [] t = refl
  map-append (c ∷ s) t = ap (λ u. f c ∷ u) (map-append s t)

  reverse-map : (s : Text) → reverse (map f s) ≡ map f (reverse s)
  reverse-map [] = refl
  reverse-map (c ∷ s) =
      reverse-cons (f c) (map f s)
      ∙ ap (λ u. u ++ (f c ∷ [])) (reverse-map s)
      ∙ sym (map-append (reverse s) (c ∷ []))
      ∙ ap (map f) (sym (reverse-cons c s))

  pub trim_space-map : (s : Text) → trim_space (map f s) ≡ map f (trim_space s)
  unfolding trim_space
  trim_space-map s =
      ap (λ u. reverse (trim_left (reverse u))) (trim_left-map s)
      ∙ ap (λ u. reverse (trim_left u)) (reverse-map (trim_left s))
      ∙ ap reverse (trim_left-map (reverse (trim_left s)))
      ∙ reverse-map (trim_left (reverse (trim_left s)))

pub length-byte_len : (s : Text) → length s ≤ byte_len s
unfolding byte_len
length-byte_len [] = omega arith
length-byte_len (c ∷ s) = ground (arith, length-byte_len s)

pub byte_len-length : (s : Text) → 1 ≤ byte_len s → 1 ≤ length s
unfolding byte_len
byte_len-length [] h = h
byte_len-length (c ∷ s) h = omega arith
