-- ===== src/Prelude/Sort.antt =====
-- `sort.SliceStable` by insertion, over a test of order, and what it keeps.
use mathlib.Core.Path.{◌≡◌, refl, sym, ap, ◌∙◌}
use mathlib.Core.Bool.{Bool, true, false}
use mathlib.Core.Logic.{inl, inr}
use mathlib.Core.List.{List, [], ◌∷◌, Perm, Permᴰ, is_set}
use mathlib.Core.List.Perm
use mathlib.Core.Logic.{∥∥₁_elim}
use wealth_management.Prelude.Tests.{if◌then◌else◌, Bool-cases}
use wealth_management.Prelude.Lists.{All}
use wealth_management.Prelude.Text.{Text, text_lt, text_lt_asymm, text_lt_trans, text_lt_antisymm}

module _ {ℓ} {A : Type ℓ} (lt : A → A → Bool) where
  unfoldable pub insert_by : A → List A → List A
  insert_by x [] = x ∷ []
  insert_by x (y ∷ ys) = if lt y x then y ∷ insert_by x ys else x ∷ y ∷ ys

  unfoldable pub sort_by : List A → List A
  unfolding insert_by
  sort_by [] = []
  sort_by (x ∷ xs) = insert_by x (sort_by xs)

  pub insert_by-Perm : (x : A) (ys : List A) → Perm (insert_by x ys) (x ∷ ys)
  unfolding insert_by
  insert_by-Perm x [] = Perm.rfl
  insert_by-Perm x (y ∷ ys) = elim (Bool-cases (lt y x)) [
    | inl e ↦ rw e (Perm.trans (Perm.cons y (insert_by-Perm x ys)) (Perm.swap x y ys))
    | inr e ↦ rw e Perm.rfl
  ]

  pub sort_by-Perm : (xs : List A) → Perm (sort_by xs) xs
  unfolding sort_by
  sort_by-Perm [] = Perm.nil
  sort_by-Perm (x ∷ xs) = Perm.trans (insert_by-Perm x (sort_by xs)) (Perm.cons x (sort_by-Perm xs))

  module _ {κ} (P : A → Type κ) where
    pub insert_by-All : (x : A) (ys : List A) → P x → All P ys → All P (insert_by x ys)
    unfolding insert_by
    insert_by-All x [] h hs = (h, hs)
    insert_by-All x (y ∷ ys) h (g, gs) = elim (Bool-cases (lt y x)) [
      | inl e ↦ rw e (g, insert_by-All x ys h gs)
      | inr e ↦ rw e (h, (g, gs))
    ]

    pub All-insert_by : (x : A) (ys : List A) → All P (insert_by x ys) → P x × All P ys
    unfolding insert_by
    All-insert_by x [] h = h
    All-insert_by x (y ∷ ys) h = elim (Bool-cases (lt y x)) [
      | inl e ↦
          let (g, gs) : P y × All P (insert_by x ys) = rw e at h in
          let (p, ps) = All-insert_by x ys gs in (p, (g, ps))
      | inr e ↦ rw e at h
    ]

    pub All-sort_by : (xs : List A) → All P (sort_by xs) → All P xs
    unfolding sort_by
    All-sort_by [] h = h
    All-sort_by (x ∷ xs) h = let (p, ps) = All-insert_by x (sort_by xs) h in (p, All-sort_by xs ps)

-- Each element is related to all that follow it.
abbrev pub Pairwise {ℓ κ} : {A : Type ℓ} → (A → A → Type κ) → List A → Type κ
Pairwise R [] = Unit
Pairwise R (x ∷ xs) = All (R x) xs × Pairwise R xs

module _ {ℓ κ} {A : Type ℓ} (lt : A → A → Bool) (R : A → A → Type κ)
    (before : (x y : A) → lt x y ≡ true → R x y) (after : (x y : A) → lt y x ≡ false → R x y)
    (trans : (x y z : A) → R x y → R y z → R x z) where
  All-trans : (x y : A) (zs : List A) → R x y → All (R y) zs → All (R x) zs
  All-trans x y [] h hs = hs
  All-trans x y (z ∷ zs) h (g, gs) = (trans x y z h g, All-trans x y zs h gs)

  insert_by-Pairwise : (x : A) (ys : List A) → Pairwise R ys → Pairwise R (insert_by lt x ys)
  unfolding insert_by
  insert_by-Pairwise x [] h = (tt, tt)
  insert_by-Pairwise x (y ∷ ys) (h, hs) = elim (Bool-cases (lt y x)) [
    | inl e ↦ rw e (insert_by-All lt (R y) x ys (before y x e) h, insert_by-Pairwise x ys hs)
    | inr e ↦ let r = after x y e in rw e ((r, All-trans x y ys r h), (h, hs))
  ]

  pub sort_by-Pairwise : (xs : List A) → Pairwise R (sort_by lt xs)
  unfolding sort_by
  sort_by-Pairwise [] = tt
  sort_by-Pairwise (x ∷ xs) = insert_by-Pairwise x (sort_by lt xs) (sort_by-Pairwise xs)

-- Sorting by a strict total order forgets the order of the list.
module _ {ℓ} {A : Type ℓ} (lt : A → A → Bool) (asymm : (x y : A) → lt x y ≡ true → lt y x ≡ false)
    (trans : (x y z : A) → lt y x ≡ false → lt z y ≡ false → lt z x ≡ false)
    (antisymm : (x y : A) → lt x y ≡ false → lt y x ≡ false → x ≡ y) where
  insert_first :
      (x y : A) (zs : List A)
      → (if lt y x then y ∷ x ∷ zs else x ∷ y ∷ zs) ≡ (if lt x y then x ∷ y ∷ zs else y ∷ x ∷ zs)
  insert_first x y zs = elim (Bool-cases (lt y x)) [
    | inl e ↦ rw (e, asymm y x e) refl
    | inr e ↦ elim (Bool-cases (lt x y)) [
      | inl f ↦ rw (e, f) refl
      | inr f ↦ rw (e, f, antisymm x y f e) refl
    ]
  ]

  insert_by_nil : (x : A) → insert_by lt x [] ≡ x ∷ []
  unfolding insert_by
  insert_by_nil x = refl

  insert_by_two :
      (x y : A) (zs : List A)
      → insert_by lt x (y ∷ zs) ≡ (if lt y x then y ∷ insert_by lt x zs else x ∷ y ∷ zs)
  unfolding insert_by
  insert_by_two x y zs = refl

  -- Two elements that both go in front of a list.
  insert_pair :
      (x y : A) (zs : List A)
      → insert_by lt x zs ≡ x ∷ zs
      → insert_by lt y zs ≡ y ∷ zs
      → insert_by lt x (insert_by lt y zs) ≡ insert_by lt y (insert_by lt x zs)
  insert_pair x y zs p q =
      ap (insert_by lt x) q
      ∙ insert_by_two x y zs
      ∙ ap (λ l. if lt y x then y ∷ l else x ∷ y ∷ zs) p
      ∙ insert_first x y zs
      ∙ ap (λ l. if lt x y then x ∷ l else y ∷ x ∷ zs) (sym q)
      ∙ sym (insert_by_two y x zs)
      ∙ ap (insert_by lt y) (sym p)

  between : (x y z : A) → lt z y ≡ true → lt z x ≡ false → lt x y ≡ true
  between x y z h k = elim (Bool-cases (lt x y)) [
    | inl e ↦ e
    | inr e ↦ let g = trans y x z e k in cc
  ]

  insert_by_after :
      (x y : A) (ys : List A) → lt y x ≡ true → insert_by lt x (y ∷ ys) ≡ y ∷ insert_by lt x ys
  unfolding insert_by
  insert_by_after x y ys h = rw h refl

  insert_by_before : (x y : A) (ys : List A) → lt y x ≡ false → insert_by lt x (y ∷ ys) ≡ x ∷ y ∷ ys
  unfolding insert_by
  insert_by_before x y ys h = rw h refl

  insert_by_comm :
      (x y : A) (zs : List A)
      → insert_by lt x (insert_by lt y zs) ≡ insert_by lt y (insert_by lt x zs)
  insert_by_comm x y [] = insert_pair x y [] (insert_by_nil x) (insert_by_nil y)
  insert_by_comm x y (z ∷ zs) = elim (Bool-cases (lt z x)) [
    | inl e ↦ elim (Bool-cases (lt z y)) [
      | inl f ↦
          rw
            (
              insert_by_after x z zs e,
              insert_by_after y z zs f,
              insert_by_after x z (insert_by lt y zs) e,
              insert_by_after y z (insert_by lt x zs) f,
            )
            (ap (λ l. z ∷ l) (insert_by_comm x y zs))
      | inr f ↦
          rw
            (
              insert_by_after x z zs e,
              insert_by_before y z zs f,
              insert_by_after x y (z ∷ zs) (between y x z e f),
              insert_by_after x z zs e,
              insert_by_before y z (insert_by lt x zs) f,
            )
            refl
    ]
    | inr e ↦ elim (Bool-cases (lt z y)) [
      | inl f ↦
          rw
            (
              insert_by_before x z zs e,
              insert_by_after y z zs f,
              insert_by_after y x (z ∷ zs) (between x y z f e),
              insert_by_after y z zs f,
              insert_by_before x z (insert_by lt y zs) e,
            )
            refl
      | inr f ↦ insert_pair x y (z ∷ zs) (insert_by_before x z zs e) (insert_by_before y z zs f)
    ]
  ]

  sort_by_eqᴰ : {xs ys : List A} → Permᴰ xs ys → sort_by lt xs ≡ sort_by lt ys
  unfolding sort_by
  sort_by_eqᴰ Permᴰ.nil = refl
  sort_by_eqᴰ (Permᴰ.cons {b} e d) = rw e (ap (insert_by lt b) (sort_by_eqᴰ d))
  sort_by_eqᴰ (Permᴰ.swap {a'} {b'} {l} e f) = rw (e, f) (insert_by_comm b' a' (sort_by lt l))
  sort_by_eqᴰ (Permᴰ.trans d e) = sort_by_eqᴰ d ∙ sort_by_eqᴰ e

  -- Two lists with the same elements, each as often, are sorted to the same list.
  pub sort_by_eq : IsSet A → {xs ys : List A} → Perm xs ys → sort_by lt xs ≡ sort_by lt ys
  sort_by_eq s p = ∥∥₁_elim p (is_set s _ _) sort_by_eqᴰ

pub sort_texts_eq : {xs ys : List Text} → Perm xs ys → sort_by text_lt xs ≡ sort_by text_lt ys
sort_texts_eq = sort_by_eq text_lt text_lt_asymm text_lt_trans text_lt_antisymm hlevel
