-- ===== src/BulkImport/Unique.antt =====
-- What `uniqueUUIDs` keeps (backend/internal/bulkimport/service.go).
use wealth_management.Prelude.{
  Bool, true, false, not, ◌&&◌, ◌||◌, List, [], ◌∷◌, any, All, All-map, All-zip, ◌≡◌, ◌≢◌, refl,
  sym, ap, subst, ◌∙◌, inl, inr, arith, Bool-cases,
}
use wealth_management.Prelude.Text.{Text, text_eq, text_eq_iff}
use wealth_management.Prelude.Sort.{Pairwise}
use wealth_management.BulkImport.Requests.{is_nil, contains, unique_from, unique_uuids}

pub contains-rest :
    (n k : Text) (seen : List Text) → contains k (n ∷ seen) ≡ false → contains k seen ≡ false
unfolding contains any
contains-rest n k seen h = ground arith

pub not-first : (n k : Text) (seen : List Text) → contains k (n ∷ seen) ≡ false → n ≢ k
unfolding contains any
not-first n k seen h e = ground (arith, (text_eq_iff k n).1 (sym e))

pub contains-other :
    (n k : Text) (seen : List Text)
    → contains k seen ≡ false
    → n ≢ k
    → contains k (n ∷ seen) ≡ false
unfolding contains any
contains-other n k seen h d = elim (Bool-cases (text_eq k n)) [
  | inl e ↦ absurd (d (sym ((text_eq_iff k n).0 e)))
  | inr e ↦ ground arith
]

-- The identifiers are given, new, and distinct.
abbrev pub AreNew : List Text → List Text → Type 0
AreNew seen ids =
    All (λ id. is_nil id ≡ false) ids
    × All (λ id. contains id seen ≡ false) ids
    × Pairwise (λ a b. a ≢ b) ids

unique_from-drop :
    (seen ids : List Text) (id : Text)
    → (is_nil id || contains id seen) ≡ true
    → unique_from seen (id ∷ ids) ≡ unique_from seen ids
unfolding unique_from
unique_from-drop seen ids id h = ground arith

unique_from-keep :
    (seen ids : List Text) (id : Text)
    → (is_nil id || contains id seen) ≡ false
    → unique_from seen (id ∷ ids) ≡ id ∷ unique_from (id ∷ seen) ids
unfolding unique_from
unique_from-keep seen ids id h = ground arith

AreNew-unique_from : (seen ids : List Text) → AreNew seen (unique_from seen ids)
unfolding unique_from
AreNew-unique_from seen [] = (tt, tt, tt)
AreNew-unique_from seen (id ∷ ids) = elim (Bool-cases (is_nil id || contains id seen)) [
  | inl e ↦ rw (unique_from-drop seen ids id e) (AreNew-unique_from seen ids)
  | inr e ↦
      let (g, f, d) = AreNew-unique_from (id ∷ seen) ids in
      let us = unique_from (id ∷ seen) ids in
      rw (unique_from-keep seen ids id e) (
        (ground arith, g),
        (ground arith, All-map us (λ k. contains-rest id k seen) f),
        (All-map us (λ k. not-first id k seen) f, d),
      )
]

unique_from-AreNew : (seen ids : List Text) → AreNew seen ids → unique_from seen ids ≡ ids
unfolding unique_from
unique_from-AreNew seen [] h = refl
unique_from-AreNew seen (id ∷ ids) ((g, gs), (f, fs), (d, ds)) =
    unique_from-keep seen ids id (ground arith)
    ∙ (ap (λ l. id ∷ l)
        (unique_from-AreNew (id ∷ seen) ids
          (gs, All-zip ids (λ k. contains-other id k seen) fs d, ds)))

dropped :
    (same rest nil seen : Bool)
    → (same ≡ true → (nil || seen) ≡ true)
    → (rest && not nil && not seen) ≡ ((same || rest) && not nil && not seen)
dropped same rest nil seen h = ground (arith, h)

kept :
    (same rest nil seen : Bool)
    → (same ≡ true → (nil || seen) ≡ false)
    → (same || (rest && not nil && not (same || seen))) ≡ ((same || rest) && not nil && not seen)
kept same rest nil seen h = ground (arith, h)

contains-unique_from :
    (id : Text) (seen ids : List Text)
    → contains id (unique_from seen ids)
      ≡ (contains id ids && not (is_nil id) && not (contains id seen))
unfolding contains any unique_from
contains-unique_from id seen [] = refl
contains-unique_from id seen (k ∷ ids) = elim (Bool-cases (is_nil k || contains k seen)) [
  | inl e ↦ rw (unique_from-drop seen ids k e) (
      contains-unique_from id seen ids
      ∙ dropped (text_eq id k) (contains id ids) (is_nil id) (contains id seen)
          (λ h. subst (λ x. (is_nil x || contains x seen) ≡ true) (sym ((text_eq_iff id k).0 h)) e))
  | inr e ↦ rw (unique_from-keep seen ids k e) (
      ap (λ b. text_eq id k || b) (contains-unique_from id (k ∷ seen) ids)
      ∙ kept (text_eq id k) (contains id ids) (is_nil id) (contains id seen) (λ h.
        subst (λ x. (is_nil x || contains x seen) ≡ false) (sym ((text_eq_iff id k).0 h)) e))
]

-- The identifiers that are kept are given and distinct; one is kept exactly if it is among the given
-- ones and is not the nil UUID; and keeping them a second time changes nothing.
pub unique_uuids_lem :
    (ids : List Text)
    → All (λ id. is_nil id ≡ false) (unique_uuids ids)
      × Pairwise (λ a b. a ≢ b) (unique_uuids ids)
      × ((id : Text) → contains id (unique_uuids ids) ≡ (contains id ids && not (is_nil id)))
      × (unique_uuids (unique_uuids ids) ≡ unique_uuids ids)
unfolding unique_uuids contains any
unique_uuids_lem ids =
    let new = AreNew-unique_from [] ids in
    let (g, f, d) = new in
    (
      g,
      d,
      λ id. ground (arith, contains-unique_from id [] ids),
      unique_from-AreNew [] (unique_from [] ids) new,
    )
