-- ===== src/Reconciliation/Confidence.antt =====
-- The confidence that is drawn from citations (backend/internal/reconciliation/reconciliation.go).
use wealth_management.Prelude.{
  Bool, true, false, ◌&&◌, Option, none, some, List, [], ◌∷◌, All, if◌then◌else◌, ◌≡◌, refl, ◌⊎◌,
  inl, inr, arith, ap, sym, ◌∙◌, Bool-cases,
}
use wealth_management.Prelude.Int.{pos}
use wealth_management.Reconciliation.Types.{
  Float64, nan, infinity, neg_infinity, finite, valid_confidence, FieldEvidence, Patterns,
}
use wealth_management.Reconciliation.Response.{
  decisive_evidence_field, less, is_valid_citation, minimum_confidence, aggregate_confidence,
}

module _ (r : Patterns) where
  abbrev pub counts : FieldEvidence → Bool
  counts e = decisive_evidence_field e.field && is_valid_citation r true e

  -- `m` is a valid confidence, and not above one that counts.
  abbrev pub IsLowerBound : Float64 → List FieldEvidence → Type 0
  IsLowerBound m es = All (λ e. (counts e ≡ false) ⊎ (less e.confidence m ≡ false)) es

  less_trans :
      (a b c : Float64)
      → valid_confidence a ≡ true
      → valid_confidence b ≡ true
      → valid_confidence c ≡ true
      → less a b ≡ false
      → less b c ≡ false
      → less a c ≡ false
  unfolding valid_confidence
  less_trans (finite a) (finite b) (finite c) x y z h k = ground arith
  less_trans a b c x y z h k = ground arith

  less_irrefl : (m : Float64) → less m m ≡ false
  less_irrefl nan = refl
  less_irrefl infinity = refl
  less_irrefl neg_infinity = refl
  less_irrefl (finite a) = ground arith

  less_asymm :
      (a b : Float64)
      → valid_confidence a ≡ true
      → valid_confidence b ≡ true
      → less a b ≡ true
      → less b a ≡ false
  unfolding valid_confidence
  less_asymm (finite a) (finite b) x y h = ground arith
  less_asymm a b x y h = ground arith

  -- A citation that counts has the confidence `m`.
  abbrev pub Attained : Float64 → List FieldEvidence → Type 0
  Attained m [] = ⊥
  Attained m (e ∷ es) = ((counts e ≡ true) × (e.confidence ≡ m)) ⊎ Attained m es

  counts_valid : (e : FieldEvidence) → counts e ≡ true → valid_confidence e.confidence ≡ true
  counts_valid e h = ground arith

  -- What the loop makes of the minimum `m` found so far.
  record IsLeast (m : Float64) (es : List FieldEvidence) : Type 0 where
    result : Float64
    returned : minimum_confidence r (some m) es ≡ some result
    valid : valid_confidence result ≡ true
    below : less m result ≡ false
    bound : IsLowerBound result es
    attained : (result ≡ m) ⊎ Attained result es

  minimum_skip :
      (found : Option Float64) (e : FieldEvidence) (es : List FieldEvidence)
      → counts e ≡ false
      → minimum_confidence r found (e ∷ es) ≡ minimum_confidence r found es
  unfolding minimum_confidence
  minimum_skip found e es h = ap (λ m. minimum_confidence r m es) (ground arith)

  minimum_first :
      (e : FieldEvidence) (es : List FieldEvidence)
      → counts e ≡ true
      → minimum_confidence r none (e ∷ es) ≡ minimum_confidence r (some e.confidence) es
  unfolding minimum_confidence
  minimum_first e es h = ap (λ m. minimum_confidence r m es) (ground arith)

  minimum_next :
      (m : Float64) (e : FieldEvidence) (es : List FieldEvidence)
      → counts e ≡ true
      → minimum_confidence r (some m) (e ∷ es)
        ≡ minimum_confidence r (some (if less e.confidence m then e.confidence else m)) es
  unfolding minimum_confidence
  minimum_next m e es h = ap (λ x. minimum_confidence r x es) (ground arith)

  minimum_confidence-IsLeast :
      (m : Float64) (es : List FieldEvidence) → valid_confidence m ≡ true → IsLeast m es
  unfolding minimum_confidence
  minimum_confidence-IsLeast m [] v = record {
    result = m;
    returned = refl;
    valid = v;
    below = less_irrefl m;
    bound = tt;
    attained = inl refl;
  }
  minimum_confidence-IsLeast m (e ∷ es) v = elim (Bool-cases (counts e)) [
    | inr c ↦
        let ih = minimum_confidence-IsLeast m es v in
        record {
          result = ih.result;
          returned = minimum_skip (some m) e es c ∙ ih.returned;
          valid = ih.valid;
          below = ih.below;
          bound = (inl c, ih.bound);
          attained = elim ih.attained [ inl q ↦ inl q | inr a ↦ inr (inr a) ];
        }
    | inl c ↦ elim (Bool-cases (less e.confidence m)) [
      | inl l ↦
          let w = counts_valid e c in
          let ih = minimum_confidence-IsLeast e.confidence es w in
          record {
            result = ih.result;
            returned =
                minimum_next m e es c
                ∙ ap (λ b. minimum_confidence r (some (if b then e.confidence else m)) es) l
                ∙ ih.returned;
            valid = ih.valid;
            below =
                less_trans m e.confidence ih.result v w ih.valid (less_asymm e.confidence m w v l)
                  ih.below;
            bound = (inr ih.below, ih.bound);
            attained = elim ih.attained [ inl q ↦ inr (inl (c, sym q)) | inr a ↦ inr (inr a) ];
          }
      | inr l ↦
          let w = counts_valid e c in
          let ih = minimum_confidence-IsLeast m es v in
          record {
            result = ih.result;
            returned =
                minimum_next m e es c
                ∙ ap (λ b. minimum_confidence r (some (if b then e.confidence else m)) es) l
                ∙ ih.returned;
            valid = ih.valid;
            below = ih.below;
            bound = (inr (less_trans e.confidence m ih.result w v ih.valid l ih.below), ih.bound);
            attained = elim ih.attained [ inl q ↦ inl q | inr a ↦ inr (inr a) ];
          }
    ]
  ]

  -- What the aggregate confidence is of a list of citations.
  pub record IsAggregate (m : Float64) (es : List FieldEvidence) : Type 0 where
    pub valid : valid_confidence m ≡ true
    pub bound : IsLowerBound m es
    pub attained : Attained m es ⊎ ((m ≡ finite (pos 0)) × All (λ e. counts e ≡ false) es)

  minimum_none :
      (es : List FieldEvidence)
      → ((m : Float64) × (minimum_confidence r none es ≡ some m) × IsAggregate m es)
        ⊎ ((minimum_confidence r none es ≡ none) × All (λ e. counts e ≡ false) es)
  unfolding minimum_confidence
  minimum_none [] = inr (refl, tt)
  minimum_none (e ∷ es) = elim (Bool-cases (counts e)) [
    | inr c ↦ elim (minimum_none es) [
      | inr (n, a) ↦ inr (minimum_skip none e es c ∙ n, (c, a))
      | inl (m, q, a) ↦ inl (
        m,
        minimum_skip none e es c ∙ q,
        record {
          valid = a.valid;
          bound = (inl c, a.bound);
          attained = elim a.attained [ inl x ↦ inl (inr x) | inr (z, x) ↦ inr (z, (c, x)) ];
        },
      )
    ]
    | inl c ↦
        let w = counts_valid e c in
        let k = minimum_confidence-IsLeast e.confidence es w in
        inl (
          k.result,
          minimum_first e es c ∙ k.returned,
          record {
            valid = k.valid;
            bound = (inr k.below, k.bound);
            attained = elim k.attained [ inl q ↦ inl (inl (c, sym q)) | inr a ↦ inl (inr a) ];
          },
        )
  ]

  zero_bound :
      (es : List FieldEvidence) (m : Float64) → All (λ e. counts e ≡ false) es → IsLowerBound m es
  zero_bound [] m h = tt
  zero_bound (e ∷ es) m (h, hs) = (inl h, zero_bound es m hs)

-- The aggregate confidence is a number between 0 and 1; no citation that counts (of a known field, with
-- a valid path and confidence) has a lower one; and it is the confidence of a citation that counts, or 0
-- if there is none.
pub aggregate_confidence-IsAggregate :
    (r : Patterns) (es : List FieldEvidence) → IsAggregate r (aggregate_confidence r es) es
unfolding aggregate_confidence valid_confidence
aggregate_confidence-IsAggregate r es = elim (minimum_none r es) [
  | inl (m, q, a) ↦ rw (q, aggregate_confidence) a
  | inr (n, a) ↦
      rw (n, aggregate_confidence)
        (record {
          valid = ground arith;
          bound = zero_bound r es (finite (pos 0)) a;
          attained = inr (refl, a);
        })
]
