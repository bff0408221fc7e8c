-- ===== src/BulkParse/Evidence.antt =====
-- What `validateEvidence` accepts (backend/internal/bulkparse/decoder.go).
use wealth_management.Prelude.{
  Bool, true, false, ◌||◌, Option, none, some, List, [], ◌∷◌, ◌++◌, any, All, All-map, All-zip,
  length, ◌≤◌, ◌≡◌, ◌≢◌, ◌↔◌, refl, sym, ◌∙◌, ap, inl, inr, arith, Bool-cases, Option-cases,
}
use wealth_management.Prelude.Text.{Text, text_eq, text_eq_iff, text_eq_self, text_eq_comm}
use wealth_management.Prelude.Sort.{Pairwise}
use wealth_management.BulkParse.Types.{Evidence, Platform, out_of_unit}
use wealth_management.BulkParse.Fields.{
  contains, after_prefix, valid_evidence_source, cited_fields, uncited, missing_problem,
  validate_evidence,
}

after_prefix-append : (prefix s : Text) → after_prefix prefix (prefix ++ s) ≡ some s
unfolding after_prefix
after_prefix-append [] s = refl
after_prefix-append (c ∷ prefix) s = ground (arith, after_prefix-append prefix s)

append-after_prefix :
    (prefix s rest : Text) → after_prefix prefix s ≡ some rest → s ≡ prefix ++ rest
unfolding after_prefix
append-after_prefix [] s rest h = cc
append-after_prefix (c ∷ prefix) [] rest h = ground arith
append-after_prefix (c ∷ prefix) (d ∷ s) rest h = ground (arith, append-after_prefix prefix s rest)

text_eq-append : (prefix s t : Text) → text_eq (prefix ++ s) (prefix ++ t) ≡ text_eq s t
unfolding text_eq
text_eq-append [] s t = refl
text_eq-append (c ∷ prefix) s t = ground (arith, text_eq-append prefix s t)

append_cancel : (prefix s t : Text) → prefix ++ s ≡ prefix ++ t → s ≡ t
append_cancel prefix s t h =
    (text_eq_iff s t).0
      (sym (text_eq-append prefix s t) ∙ (text_eq_iff (prefix ++ s) (prefix ++ t)).1 h)

-- An entry is of the field, after the prefix.
abbrev pub names : Text → Evidence → Text → Bool
names prefix e field = text_eq e.field (prefix ++ field)

collect :
    (out f t : Bool) (seen rest named : Bool)
    → out ≡ ((f || seen) || rest)
    → named ≡ t
    → f ≡ t
    → out ≡ (seen || (named || rest))
collect out f t seen rest named h k e = ground arith

module _ (p : Platform) (manifest : Option (List Text)) (allowed : List Text) (prefix : Text) where
  -- An entry that names an allowed field after the prefix, with a valid source and confidence.
  abbrev pub IsCitation : Evidence → Type 0
  IsCitation e =
      (any (names prefix e) allowed ≡ true)
      × (valid_evidence_source p manifest e.source_path ≡ true)
      × (out_of_unit e.confidence ≡ false)

  names_lem :
      (e : Evidence) (field f : Text)
      → e.field ≡ prefix ++ field
      → names prefix e f ≡ text_eq field f
  names_lem e field f h = ap (λ t. text_eq t (prefix ++ f)) h ∙ text_eq-append prefix field f

  any-names :
      (e : Evidence) (field : Text) (fields : List Text)
      → e.field ≡ prefix ++ field
      → any (names prefix e) fields ≡ contains field fields
  unfolding contains any
  any-names e field [] h = refl
  any-names e field (f ∷ fs) h = ground (arith, names_lem e field f h, any-names e field fs h)

  -- What one turn of the loop takes.
  record IsTurn (seen : List Text) (e : Evidence) (es : List Evidence) (out : List Text)
      : Type 0 where
    field : Text
    named : e.field ≡ prefix ++ field
    known : contains field allowed ≡ true
    source : valid_evidence_source p manifest e.source_path ≡ true
    fresh : contains field seen ≡ false
    unit : out_of_unit e.confidence ≡ false
    rest : cited_fields p manifest allowed prefix (field ∷ seen) es ≡ some out

  IsTurn-cited_fields :
      (seen : List Text) (e : Evidence) (es : List Evidence) (out : List Text)
      → cited_fields p manifest allowed prefix seen (e ∷ es) ≡ some out
      → IsTurn seen e es out
  unfolding cited_fields
  IsTurn-cited_fields seen e es out h = elim (Option-cases (after_prefix prefix e.field)) [
    | inl n ↦ ground arith
    | inr (field, n) ↦ record {
      field = field;
      named = append-after_prefix prefix e.field field n;
      known = ground arith;
      source = ground arith;
      fresh = ground arith;
      unit = ground arith;
      rest = ground arith;
    }
  ]

  cited_fields-cons :
      (seen : List Text) (e : Evidence) (es : List Evidence) (field : Text)
      → e.field ≡ prefix ++ field
      → contains field allowed ≡ true
      → valid_evidence_source p manifest e.source_path ≡ true
      → contains field seen ≡ false
      → out_of_unit e.confidence ≡ false
      → cited_fields p manifest allowed prefix seen (e ∷ es)
        ≡ cited_fields p manifest allowed prefix (field ∷ seen) es
  unfolding cited_fields
  cited_fields-cons seen e es field n a s f u =
      let m : after_prefix prefix e.field ≡ some field =
        ap (after_prefix prefix) n ∙ after_prefix-append prefix field in
      ground (arith, m)

  -- No entry names a field that was seen before.
  abbrev IsFresh : List Text → Evidence → Type 0
  IsFresh seen e = (field : Text) → e.field ≡ prefix ++ field → contains field seen ≡ false

  IsFresh-rest :
      (field : Text) (seen : List Text) (e : Evidence) → IsFresh (field ∷ seen) e → IsFresh seen e
  unfolding contains any
  IsFresh-rest field seen e h g eq = ground (arith, h g eq)

  not-same :
      (a e : Evidence) (field : Text) (seen : List Text)
      → a.field ≡ prefix ++ field
      → IsFresh (field ∷ seen) e
      → a.field ≢ e.field
  unfolding contains any
  not-same a e field seen n h eq = ground (arith, h field (sym eq ∙ n), text_eq_self field)

  -- What the loop has taken when it ends.
  record IsLoop (seen : List Text) (es : List Evidence) (out : List Text) : Type 0 where
    citations : All IsCitation es
    fresh : All (IsFresh seen) es
    distinct : Pairwise (λ a b. a.field ≢ b.field) es
    collected :
        (field : Text)
        → contains field out ≡ (contains field seen || any (λ e. names prefix e field) es)

  IsLoop-cited_fields :
      (seen : List Text) (es : List Evidence) (out : List Text)
      → cited_fields p manifest allowed prefix seen es ≡ some out
      → IsLoop seen es out
  unfolding any cited_fields contains
  IsLoop-cited_fields seen [] out h = record {
    citations = tt;
    fresh = tt;
    distinct = tt;
    collected = λ f. ground arith;
  }
  IsLoop-cited_fields seen (e ∷ es) out h =
      let t = IsTurn-cited_fields seen e es out h in
      let l = IsLoop-cited_fields (t.field ∷ seen) es out t.rest in
      record {
        citations =
            ((any-names e t.field allowed t.named ∙ t.known, t.source, t.unit), l.citations);
        fresh = (
          λ f n. rw (append_cancel prefix f t.field (sym n ∙ t.named)) t.fresh,
          All-map es (IsFresh-rest t.field seen) l.fresh,
        );
        distinct = (All-map es (λ b. not-same e b t.field seen t.named) l.fresh, l.distinct);
        collected = λ f.
            collect (contains f out) (text_eq f t.field) (text_eq t.field f) (contains f seen)
              (any (λ e. names prefix e f) es) (names prefix e f) (l.collected f)
              (names_lem e t.field f t.named) (text_eq_comm f t.field);
      }

  -- The allowed field that an entry names.
  record IsNamed (e : Evidence) (fields : List Text) : Type 0 where
    field : Text
    named : e.field ≡ prefix ++ field
    known : contains field fields ≡ true

  IsNamed-any :
      (e : Evidence) (fields : List Text) → any (names prefix e) fields ≡ true → IsNamed e fields
  unfolding any contains
  IsNamed-any e [] h = ground arith
  IsNamed-any e (f ∷ fs) h = elim (Bool-cases (names prefix e f)) [
    | inl n ↦ record {
      field = f;
      named = (text_eq_iff e.field (prefix ++ f)).0 n;
      known = ground (arith, text_eq_self f);
    }
    | inr n ↦
        let r = IsNamed-any e fs (ground arith) in
        record { field = r.field; named = r.named; known = ground (arith, r.known) }
  ]

  IsFresh-cons :
      (a e : Evidence) (field : Text) (seen : List Text)
      → a.field ≡ prefix ++ field
      → IsFresh seen e
      → a.field ≢ e.field
      → IsFresh (field ∷ seen) e
  unfolding contains any
  IsFresh-cons a e field seen n h d g eq = elim (Bool-cases (text_eq g field)) [
    | inl k ↦ absurd (d (n ∙ ap (λ t. prefix ++ t) (sym ((text_eq_iff g field).0 k)) ∙ sym eq))
    | inr k ↦ ground (arith, h g eq)
  ]

  cited_fields-some :
      (seen : List Text) (es : List Evidence)
      → All IsCitation es
      → All (IsFresh seen) es
      → Pairwise (λ a b. a.field ≢ b.field) es
      → (out : List Text) × (cited_fields p manifest allowed prefix seen es ≡ some out)
  unfolding cited_fields
  cited_fields-some seen [] c f d = (seen, refl)
  cited_fields-some seen (e ∷ es) ((a, s, u), cs) (f, fs) (d, ds) =
      let n = IsNamed-any e allowed a in
      let (out, o) =
        cited_fields-some (n.field ∷ seen) es cs
          (All-zip es (λ b. IsFresh-cons e b n.field seen n.named) fs d) ds in
      (out, cited_fields-cons seen e es n.field n.named n.known s (f n.field n.named) u ∙ o)

uncited-nil :
    (seen required : List Text)
    → (uncited seen required ≡ []) ↔ All (λ f. contains f seen ≡ true) required
unfolding uncited
uncited-nil seen [] = (λ h. tt, λ h. refl)
uncited-nil seen (f ∷ fs) = ground (arith, uncited-nil seen fs)

missing_problem-none : (fields : List Text) → (missing_problem fields ≡ none) ↔ (fields ≡ [])
unfolding missing_problem
missing_problem-none [] = (λ h. refl, λ h. refl)
missing_problem-none (f ∷ fs) = ground arith

module _ (p : Platform) (evidence : List Evidence) (required allowed : List Text) (prefix : Text)
    (manifest : Option (List Text)) where
  -- At most 64 entries, each a citation, no two of one field, and one for each required field.
  abbrev pub IsEvidence : Type 0
  IsEvidence =
      (length evidence ≤ 64)
      × All (IsCitation p manifest allowed prefix) evidence
      × Pairwise (λ a b. a.field ≢ b.field) evidence
      × All (λ field. any (λ e. names prefix e field) evidence ≡ true) required

  -- The citations of a summary or a transaction are accepted exactly if there are at most 64; each names
  -- an allowed field after the prefix, with a source of the manifest (or, without a manifest, of the
  -- form of a page's path) and a confidence between 0 and 1; no field is cited twice; and each required
  -- field is cited.
  pub validate_evidence_iff :
      (validate_evidence p evidence required allowed prefix manifest ≡ none) ↔ IsEvidence
  unfolding validate_evidence contains any
  validate_evidence_iff = (
    λ h. elim (Option-cases (cited_fields p manifest allowed prefix [] evidence)) [
      | inl n ↦ ground arith
      | inr (out, n) ↦
          let l = IsLoop-cited_fields p manifest allowed prefix [] evidence out n in
          let m : missing_problem (uncited out required) ≡ none = ground arith in
          (
            ground arith,
            l.citations,
            l.distinct,
            All-map required (λ f q. sym (l.collected f) ∙ q)
                ((uncited-nil out required).0 ((missing_problem-none (uncited out required)).0 m)),
          )
    ],
    λ (len, c, d, r).
        let (out, o) =
          cited_fields-some p manifest allowed prefix [] evidence c
            (All-map evidence (λ e _ f n. refl) c) d in
        let l = IsLoop-cited_fields p manifest allowed prefix [] evidence out o in
        let q = (uncited-nil out required).1 (All-map required (λ f q. l.collected f ∙ q) r) in
        ground (arith, (missing_problem-none (uncited out required)).1 q, o),
  )
