-- ===== src/Reconciliation/Citations.antt =====
-- What a valid response cites, and what is discarded of it
-- (backend/internal/reconciliation/reconciliation.go).
use wealth_management.Prelude.{
  Bool, true, false, not, ◌&&◌, ◌||◌, Option, none, some, List, [], ◌∷◌, ◌++◌, ◌≢◌, ◌↔◌, is_some,
  any, all, All, if◌then◌else◌, ◌≡◌, refl, ◌⊎◌, inl, inr, arith, sym, Bool-cases, Option-cases,
  List-cases,
}
use wealth_management.Prelude.Text.{Text, text_eq, text_eq_iff, codes, trim_space, is_empty}
use wealth_management.Reconciliation.Types.{
  valid_confidence, AccountEvidence, Candidate, FieldEvidence, ParsedResponse, Platform, Patterns,
}
use wealth_management.Reconciliation.Validation.{is_blank, validate_candidate}
use wealth_management.Reconciliation.Response.{
  decisive_evidence_field, is_valid_citation, valid_evidence_source_path, citation_error,
  citations_error, required_fields, missing_fields, validate_parsed_response, is_category,
  non_category, category, field_if, is_cons, has_account_evidence,
  discard_invalid_optional_category_citation,
}

module _ (r : Patterns) (allow : Bool) where
  -- A citation of a known field, with a valid path and confidence.
  abbrev pub IsCitation : FieldEvidence → Type 0
  IsCitation e =
      (decisive_evidence_field e.field ≡ true)
      × (valid_evidence_source_path r e.source_path allow ≡ true)
      × (valid_confidence e.confidence ≡ true)

  citation_error-none : (e : FieldEvidence) → citation_error r allow e ≡ none → IsCitation e
  unfolding citation_error
  citation_error-none e h = ground arith

  citations_error-none :
      (es : List FieldEvidence) → citations_error r allow es ≡ none → All IsCitation es
  unfolding citations_error
  citations_error-none [] h = tt
  citations_error-none (e ∷ es) h = elim (Option-cases (citation_error r allow e)) [
    | inl n ↦ (citation_error-none e n, citations_error-none es (ground arith))
    | inr (_, n) ↦ ground arith
  ]

missing_fields-nil :
    (es : List FieldEvidence) (fields : List Text)
    → missing_fields es fields ≡ []
    → All (λ f. any (λ e. text_eq e.field f) es ≡ true) fields
unfolding missing_fields
missing_fields-nil es [] h = tt
missing_fields-nil es (f ∷ fs) h = elim (Bool-cases (any (λ e. text_eq e.field f) es)) [
  | inl c ↦ (c, missing_fields-nil es fs (ground arith))
  | inr c ↦ ground arith
]

-- Some citation names the field.
abbrev pub IsCited : List FieldEvidence → Text → Type 0
IsCited es field = any (λ e. text_eq e.field field) es ≡ true

-- Five fields are cited, and each other field that has a value.
pub record AreCited (c : Candidate) (es : List FieldEvidence) : Type 0 where
  pub kind : IsCited es (codes "transaction_kind")
  pub title : IsCited es (codes "title")
  pub amount : IsCited es (codes "original_amount_minor")
  pub currency : IsCited es (codes "original_currency")
  pub occurred : IsCited es (codes "occurred_at")
  pub merchant : (trim_space c.merchant_name ≡ []) ⊎ IsCited es (codes "merchant_name")
  pub sgd_amount : (c.sgd_amount_minor ≡ none) ⊎ IsCited es (codes "sgd_amount_minor")
  pub references : (c.references ≡ []) ⊎ IsCited es (codes "references")
  pub account :
      ((trim_space c.account_evidence.card_last_four ≡ [])
        × (trim_space c.account_evidence.masked_bank_reference ≡ [])
        × (c.account_evidence.additional_identifiers ≡ []))
      ⊎ IsCited es (codes "account_evidence")
  pub line_items : (c.line_items ≡ []) ⊎ IsCited es (codes "line_items")
  pub category_name :
      (trim_space c.category_leaf_name ≡ []) ⊎ IsCited es (codes "category_leaf_name")

-- The first field of a list that may have it is cited if it has.
field_if-All :
    (P : Text → Type 0) (test : Bool) (field : Text) (rest : List Text)
    → All P (field_if test field ++ rest)
    → ((test ≡ false) ⊎ P field) × All P rest
field_if-All P true field rest (h, hs) = (inr h, hs)
field_if-All P false field rest h = (inl refl, h)

last_field :
    (P : Text → Type 0) (test : Bool) (field : Text)
    → All P (field_if test field)
    → (test ≡ false) ⊎ P field
last_field P true field (h, _) = inr h
last_field P false field h = inl refl

is_empty-nil : (s : Text) → is_empty s ≡ true → s ≡ []
is_empty-nil [] h = refl
is_empty-nil (c ∷ s) h = ground arith

not_blank-nil : (s : Text) → not (is_blank s) ≡ false → trim_space s ≡ []
not_blank-nil s h = is_empty-nil (trim_space s) (ground arith)

is_some-none : {A : Type 0} (value : Option A) → is_some value ≡ false → value ≡ none
is_some-none none h = refl
is_some-none (some _) h = ground arith

is_cons-nil : {A : Type 0} (values : List A) → is_cons values ≡ false → values ≡ []
is_cons-nil [] h = refl
is_cons-nil (_ ∷ _) h = ground arith

has_account_evidence-none :
    (a : AccountEvidence)
    → has_account_evidence a ≡ false
    → (trim_space a.card_last_four ≡ [])
      × (trim_space a.masked_bank_reference ≡ [])
      × (a.additional_identifiers ≡ [])
unfolding has_account_evidence
has_account_evidence-none a h = (
  not_blank-nil a.card_last_four (ground arith),
  not_blank-nil a.masked_bank_reference (ground arith),
  is_cons-nil a.additional_identifiers (ground arith),
)

unless_empty : {A B C : Type 0} → (A → B) → A ⊎ C → B ⊎ C
unless_empty f (inl a) = inl (f a)
unless_empty f (inr c) = inr c

required_fields-AreCited :
    (c : Candidate) (es : List FieldEvidence) → All (IsCited es) (required_fields c) → AreCited c es
unfolding required_fields
required_fields-AreCited c es (k, (t, (a, (u, (o, h))))) =
    let P = IsCited es in
    let (m, h1) = field_if-All P _ _ _ h in
    let (s, h2) = field_if-All P _ _ _ h1 in
    let (r, h3) = field_if-All P _ _ _ h2 in
    let (v, h4) = field_if-All P _ _ _ h3 in
    let (l, h5) = field_if-All P _ _ _ h4 in
    record {
      kind = k;
      title = t;
      amount = a;
      currency = u;
      occurred = o;
      merchant = unless_empty (not_blank-nil c.merchant_name) m;
      sgd_amount = unless_empty (is_some-none c.sgd_amount_minor) s;
      references = unless_empty (is_cons-nil c.references) r;
      account = unless_empty (has_account_evidence-none c.account_evidence) v;
      line_items = unless_empty (is_cons-nil c.line_items) l;
      category_name = unless_empty (not_blank-nil c.category_leaf_name) (last_field P _ _ h5);
    }

-- A response that is accepted: the candidate is valid once the server has bound its user; every
-- citation is of a known field, with a valid path and a confidence between 0 and 1; the kind, the title,
-- the amount, the currency and the time are cited; and so is each of the merchant's name, the amount in
-- SGD, the references, the evidence of the account, the line items and the category that has a value.
pub validate_parsed_response_sound :
    (p : Platform) (r : Patterns) (response : ParsedResponse) (allow : Bool)
    → validate_parsed_response p r response allow ≡ none
    → (validate_candidate p (record (response.candidate) { user_id = codes "bound-by-server" })
        ≡ none)
      × All (IsCitation r allow) response.evidence
      × AreCited response.candidate response.evidence
unfolding validate_parsed_response
validate_parsed_response_sound p r response allow h =
    elim (Option-cases
      (validate_candidate p (record (response.candidate) { user_id = codes "bound-by-server" }))) [
        | inr (_, v) ↦ ground arith
        | inl v ↦ elim (Option-cases (citations_error r allow response.evidence)) [
          | inr (_, c) ↦ ground arith
          | inl c ↦
              elim (List-cases
                (missing_fields response.evidence (required_fields response.candidate))) [
                  | inr (_, _, m) ↦ ground arith
                  | inl m ↦ (
                    v,
                    citations_error-none r allow response.evidence c,
                    required_fields-AreCited response.candidate response.evidence (
                        missing_fields-nil response.evidence (required_fields response.candidate)
                          m),
                  )
                ]
        ]
      ]

non_category_same :
    (r : Patterns) (es : List FieldEvidence) → any (is_category r) es ≡ false → non_category es ≡ es
unfolding any
non_category_same r [] h = refl
non_category_same r (e ∷ es) h = ground (arith, non_category_same r es)

filtered :
    (r : Patterns) (es : List FieldEvidence)
    → (if any (is_category r) es then non_category es else es) ≡ non_category es
filtered r es = elim (Bool-cases (any (is_category r) es)) [
  | inl c ↦ rw c refl
  | inr c ↦ rw c (sym (non_category_same r es c))
]

and_parts : (a b c : Bool) → (a && b && c) ≡ true → (a ≡ true) × (b ≡ true) × (c ≡ true)
and_parts a b c h = ground arith

-- The second list has the citations of the first that are not of the category, in their order.
pub data IsWithoutCategory : List FieldEvidence → List FieldEvidence → Type 0 where
  nothing : IsWithoutCategory [] []
  dropped :
      {e : FieldEvidence} {es out : List FieldEvidence}
      → e.field ≡ codes "category_leaf_name"
      → IsWithoutCategory es out
      → IsWithoutCategory (e ∷ es) out
  kept :
      {e : FieldEvidence} {es out : List FieldEvidence}
      → e.field ≢ codes "category_leaf_name"
      → IsWithoutCategory es out
      → IsWithoutCategory (e ∷ es) (e ∷ out)

non_category-IsWithoutCategory : (es : List FieldEvidence) → IsWithoutCategory es (non_category es)
non_category-IsWithoutCategory [] = nothing
non_category-IsWithoutCategory (e ∷ es) = elim (Bool-cases (text_eq e.field category)) [
  | inl t ↦
      rw (t, non_category)
        (dropped ((text_eq_iff e.field category).0 t) (non_category-IsWithoutCategory es))
  | inr t ↦
      rw (t, non_category)
        (kept (λ q. ground (arith, (text_eq_iff e.field category).1 q))
          (non_category-IsWithoutCategory es))
]

module _ (r : Patterns) where
  -- A citation of another field, or one with a valid path of the model and a valid confidence.
  abbrev pub IsSoundCategory : FieldEvidence → Type 0
  IsSoundCategory e =
      (e.field ≢ codes "category_leaf_name")
      ⊎ ((valid_evidence_source_path r e.source_path false ≡ true)
          × (valid_confidence e.confidence ≡ true))

  -- The response has a category that is cited, by valid citations only.
  abbrev pub HasCitedCategory : ParsedResponse → Type 0
  HasCitedCategory response =
      (is_blank response.candidate.category_leaf_name ≡ false)
      × IsCited response.evidence (codes "category_leaf_name")
      × All IsSoundCategory response.evidence

  all-IsSoundCategory :
      (es : List FieldEvidence)
      → (all (λ e. not (is_category r e) || is_valid_citation r false e) es ≡ true)
        ↔ All IsSoundCategory es
  unfolding all
  all-IsSoundCategory [] = (λ h. tt, λ h. refl)
  all-IsSoundCategory (e ∷ es) = (
    λ h. (
      elim (Bool-cases (is_category r e)) [
        | inl t ↦ inr (ground arith, ground arith)
        | inr t ↦ inl (λ q. ground (arith, (text_eq_iff e.field category).1 q))
      ],
      (all-IsSoundCategory es).0 (ground arith),
    ),
    λ (h, hs). elim h [
      | inl n ↦ elim (Bool-cases (is_category r e)) [
        | inl t ↦ absurd (n ((text_eq_iff e.field category).0 t))
        | inr t ↦ ground (arith, (all-IsSoundCategory es).1 hs)
      ]
      | inr (v, c) ↦ ground (arith, (all-IsSoundCategory es).1 hs)
    ],
  )

-- A response whose category is there and cited, by valid citations only, is kept as it is, and nothing is
-- reported. Every other response loses its category and the citations of it, keeps all other fields and
-- citations in their order, and is reported as changed exactly if it had a category or a citation of one.
pub discard_invalid_optional_category_citation_sound :
    (r : Patterns) (response : ParsedResponse)
    → let result = discard_invalid_optional_category_citation r response in
      (HasCitedCategory r response × (result ≡ (response, false)))
      ⊎ (¬ HasCitedCategory r response
          × (result.0.candidate ≡ record (response.candidate) { category_leaf_name = [] })
          × IsWithoutCategory response.evidence result.0.evidence
          × (result.1 ≡ (
              not (is_blank response.candidate.category_leaf_name)
              || any (is_category r) response.evidence)))
unfolding discard_invalid_optional_category_citation
discard_invalid_optional_category_citation_sound r response =
    let es = response.evidence in
    let present = not (is_blank response.candidate.category_leaf_name) in
    let valid = all (λ e. not (is_category r e) || is_valid_citation r false e) es in
    elim (Bool-cases (present && any (is_category r) es && valid)) [
      | inl t ↦
          let (p, c, v) = and_parts present (any (is_category r) es) valid t in
          rw t (inl ((ground arith, c, (all-IsSoundCategory r es).0 v), refl))
      | inr t ↦
          rw (t, filtered r es)
            (inr (
              λ (p, c, v). ground (arith, (all-IsSoundCategory r es).1 v),
              refl,
              non_category-IsWithoutCategory es,
              refl,
            ))
    ]
