-- ===== src/BulkParse/Duplicates.antt =====
-- Which candidates are duplicates, and what a fingerprint forgets
-- (backend/internal/bulkparse/decoder.go).
use mathlib.Core.List.{Perm}
use mathlib.Core.List.Perm
use wealth_management.Prelude.{
  ℕ, suc, Option, none, some, List, [], ◌∷◌, ◌++◌, length, length-append, ◌==◌, ==_iff, ◌≡◌, ◌↔◌,
  refl, sym, ap, subst, ◌∙◌, inl, inr, arith, Option-cases, Bool-cases, if◌then◌else◌,
}
use wealth_management.Prelude.Text.{Text, text_eq, text_eq_iff}
use wealth_management.Prelude.Sort.{sort_texts_eq}
use wealth_management.BulkParse.Types.{Candidate, ok, Platform, Result-cases, ok-inj}
use wealth_management.BulkParse.Fingerprint.{
  Deduped, lookup, remember, zip, normalize_text, canonical, fingerprint_v1, dedupe_from, dedupe_v1,
}

-- The fingerprint does not depend on the order of the references.
pub fingerprint_v1-perm :
    (p : Platform) (account : Text) (c : Candidate) (references : List Text)
    → Perm c.references references
    → fingerprint_v1 p account c ≡ fingerprint_v1 p account (record c { references = references })
unfolding fingerprint_v1 canonical
fingerprint_v1-perm p account c references h =
    rw (sort_texts_eq (Perm.map (normalize_text p) h)) refl

-- The index of the first entry with a fingerprint.
unfoldable pub first_with : Text → List Deduped → Option ℕ
first_with key [] = none
first_with key (e ∷ es) = if text_eq e.fingerprint key then some e.index else first_with key es

module _ (p : Platform) where
  -- Each entry has its position, the fingerprint of its candidate, and the index of the first entry
  -- before it with that fingerprint, if there is one.
  unfoldable pub AreEntries : List Deduped → List (Text × Candidate) → List Deduped → Type 0
  AreEntries before [] [] = Unit
  AreEntries before [] (e ∷ es) = ⊥
  AreEntries before (_ ∷ _) [] = ⊥
  AreEntries before ((account, c) ∷ pairs) (e ∷ es) =
      (fingerprint_v1 p account c ≡ ok e.fingerprint)
      × (e.index ≡ length before)
      × (e.duplicate_of ≡ first_with e.fingerprint before)
      × AreEntries (before ++ (e ∷ [])) pairs es

first_with-append :
    (key : Text) (es : List Deduped) (e : Deduped)
    → first_with key (es ++ (e ∷ [])) ≡ (elim (first_with key es) [
      | some i ↦ some i
      | none ↦ if text_eq e.fingerprint key then some e.index else none
    ])
unfolding first_with
first_with-append key [] e = refl
first_with-append key (x ∷ es) e = ground (arith, first_with-append key es e)

-- The map of the loop holds the first index of each fingerprint.
abbrev Remembers : List (Text × ℕ) → List Deduped → Type 0
Remembers first before = (key : Text) → lookup key first ≡ first_with key before

remember-Remembers :
    (first : List (Text × ℕ)) (before : List Deduped) (e : Deduped)
    → Remembers first before
    → Remembers
        (remember e.fingerprint e.index (lookup e.fingerprint first) first)
        (before ++ (e ∷ []))
unfolding remember lookup
remember-Remembers first before e h key = elim (Bool-cases (text_eq e.fingerprint key)) [
  | inl k ↦
      let same : e.fingerprint ≡ key = (text_eq_iff e.fingerprint key).0 k in
      elim (Option-cases (lookup e.fingerprint first)) [
        | inl n ↦ ground (arith, first_with-append key before e, h key, h e.fingerprint)
        | inr (i, n) ↦ ground (arith, first_with-append key before e, h key, h e.fingerprint)
      ]
  | inr k ↦ elim (Option-cases (lookup e.fingerprint first)) [
    | inl n ↦ ground (arith, first_with-append key before e, h key)
    | inr (i, n) ↦ ground (arith, first_with-append key before e, h key)
  ]
]

length-snoc : (es : List Deduped) (e : Deduped) → length (es ++ (e ∷ [])) ≡ suc (length es)
length-snoc es e = omega (arith, length-append es (e ∷ []))

entry_eq :
    (e : Deduped) (index : ℕ) (seen : Option ℕ)
    → e.index ≡ index
    → e.duplicate_of ≡ seen
    → record { index = index; fingerprint = e.fingerprint; duplicate_of = seen } ≡ e
entry_eq e index seen i d =
    ap (λ n. record { index = n; fingerprint = e.fingerprint; duplicate_of = seen }) (sym i)
    ∙ ap (λ o. record { index = e.index; fingerprint = e.fingerprint; duplicate_of = o }) (sym d)

module _ (p : Platform) where
  dedupe_from-cons :
      (index : ℕ) (first : List (Text × ℕ)) (account : Text) (c : Candidate)
      (pairs : List (Text × Candidate)) (fp : Text) (es : List Deduped)
      → fingerprint_v1 p account c ≡ ok fp
      → dedupe_from p (suc index) (remember fp index (lookup fp first) first) pairs ≡ ok es
      → dedupe_from p index first ((account, c) ∷ pairs)
        ≡ ok (record { index = index; fingerprint = fp; duplicate_of = lookup fp first } ∷ es)
  unfolding dedupe_from
  dedupe_from-cons index first account c pairs fp es f h = ground arith

  AreEntries-dedupe_from :
      (first : List (Text × ℕ)) (before : List Deduped) (pairs : List (Text × Candidate))
      (es : List Deduped)
      → Remembers first before
      → dedupe_from p (length before) first pairs ≡ ok es
      → AreEntries p before pairs es
  unfolding dedupe_from AreEntries
  AreEntries-dedupe_from first before [] [] r h = tt
  AreEntries-dedupe_from first before [] (e ∷ es) r h = ground arith
  AreEntries-dedupe_from first before ((account, c) ∷ pairs) es r h =
      elim (Result-cases (fingerprint_v1 p account c)) [
        | inl (_, f) ↦ ground arith
        | inr (fp, f) ↦
            let e : Deduped = record {
              index = length before;
              fingerprint = fp;
              duplicate_of = lookup fp first;
            } in
            let next = remember fp (length before) (lookup fp first) first in
            elim (Result-cases (dedupe_from p (suc (length before)) next pairs)) [
              | inl (_, d) ↦ ground arith
              | inr (rest, d) ↦
                  let d' : dedupe_from p (length (before ++ (e ∷ []))) next pairs ≡ ok rest =
                    ap (λ n. dedupe_from p n next pairs) (length-snoc before e) ∙ d in
                  let all =
                    AreEntries-dedupe_from next (before ++ (e ∷ [])) pairs rest
                      (remember-Remembers first before e r) d' in
                  let same : e ∷ rest ≡ es = ok-inj (ground arith) in
                  subst (AreEntries p before ((account, c) ∷ pairs)) same (f, refl, r fp, all)
            ]
      ]

  dedupe_from-AreEntries :
      (first : List (Text × ℕ)) (before : List Deduped) (pairs : List (Text × Candidate))
      (es : List Deduped)
      → Remembers first before
      → AreEntries p before pairs es
      → dedupe_from p (length before) first pairs ≡ ok es
  unfolding dedupe_from AreEntries
  dedupe_from-AreEntries first before [] [] r h = refl
  dedupe_from-AreEntries first before [] (e ∷ es) r h = absurd h
  dedupe_from-AreEntries first before (x ∷ pairs) [] r h = absurd h
  dedupe_from-AreEntries first before ((account, c) ∷ pairs) (e ∷ es) r (f, i, d, h) =
      let seen = lookup e.fingerprint first in
      let rest : dedupe_from p (length (before ++ (e ∷ [])))
            (remember e.fingerprint e.index seen first) pairs
          ≡ ok es =
        dedupe_from-AreEntries (remember e.fingerprint e.index seen first) (before ++ (e ∷ []))
          pairs es (remember-Remembers first before e r) h in
      let at : dedupe_from p (suc (length before))
            (remember e.fingerprint (length before) seen first) pairs
          ≡ ok es =
        sym (
          ap (λ n. dedupe_from p n (remember e.fingerprint (length before) seen first) pairs)
            (length-snoc before e))
        ∙ sym (
            ap
              (λ n.
                dedupe_from p (length (before ++ (e ∷ []))) (remember e.fingerprint n seen first)
                  pairs)
              i)
        ∙ rest in
      dedupe_from-cons (length before) first account c pairs e.fingerprint es f at
      ∙ ap (λ x. ok (x ∷ es)) (entry_eq e (length before) seen i (d ∙ sym (r e.fingerprint)))

-- `DedupeV1` yields a list of entries exactly if there is one account for each candidate and the entries
-- are, in the order of the candidates: each with its position, the fingerprint of its candidate, and
-- the index of the first candidate before it that has this fingerprint, if there is one.
pub dedupe_v1_iff :
    (p : Platform) (accounts : List Text) (candidates : List Candidate) (entries : List Deduped)
    → (dedupe_v1 p accounts candidates ≡ ok entries)
      ↔ ((length accounts ≡ length candidates) × AreEntries p [] (zip accounts candidates) entries)
unfolding dedupe_v1 lookup first_with
dedupe_v1_iff p accounts candidates entries = (
  λ h. elim (Bool-cases (length accounts == length candidates)) [
    | inl e ↦ (
      (==_iff (length accounts) (length candidates)).0 e,
      AreEntries-dedupe_from p [] [] (zip accounts candidates) entries (λ key. refl) (ground arith),
    )
    | inr e ↦ ground arith
  ],
  λ (e, h).
      let d = dedupe_from-AreEntries p [] [] (zip accounts candidates) entries (λ key. refl) h in
      let same = (==_iff (length accounts) (length candidates)).1 e in rw same d,
)
