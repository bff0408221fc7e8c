-- ===== src/BulkImport/Accepted.antt =====
-- What the checks of a layout, a template and a resolution accept
-- (backend/internal/bulkimport/service.go).
use wealth_management.Prelude.{
  Bool, true, false, ◌||◌, none, some, List, [], ◌∷◌, ◌++◌, map, length, any, All, All-map, ◌≤◌,
  ◌≡◌, ◌≢◌, refl, sym, ap, subst, ◌∙◌, inl, inr, arith, Bool-cases, Option-cases, if◌then◌else◌,
}
use wealth_management.Prelude.Text.{Text, text_eq, trim_space}
use wealth_management.Prelude.Sort.{Pairwise}
use wealth_management.BulkImport.Types.{DocumentLayout, TemplateInput}
use wealth_management.BulkImport.Requests.{
  is_nil, is_bill, is_valid, contains, take_files, take_documents, validate_layout, unique_uuids,
  validate_template_input, version_missing,
}
use wealth_management.BulkImport.Unique.{AreNew, contains-rest, not-first, unique_uuids_lem}

some-inj : {A : Type 0} (a b : A) → some a ≡ some b → a ≡ b
some-inj a b h = cc

if_some :
    {A : Type 0} (test : Bool) (a b : A)
    → (if test then none else some a) ≡ some b
    → (test ≡ false) × (a ≡ b)
if_some true a b h = ground arith
if_some false a b h = (refl, cc)

All-append : {A : Type 0} (P : A → Type 0) (xs ys : List A) → All P xs → All P ys → All P (xs ++ ys)
All-append P [] ys h g = g
All-append P (x ∷ xs) ys (h, hs) g = (h, All-append P xs ys hs g)

Pairwise-append :
    (xs ys : List Text)
    → Pairwise (λ a b. a ≢ b) xs
    → Pairwise (λ a b. a ≢ b) ys
    → All (λ y. contains y xs ≡ false) ys
    → Pairwise (λ a b. a ≢ b) (xs ++ ys)
Pairwise-append [] ys d e f = e
Pairwise-append (x ∷ xs) ys (d, ds) e f = (
  All-append (λ b. x ≢ b) xs ys d (All-map ys (λ y. not-first x y xs) f),
  Pairwise-append xs ys ds e (All-map ys (λ y. contains-rest x y xs) f),
)

seen_after :
    (same ids seen : Bool) (out : Bool)
    → out ≡ (ids || (same || seen))
    → out ≡ ((same || ids) || seen)
seen_after same ids seen out h = ground (arith, h)

record AreTaken (seen ids out : List Text) : Type 0 where
  new : AreNew seen ids
  collected : (k : Text) → contains k out ≡ (contains k ids || contains k seen)

take_files-AreTaken :
    (seen ids out : List Text) → take_files seen ids ≡ some out → AreTaken seen ids out
unfolding take_files contains any
take_files-AreTaken seen [] out h = record { new = (tt, tt, tt); collected = λ k. ground arith }
take_files-AreTaken seen (id ∷ ids) out h = elim (Bool-cases (is_nil id || contains id seen)) [
  | inl e ↦ ground arith
  | inr e ↦
      let t = take_files-AreTaken (id ∷ seen) ids out (ground arith) in
      let (g, f, d) = t.new in
      record {
        new = (
          (ground arith, g),
          (ground arith, All-map ids (λ k. contains-rest id k seen) f),
          (All-map ids (λ k. not-first id k seen) f, d),
        );
        collected = λ k.
            seen_after (text_eq k id) (contains k ids) (contains k seen) (contains k out)
              (t.collected k);
      }
]

-- The files of all documents, in their order.
unfoldable pub files_of : List DocumentLayout → List Text
files_of [] = []
files_of (d ∷ ds) = d.file_ids ++ files_of ds

abbrev pub IsDocument : DocumentLayout → Type 0
IsDocument d = (is_nil d.document_id ≡ false) × (1 ≤ length d.file_ids) × (length d.file_ids ≤ 50)

abbrev pub trimmed : DocumentLayout → DocumentLayout
trimmed d = record d { label = trim_space d.label }

record AreDocuments (seen : List Text) (ds out : List DocumentLayout) : Type 0 where
  documents : All IsDocument ds
  new : AreNew seen (files_of ds)
  result : out ≡ map trimmed ds

AreNew-append :
    (seen seen' xs ys : List Text)
    → ((k : Text) → contains k seen' ≡ (contains k xs || contains k seen))
    → AreNew seen xs
    → AreNew seen' ys
    → AreNew seen (xs ++ ys)
AreNew-append seen seen' xs ys c (g, f, d) (g', f', d') = (
  All-append (λ id. is_nil id ≡ false) xs ys g g',
  All-append (λ id. contains id seen ≡ false) xs ys f
      (All-map ys (λ k e. right_false (contains k xs) (contains k seen) (sym (c k) ∙ e)) f'),
  Pairwise-append xs ys d d'
      (All-map ys (λ k e. left_false (contains k xs) (contains k seen) (sym (c k) ∙ e)) f'),
)
  where
    left_false : (a b : Bool) → (a || b) ≡ false → a ≡ false
    left_false a b h = ground arith

    right_false : (a b : Bool) → (a || b) ≡ false → b ≡ false
    right_false a b h = ground arith

take_documents-AreDocuments :
    (seen : List Text) (ds out : List DocumentLayout)
    → take_documents seen ds ≡ some out
    → AreDocuments seen ds out
unfolding take_documents files_of
take_documents-AreDocuments seen [] out h = record {
  documents = tt;
  new = (tt, tt, tt);
  result = ground arith;
}
take_documents-AreDocuments seen (d ∷ ds) out h = elim (Option-cases (take_files seen d.file_ids)) [
  | inl e ↦ ground arith
  | inr (seen', e) ↦ elim (Option-cases (take_documents seen' ds)) [
    | inl f ↦ ground arith
    | inr (rest, f) ↦
        let t = take_files-AreTaken seen d.file_ids seen' e in
        let r = take_documents-AreDocuments seen' ds rest f in
        record {
          documents = ((ground arith, ground arith, ground arith), r.documents);
          new = AreNew-append seen seen' d.file_ids (files_of ds) t.collected t.new r.new;
          result =
              sym (some-inj (trimmed d ∷ rest) out (ground arith))
              ∙ ap (λ l. trimmed d ∷ l) r.result;
        }
  ]
]

-- A layout that is accepted has 1 to 20 documents, each with an identifier and 1 to 50 files; no file
-- occurs twice, in one document or in two; and what is stored is the layout with its labels trimmed.
pub validate_layout_sound :
    (layout out : List DocumentLayout)
    → validate_layout layout ≡ some out
    → (1 ≤ length layout)
      × (length layout ≤ 20)
      × All IsDocument layout
      × All (λ id. is_nil id ≡ false) (files_of layout)
      × Pairwise (λ a b. a ≢ b) (files_of layout)
      × (out ≡ map trimmed layout)
unfolding validate_layout
validate_layout_sound layout out h =
    let a = take_documents-AreDocuments [] layout out (ground arith) in
    let (g, f, d) = a.new in (ground arith, ground arith, a.documents, g, d, a.result)

-- A template with a title of 1 to 100 characters, a prompt of 1 to 8000, and a known type; with a
-- version if it is an update; and with given and distinct accounts, one at least, and just one for a
-- credit card bill.
pub record IsTemplate (update : Bool) (t : TemplateInput) : Type 0 where
  pub title_given : 1 ≤ length t.title
  pub title_bounded : length t.title ≤ 100
  pub prompt_given : 1 ≤ length t.parsing_prompt
  pub prompt_bounded : length t.parsing_prompt ≤ 8000
  pub known : is_valid t.document_type ≡ true
  pub version : update ≡ true → version_missing t.expected_version ≡ false
  pub accounts : All (λ id. is_nil id ≡ false) t.account_ids
  pub distinct : Pairwise (λ a b. a ≢ b) t.account_ids
  pub given : 1 ≤ length t.account_ids
  pub bill : is_bill t.document_type ≡ true → length t.account_ids ≡ 1

-- A template that is stored, by a creation or an update, satisfies these rules: its title and prompt are
-- trimmed, and its accounts are the given ones, each once.
pub validate_template_input_sound :
    (input clean : TemplateInput) (update : Bool)
    → validate_template_input input update ≡ some clean
    → IsTemplate update clean
      × (clean.title ≡ trim_space input.title)
      × (clean.parsing_prompt ≡ trim_space input.parsing_prompt)
      × (clean.account_ids ≡ unique_uuids input.account_ids)
unfolding validate_template_input
validate_template_input_sound input clean update h =
    let (b, e) = if_some _ _ _ h in
    let (g, d, _, _) = unique_uuids_lem input.account_ids in
    (
      subst (IsTemplate update) e (record {
        title_given = ground arith;
        title_bounded = ground arith;
        prompt_given = ground arith;
        prompt_bounded = ground arith;
        known = ground arith;
        version = λ u. ground arith;
        accounts = g;
        distinct = d;
        given = ground arith;
        bill = λ u. ground arith;
      }),
      ap (λ t. t.title) (sym e),
      ap (λ t. t.parsing_prompt) (sym e),
      ap (λ t. t.account_ids) (sym e),
    )
