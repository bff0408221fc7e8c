-- ===== src/BulkParse/Decoded.antt =====
-- What a response that is decoded satisfies (backend/internal/bulkparse/decoder.go).
use wealth_management.Prelude.{
  ℕ, suc, Bool, true, false, Option, none, some, List, [], ◌∷◌, All, All-map, any, length, ◌≤◌, ◌≡◌,
  ◌≢◌, ap, subst, map, refl, sym, ◌∙◌, inl, inr, arith, Option-cases, ltb,
}
use wealth_management.Prelude.Int.{ℤ, pos, eqb_ℤ_iff}
use wealth_management.Prelude.Text.{Text, text_eq_iff}
use wealth_management.Prelude.Sort.{Pairwise}
use wealth_management.BulkParse.Types.{
  DocumentType, generic_document, credit_card_bill, other_document, BillSummary, TransactionResult,
  Response, DecodeContext, ok, Platform, Result-cases, ok-inj,
}
use wealth_management.BulkParse.Fields.{evidence_path_pattern, account_ref_pattern, contains}
use wealth_management.BulkParse.Candidates.{is_bill, validate_transaction}
use wealth_management.BulkParse.Decode.{
  names_problem, validate_page_manifest, is_known, bad_count, results_of, has_line, server_bound,
  bind_candidate, bind_candidates, bind_sole_account, summary_problem, transactions_problem,
  response_problem, decode, decode_with_context,
}
use wealth_management.BulkParse.Problems.{first_problem-none, refuse_if-none}
use wealth_management.BulkParse.Accepted.{
  IsTransaction, IsSummary, validate_transaction-none, validate_bill_summary-none,
}

contains-rest :
    (n k : Text) (seen : List Text) → contains k (n ∷ seen) ≡ false → contains k seen ≡ false
unfolding contains any
contains-rest n k seen h = ground arith

not-first : (n k : Text) (seen : List Text) → contains k (n ∷ seen) ≡ false → n ≢ k
unfolding contains any
not-first n k seen h e = ground (arith, (text_eq_iff k n).1 (sym e))

module _ (p : Platform) (pattern bad duplicate : Text) where
  names_problem-none :
      (seen names : List Text)
      → names_problem p pattern bad duplicate seen names ≡ none
      → All (λ n. p.matches pattern n ≡ true) names
        × All (λ n. contains n seen ≡ false) names
        × Pairwise (λ a b. a ≢ b) names
  unfolding names_problem
  names_problem-none seen [] h = (tt, tt, tt)
  names_problem-none seen (n ∷ ns) h =
      let (m, f, d) = names_problem-none (n ∷ seen) ns (ground arith) in
      (
        (ground arith, m),
        (ground arith, All-map ns (λ k. contains-rest n k seen) f),
        (All-map ns (λ k. not-first n k seen) f, d),
      )

length-map : {A B : Type 0} (f : A → B) (xs : List A) → length (map f xs) ≡ length xs
length-map f [] = refl
length-map f (x ∷ xs) = ap suc (length-map f xs)

bind_candidates-count :
    (ref : Text) (ts : Option (List TransactionResult))
    → bad_count (bind_candidates ref ts) ≡ bad_count ts
bind_candidates-count ref none = refl
bind_candidates-count ref (some ts) = ap (ltb 100) (length-map (bind_candidate ref) ts)

module _ (p : Platform) (input : DecodeContext) (manifest : Option (List Text)) where
  abbrev bound : Bool
  bound = server_bound p input manifest

  transactions_problem-none :
      (index : ℕ) (seen : List ℤ) (ts : List TransactionResult)
      → transactions_problem p input manifest index seen ts ≡ none
      → All
          (λ t.
            validate_transaction p t input.document_type input.allowed_account_refs bound manifest
            ≡ none)
          ts
        × (is_bill input.document_type ≡ true
            → All (λ t. has_line t.candidate.line_index seen ≡ false) ts
              × Pairwise (λ a b. a.candidate.line_index ≢ b.candidate.line_index) ts)
  unfolding transactions_problem
  transactions_problem-none index seen [] h = (tt, λ b. (tt, tt))
  transactions_problem-none index seen (t ∷ ts) h =
      elim (Option-cases
        (validate_transaction p t input.document_type input.allowed_account_refs bound manifest)) [
          | inr (_, v) ↦ ground arith
          | inl v ↦
              let (vs, next) =
                transactions_problem-none (suc index) (t.candidate.line_index ∷ seen) ts
                  (ground arith) in
              (
                (v, vs),
                λ b.
                    let (f, d) = next b in
                    (
                      (ground arith, All-map ts (λ u g. ground arith) f),
                      (
                        All-map ts
                            (λ u g e. ground (
                              arith,
                              (eqb_ℤ_iff u.candidate.line_index t.candidate.line_index).1 (sym e),
                            ))
                            f,
                        d,
                      ),
                    ),
              )
        ]

  -- The summary that a document must have.
  abbrev pub HasSummary : DocumentType → Option BillSummary → Type 0
  HasSummary credit_card_bill summary =
      (s : BillSummary) × (summary ≡ some s)
      × IsSummary p input.allowed_account_refs bound manifest s
  HasSummary _ summary = summary ≡ none

  summary_problem-none :
      (document : DocumentType) (summary : Option BillSummary)
      → input.document_type ≡ document
      → summary_problem p input manifest summary ≡ none
      → HasSummary document summary
  unfolding summary_problem
  summary_problem-none credit_card_bill none e h = ground arith
  summary_problem-none credit_card_bill (some s) e h = (
    s,
    refl,
    validate_bill_summary-none p s input.allowed_account_refs bound manifest (ground arith),
  )
  summary_problem-none generic_document none e h = refl
  summary_problem-none generic_document (some s) e h = ground arith
  summary_problem-none (other_document _) none e h = refl
  summary_problem-none (other_document _) (some s) e h = ground arith

  -- The references that the server allows are well-formed and distinct, and there is one; there are at
  -- most 100 transactions, each with its facts, on lines of their own if the document is a bill; and
  -- the document has the summary that it must have.
  pub record IsResponse (r : Response) : Type 0 where
    pub known : is_known input.document_type ≡ true
    pub version : r.schema_version ≡ pos 1
    pub refs : All (λ ref. p.matches account_ref_pattern ref ≡ true) input.allowed_account_refs
    pub refs_distinct : Pairwise (λ a b. a ≢ b) input.allowed_account_refs
    pub refs_given : 1 ≤ length input.allowed_account_refs
    pub count : bad_count r.transactions ≡ false
    pub transactions :
        All
          (IsTransaction p input.document_type input.allowed_account_refs bound manifest)
          (results_of r)
    pub lines :
        is_bill input.document_type ≡ true
        → Pairwise (λ a b. a.candidate.line_index ≢ b.candidate.line_index) (results_of r)
    pub summary : HasSummary input.document_type r.document_summary

  bind_sole_account-count :
      (refs : List Text) (r : Response)
      → bad_count (bind_sole_account refs r).transactions ≡ bad_count r.transactions
  unfolding bind_sole_account
  bind_sole_account-count [] r = refl
  bind_sole_account-count (a ∷ []) r = bind_candidates-count a r.transactions
  bind_sole_account-count (a ∷ b ∷ refs) r = refl

  bind_sole_account-version :
      (refs : List Text) (r : Response)
      → (bind_sole_account refs r).schema_version ≡ r.schema_version
  unfolding bind_sole_account
  bind_sole_account-version [] r = refl
  bind_sole_account-version (a ∷ []) r = refl
  bind_sole_account-version (a ∷ b ∷ refs) r = refl

  response_problem-none :
      (r : Response)
      → let b = bind_sole_account input.allowed_account_refs r in
        response_problem p input manifest r b ≡ none → IsResponse b
  unfolding response_problem
  response_problem-none r h =
      let (v, (c, (k, (n, (g, (s, (t, _))))))) = first_problem-none _ h in
      let (m, _, d) = names_problem-none p _ _ _ [] input.allowed_account_refs n in
      let (ts, l) = transactions_problem-none 0 [] _ t in
      record {
        known = ground (arith, refuse_if-none _ _ k);
        version =
            bind_sole_account-version input.allowed_account_refs r
            ∙ (eqb_ℤ_iff r.schema_version (pos 1)).0 (ground (arith, refuse_if-none _ _ v));
        refs = m;
        refs_distinct = d;
        refs_given = ground (arith, refuse_if-none _ _ g);
        count = bind_sole_account-count input.allowed_account_refs r ∙ refuse_if-none _ _ c;
        transactions = All-map _ (λ u e. validate_transaction-none p u _ _ bound manifest e) ts;
        lines = λ b. (l b).1;
        summary = summary_problem-none input.document_type _ refl s;
      }

  decode-IsResponse :
      (raw : Text) (out : Response) → decode p input manifest raw ≡ ok out → IsResponse out
  unfolding decode
  decode-IsResponse raw out h = elim (Result-cases (p.decode_response raw)) [
    | inl (_, e) ↦ ground arith
    | inr (r, e) ↦
        let b = bind_sole_account input.allowed_account_refs r in
        elim (Option-cases (response_problem p input manifest r b)) [
          | inr (_, q) ↦ ground arith
          | inl q ↦
              let same : b ≡ out = ok-inj (ground arith) in
              subst IsResponse same (response_problem-none r q)
        ]
  ]

-- A manifest that is accepted.
validate_page_manifest-none :
    (p : Platform) (paths : List Text)
    → validate_page_manifest p paths ≡ none
    → (1 ≤ length paths)
      × (length paths ≤ 5)
      × All (λ path. p.matches evidence_path_pattern path ≡ true) paths
      × Pairwise (λ a b. a ≢ b) paths
unfolding validate_page_manifest
validate_page_manifest-none p paths h =
    let (c, (n, _)) = first_problem-none _ h in
    let (m, _, d) = names_problem-none p _ _ _ [] paths n in
    let e = refuse_if-none _ _ c in (ground arith, ground arith, m, d)

-- A response that is decoded with a manifest: the manifest names one to five distinct pages; the
-- references that the server allows are well-formed, distinct, and one at least; the response has at
-- most 100 transactions, for accounts that are allowed, each with its kind, amount, currency, texts,
-- date, references, account evidence and line items within their rules, and with a citation for each of
-- these fields that has a value, no field twice and all of pages of the manifest; the lines of a bill
-- have distinct numbers, and kinds that agree with the transaction; and a bill has a valid summary, its
-- values cited likewise, another document none.
pub decode_with_context_sound :
    (p : Platform) (raw : Text) (input : DecodeContext) (out : Response)
    → decode_with_context p raw input ≡ ok out
    → ((1 ≤ length input.page_manifest)
        × (length input.page_manifest ≤ 5)
        × All (λ path. p.matches evidence_path_pattern path ≡ true) input.page_manifest
        × Pairwise (λ a b. a ≢ b) input.page_manifest)
      × IsResponse p input (some input.page_manifest) out
unfolding decode_with_context
decode_with_context_sound p raw input out h =
    elim (Option-cases (validate_page_manifest p input.page_manifest)) [
      | inr (_, v) ↦ ground arith
      | inl v ↦ (
        validate_page_manifest-none p input.page_manifest v,
        decode-IsResponse p input (some input.page_manifest) raw out (ground arith),
      )
    ]
