-- ===== src/BulkParse/Decode.antt =====
-- `Decode`, `DecodeWithContext` and `validatePageManifest`
-- (backend/internal/bulkparse/decoder.go).
use wealth_management.Prelude.{
  ℕ, suc, Bool, true, false, not, ◌&&◌, ◌||◌, Option, none, some, List, [], ◌∷◌, ◌++◌, map, ltb,
  length, if◌then◌else◌,
}
use wealth_management.Prelude.Int.{ℤ, pos, eqb_ℤ}
use wealth_management.Prelude.Text.{Text, codes, is_empty}
use wealth_management.Prelude.Decimal.{decimal}
use wealth_management.BulkParse.Types.{
  DocumentType, generic_document, credit_card_bill, other_document, BillSummary, TransactionResult,
  Response, DecodeContext, Result, error, ok, Platform,
}
use wealth_management.BulkParse.Fields.{
  evidence_path_pattern, account_ref_pattern, refuse_if, first_problem, contains,
}
use wealth_management.BulkParse.Candidates.{is_bill, validate_transaction}
use wealth_management.BulkParse.Summary.{validate_bill_summary}

-- A list of names that match a pattern, each once.
module _ (p : Platform) (pattern bad duplicate : Text) where
  unfoldable pub names_problem : List Text → List Text → Option Text
  names_problem seen [] = none
  names_problem seen (name ∷ names) = elim (not (p.matches pattern name)) [
    | true ↦ some bad
    | false ↦ elim (contains name seen) [
      | true ↦ some duplicate
      | false ↦ names_problem (name ∷ seen) names
    ]
  ]

unfoldable pub validate_page_manifest : Platform → List Text → Option Text
validate_page_manifest p paths = first_problem (
    refuse_if (not (ltb 0 (length paths)) || ltb 5 (length paths))
      (codes "bulk page manifest count is invalid")
    ∷ names_problem p evidence_path_pattern (codes "bulk page manifest path is invalid")
        (codes "bulk page manifest contains a duplicate") [] paths
    ∷ [])

abbrev pub is_known : DocumentType → Bool
is_known generic_document = true
is_known credit_card_bill = true
is_known (other_document _) = false

-- The only reference that is allowed, or the empty text.
abbrev pub sole_account_ref : List Text → Text
sole_account_ref (ref ∷ []) = ref
sole_account_ref _ = []

abbrev pub bind_candidate : Text → TransactionResult → TransactionResult
bind_candidate ref t = record t { candidate = record (t.candidate) { account_ref = ref } }

abbrev pub bind_candidates :
    Text → Option (List TransactionResult) → Option (List TransactionResult)
bind_candidates ref none = none
bind_candidates ref (some ts) = some (map (bind_candidate ref) ts)

abbrev bind_summary : Text → Option BillSummary → Option BillSummary
bind_summary ref none = none
bind_summary ref (some s) = some (record s { card_account_ref = some ref })

-- The only reference that is allowed is written over what the model answered.
unfoldable pub bind_sole_account : List Text → Response → Response
bind_sole_account (ref ∷ []) r = record r {
  transactions = bind_candidates ref r.transactions;
  document_summary = bind_summary ref r.document_summary;
}
bind_sole_account _ r = r

abbrev pub results_of : Response → List TransactionResult
results_of r = elim r.transactions [ none ↦ [] | some ts ↦ ts ]

-- `response.Transactions == nil || len(response.Transactions) > MaxCandidatesPerChunk`.
abbrev pub bad_count : Option (List TransactionResult) → Bool
bad_count none = true
bad_count (some ts) = ltb 100 (length ts)

abbrev pub has_line : ℤ → List ℤ → Bool
has_line i [] = false
has_line i (k ∷ ks) = eqb_ℤ i k || has_line i ks

module _ (p : Platform) (input : DecodeContext) (manifest : Option (List Text)) where
  abbrev pub server_bound : Bool
  server_bound = not (is_empty (sole_account_ref input.allowed_account_refs))

  unfoldable pub summary_problem : Option BillSummary → Option Text
  summary_problem none =
      refuse_if (is_bill input.document_type) (codes "credit card bill summary is required")
  summary_problem (some s) =
      if is_bill input.document_type
      then validate_bill_summary p s input.allowed_account_refs server_bound manifest
      else some (codes "generic document summary must be null")

  -- The loop over the transactions, with their index and the line indexes seen.
  unfoldable pub transactions_problem : ℕ → List ℤ → List TransactionResult → Option Text
  transactions_problem index seen [] = none
  transactions_problem index seen (t ∷ ts) =
      elim (validate_transaction p t input.document_type input.allowed_account_refs server_bound
        manifest) [
          | some problem ↦ some (codes "transaction " ++ decimal index ++ codes ": " ++ problem)
          | none ↦ elim (is_bill input.document_type && has_line t.candidate.line_index seen) [
            | true ↦ some (codes "credit card line_index must be unique in a chunk")
            | false ↦ transactions_problem (suc index) (t.candidate.line_index ∷ seen) ts
          ]
        ]

  unfoldable pub response_problem : Response → Response → Option Text
  response_problem r bound = first_problem (
      refuse_if (not (eqb_ℤ r.schema_version (pos 1)))
        (codes "unsupported bulk response schema version")
      ∷ refuse_if (bad_count r.transactions) (codes "bulk response candidate count is invalid")
      ∷ refuse_if (not (is_known input.document_type)) (codes "bulk document type is invalid")
      ∷ names_problem p account_ref_pattern (codes "allowed account reference is invalid")
          (codes "allowed account references contain a duplicate") [] input.allowed_account_refs
      ∷ refuse_if (not (ltb 0 (length input.allowed_account_refs)))
          (codes "at least one allowed account is required")
      ∷ summary_problem bound.document_summary
      ∷ transactions_problem 0 [] (results_of bound)
      ∷ [])

  unfoldable pub decode : Text → Result Response
  decode raw = elim (p.decode_response raw) [
    | error problem ↦ error problem
    | ok r ↦
        let bound = bind_sole_account input.allowed_account_refs r in
        elim (response_problem r bound) [ some problem ↦ error problem | none ↦ ok bound ]
  ]

unfoldable pub decode_without_manifest :
    Platform → Text → DocumentType → List Text → Result Response
decode_without_manifest p raw document allowed =
    decode p
      (record { document_type = document; allowed_account_refs = allowed; page_manifest = [] }) none
      raw

unfoldable pub decode_with_context : Platform → Text → DecodeContext → Result Response
decode_with_context p raw input = elim (validate_page_manifest p input.page_manifest) [
  | some problem ↦ error problem
  | none ↦ decode p input (some input.page_manifest) raw
]
