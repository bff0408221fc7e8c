-- ===== src/BulkParse/Tests.antt =====
-- A response of two pages, decoded, and its duplicates.
use mathlib.Core.List.Perm
use wealth_management.Prelude.{
  true, false, none, some, List, [], ◌∷◌, ◌≡◌, ◌≢◌, ◌↔◌, ◌≤◌, refl, All, length, any, all, map,
}
use wealth_management.Prelude.Int.{pos}
use wealth_management.Prelude.Text.{Text, codes, text_eq, trim_space, is_space}
use wealth_management.Prelude.Sort.{Pairwise}
use wealth_management.Reconciliation.Types.{finite, AccountEvidence}
use wealth_management.BulkParse.Types.{
  generic_document, Evidence, Candidate, Response, DecodeContext, ok, Platform, out_of_unit,
}
use wealth_management.BulkParse.Fields.{
  evidence_path_pattern, first_problem, contains, bounded_required, bounded_optional,
  has_account_evidence, after_prefix, valid_evidence_source, cited_fields, uncited, missing_problem,
  validate_evidence,
}
use wealth_management.BulkParse.Candidates.{
  bill_line_problem, stated_fields, required_fields, allowed_fields, line_items_problem,
  candidate_problem, validate_transaction,
}
use wealth_management.BulkParse.Decode.{
  names_problem, validate_page_manifest, bind_sole_account, summary_problem, transactions_problem,
  response_problem, decode, decode_with_context,
}
use wealth_management.BulkParse.Fingerprint.{fingerprint_v1, dedupe_v1}
use wealth_management.BulkParse.Evidence.{IsEvidence, validate_evidence_iff}
use wealth_management.BulkParse.Decoded.{IsResponse, decode_with_context_sound}
use wealth_management.BulkParse.Duplicates.{fingerprint_v1-perm, AreEntries, dedupe_v1_iff}

abbrev no_evidence : AccountEvidence
no_evidence = record {
  card_last_four = [];
  masked_bank_reference = [];
  additional_identifiers = [];
}

abbrev sample_candidate : Candidate
sample_candidate = record {
  line_index = pos 0;
  line_kind = [];
  transaction_kind = codes "debit";
  title = codes "Tea";
  merchant_name = [];
  original_amount_minor = pos 450;
  original_currency = codes "SGD";
  sgd_amount_minor = none;
  occurred_on = codes "2026-01-02";
  time_precision = codes "date";
  references = codes "b" ∷ codes "a" ∷ [];
  account_ref = codes "account_1";
  account_evidence = no_evidence;
  line_items = [];
  category_leaf_name = [];
  possible_internal_transfer = false;
}

abbrev page : Text
page = codes "file[0].page[1]"

abbrev cite : Text → Evidence
cite field = record { field = field; source_path = page; confidence = finite (pos 1) }

abbrev citations : List Evidence
citations = map cite (
    codes "transaction_kind"
    ∷ codes "title"
    ∷ codes "original_amount_minor"
    ∷ codes "original_currency"
    ∷ codes "occurred_on"
    ∷ codes "references"
    ∷ [])

abbrev sample_response : Response
sample_response = record {
  schema_version = pos 1;
  document_summary = none;
  transactions = some (record { candidate = sample_candidate; evidence = citations } ∷ []);
}

-- Every pattern matches, every text is a date, and the digest of a text is the text.
abbrev sample_platform : Platform
sample_platform = record {
  matches = λ pattern text. true;
  is_date = λ text. true;
  is_json = λ text. true;
  is_object = λ text. true;
  decode_response = λ raw. ok sample_response;
  lower_rune = λ c. c;
  digest = λ text. text;
}

abbrev sample_context : DecodeContext
sample_context = record {
  document_type = generic_document;
  allowed_account_refs = codes "account_1" ∷ [];
  page_manifest = page ∷ codes "file[0].page[2]" ∷ [];
}

decoded : decode_with_context sample_platform [] sample_context ≡ ok sample_response
unfolding decode_with_context decode response_problem transactions_problem summary_problem
    bind_sole_account validate_page_manifest names_problem validate_transaction candidate_problem
    line_items_problem required_fields allowed_fields stated_fields bill_line_problem
    validate_evidence missing_problem uncited cited_fields valid_evidence_source after_prefix
    has_account_evidence bounded_optional bounded_required contains first_problem out_of_unit
    text_eq trim_space is_space any all
decoded = refl

decode_with_context_sound_example :
    ((1 ≤ 2)
      × (2 ≤ 5)
      × All
          (λ path. sample_platform.matches evidence_path_pattern path ≡ true)
          sample_context.page_manifest
      × Pairwise (λ a b. a ≢ b) sample_context.page_manifest)
    × IsResponse sample_platform sample_context (some sample_context.page_manifest) sample_response
decode_with_context_sound_example =
    decode_with_context_sound sample_platform [] sample_context sample_response decoded

validate_evidence_iff_example :
    (validate_evidence sample_platform citations (codes "title" ∷ []) (codes "title" ∷ []) [] none
      ≡ none)
    ↔ IsEvidence sample_platform citations (codes "title" ∷ []) (codes "title" ∷ []) [] none
validate_evidence_iff_example =
    validate_evidence_iff sample_platform citations (codes "title" ∷ []) (codes "title" ∷ []) []
      none

fingerprint_v1-perm_example :
    fingerprint_v1 sample_platform (codes "acc") sample_candidate
    ≡ fingerprint_v1 sample_platform
        (codes "acc")
        (record sample_candidate { references = codes "a" ∷ codes "b" ∷ [] })
fingerprint_v1-perm_example =
    fingerprint_v1-perm sample_platform (codes "acc") sample_candidate (codes "a" ∷ codes "b" ∷ [])
      (Perm.swap (codes "a") (codes "b") [])

dedupe_v1_iff_example :
    (dedupe_v1 sample_platform (codes "acc" ∷ []) (sample_candidate ∷ []) ≡ ok []) ↔ (
      (length (codes "acc" ∷ []) ≡ length (sample_candidate ∷ []))
      × AreEntries sample_platform [] ((codes "acc", sample_candidate) ∷ []) [])
dedupe_v1_iff_example = dedupe_v1_iff sample_platform (codes "acc" ∷ []) (sample_candidate ∷ []) []
