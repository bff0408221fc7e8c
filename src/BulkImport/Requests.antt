-- ===== src/BulkImport/Requests.antt =====
-- The checks of requests (backend/internal/bulkimport/service.go).
use wealth_management.Prelude.{
  ℕ, Bool, true, false, not, ◌&&◌, ◌||◌, Option, none, some, List, [], ◌∷◌, ◌*◌, map, ltb, length,
  any, ◌==◌, if◌then◌else◌,
}
use wealth_management.Prelude.Int.{ℤ, pos, ltb_ℤ}
use wealth_management.Prelude.Text.{Text, codes, text_eq, trim_space}
use wealth_management.BulkImport.Types.{
  DocumentType, unknown_document, credit_card_bill, TemplateInput, ReservationInput, DocumentLayout,
  CandidateAction, set_account, attach, create, internal_transfer, other_action,
  CandidateResolution, Platform,
}

abbrev pub nil_uuid : Text
nil_uuid = codes "00000000-0000-0000-0000-000000000000"

abbrev pub is_nil : Text → Bool
is_nil id = text_eq id nil_uuid

-- `DocumentType.Valid`.
unfoldable pub is_valid : DocumentType → Bool
is_valid (unknown_document _) = false
is_valid _ = true

abbrev pub is_bill : DocumentType → Bool
is_bill credit_card_bill = true
is_bill _ = false

unfoldable pub contains : Text → List Text → Bool
unfolding any
contains id ids = any (text_eq id) ids

-- The loop of `uniqueUUIDs`, with the identifiers seen.
unfoldable pub unique_from : List Text → List Text → List Text
unique_from seen [] = []
unique_from seen (id ∷ ids) = elim (is_nil id || contains id seen) [
  | true ↦ unique_from seen ids
  | false ↦ id ∷ unique_from (id ∷ seen) ids
]

unfoldable pub unique_uuids : List Text → List Text
unique_uuids values = unique_from [] values

abbrev pub out_of : ℕ → ℕ → ℕ → Bool
out_of low high n = ltb n low || ltb high n

abbrev pub version_missing : Option ℤ → Bool
version_missing none = true
version_missing (some v) = ltb_ℤ v (pos 1)

-- The input that is stored, or none for `ErrInvalid`.
unfoldable pub validate_template_input : TemplateInput → Bool → Option TemplateInput
validate_template_input input require_version =
    let title' = trim_space input.title in
    let prompt = trim_space input.parsing_prompt in
    let ids = unique_uuids input.account_ids in
    if out_of 1 100 (length title')
      || out_of 1 8000 (length prompt)
      || not (is_valid input.document_type)
      || (require_version && version_missing input.expected_version)
      || length ids == 0
      || (is_bill input.document_type && not (length ids == 1))
    then none
    else some (record input { title = title'; parsing_prompt = prompt; account_ids = ids })

unfoldable pub bulk_extension : Text → Option Text
bulk_extension mime_type =
    if text_eq mime_type (codes "application/pdf")
    then some (codes "pdf")
    else if text_eq mime_type (codes "image/bmp")
    then some (codes "bmp")
    else if text_eq mime_type (codes "image/jpeg")
    then some (codes "jpg")
    else if text_eq mime_type (codes "image/png")
    then some (codes "png")
    else if text_eq mime_type (codes "image/tiff")
    then some (codes "tiff")
    else if text_eq mime_type (codes "image/webp")
    then some (codes "webp")
    else if text_eq mime_type (codes "image/heic")
    then some (codes "heic")
    else none

abbrev pub checksum_pattern : Text
checksum_pattern = codes "^[0-9a-f]{64}$"

abbrev to_slash : ℕ → ℕ
to_slash c = if c == b'\\' then b'/' else c

-- The input that is stored and the extension of its type, or none for `ErrInvalid`.
unfoldable pub validate_reservation : Platform → ReservationInput → Option (ReservationInput × Text)
validate_reservation p input = elim (p.media_type input.mime_type) [
  | none ↦ none
  | some media ↦
      let name = trim_space (p.base (map to_slash input.display_filename)) in
      let mime = map p.lower_rune media in
      elim (bulk_extension mime) [
        | none ↦ none
        | some extension ↦
            if ltb_ℤ input.byte_size (pos 1)
              || ltb_ℤ (pos (5 * 1024 * 1024)) input.byte_size
              || not (p.matches checksum_pattern input.sha256)
              || text_eq name (codes ".")
              || ltb 255 (length name)
            then none
            else some (record input { display_filename = name; mime_type = mime }, extension)
      ]
]

-- The loop over the files of a document: the files seen so far, or none for `ErrInvalid`.
unfoldable pub take_files : List Text → List Text → Option (List Text)
take_files seen [] = some seen
take_files seen (id ∷ ids) = elim (is_nil id || contains id seen) [
  | true ↦ none
  | false ↦ take_files (id ∷ seen) ids
]

-- The loop over the documents, which trims their labels.
unfoldable pub take_documents : List Text → List DocumentLayout → Option (List DocumentLayout)
take_documents seen [] = some []
take_documents seen (d ∷ ds) = elim (is_nil d.document_id || out_of 1 50 (length d.file_ids)) [
  | true ↦ none
  | false ↦ elim (take_files seen d.file_ids) [
    | none ↦ none
    | some seen' ↦ elim (take_documents seen' ds) [
      | none ↦ none
      | some rest ↦ some (record d { label = trim_space d.label } ∷ rest)
    ]
  ]
]

unfoldable pub validate_layout : List DocumentLayout → Option (List DocumentLayout)
validate_layout layout = if out_of 1 20 (length layout) then none else take_documents [] layout

abbrev pub is_missing : Option Text → Bool
is_missing none = true
is_missing (some _) = false

-- Both are given, and differ.
abbrev pub are_distinct : Option Text → Option Text → Bool
are_distinct (some a) (some b) = not (text_eq a b)
are_distinct none _ = false
are_distinct (some _) none = false

-- The switch of `ResolveCandidate`.
unfoldable pub valid_resolution : CandidateResolution → CandidateAction → Bool
valid_resolution r set_account = not (is_missing r.account_id)
valid_resolution r attach = not (is_missing r.transaction_id)
valid_resolution r create = true
valid_resolution r internal_transfer = are_distinct r.debit_account_id r.credit_account_id
valid_resolution r (other_action _) = false
