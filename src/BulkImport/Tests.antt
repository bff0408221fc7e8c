-- ===== src/BulkImport/Tests.antt =====
-- Requests at concrete inputs, over a store that records its calls.
use wealth_management.Prelude.{
  true, false, not, ◌&&◌, none, some, List, [], ◌∷◌, ◌≡◌, ◌≢◌, ◌≤◌, refl, All, length, map, any,
}
use wealth_management.Prelude.Int.{pos}
use wealth_management.Prelude.Text.{Text, codes, text_eq, trim_space, is_space}
use wealth_management.Prelude.Sort.{Pairwise}
use wealth_management.GoTime.{Time}
use wealth_management.BulkImport.Types.{
  not_found, invoice, TemplateInput, reserved, ReservationInput, ReservedFile, DocumentLayout,
  failure, success, Store, Platform,
}
use wealth_management.BulkImport.Requests.{
  is_nil, is_valid, contains, unique_from, unique_uuids, validate_template_input, take_files,
  take_documents, validate_layout,
}
use wealth_management.BulkImport.Service.{reserve_file}
use wealth_management.BulkImport.Unique.{unique_uuids_lem}
use wealth_management.BulkImport.Accepted.{
  IsDocument, IsTemplate, files_of, trimmed, validate_layout_sound, validate_template_input_sound,
}

unique_uuids_lem_example :
    let ids = codes "a" ∷ codes "b" ∷ codes "a" ∷ [] in
    All (λ id. is_nil id ≡ false) (unique_uuids ids)
    × Pairwise (λ a b. a ≢ b) (unique_uuids ids)
    × ((id : Text) → contains id (unique_uuids ids) ≡ (contains id ids && not (is_nil id)))
    × (unique_uuids (unique_uuids ids) ≡ unique_uuids ids)
unique_uuids_lem_example = unique_uuids_lem (codes "a" ∷ codes "b" ∷ codes "a" ∷ [])

abbrev sample_layout : List DocumentLayout
sample_layout =
    record {
      document_id = codes "d";
      label = codes " June ";
      file_ids = codes "f" ∷ codes "g" ∷ [];
    }
    ∷ record { document_id = codes "e"; label = []; file_ids = codes "h" ∷ [] }
    ∷ []

abbrev clean_layout : List DocumentLayout
clean_layout =
    record { document_id = codes "d"; label = codes "June"; file_ids = codes "f" ∷ codes "g" ∷ [] }
    ∷ record { document_id = codes "e"; label = []; file_ids = codes "h" ∷ [] }
    ∷ []

laid_out : validate_layout sample_layout ≡ some clean_layout
unfolding validate_layout take_documents take_files contains any text_eq trim_space is_space
laid_out = refl

validate_layout_sound_example :
    (1 ≤ length sample_layout)
    × (length sample_layout ≤ 20)
    × All IsDocument sample_layout
    × All (λ id. is_nil id ≡ false) (files_of sample_layout)
    × Pairwise (λ a b. a ≢ b) (files_of sample_layout)
    × (clean_layout ≡ map trimmed sample_layout)
validate_layout_sound_example = validate_layout_sound sample_layout clean_layout laid_out

abbrev sample_template : TemplateInput
sample_template = record {
  title = codes "Receipts ";
  document_type = invoice;
  parsing_prompt = codes "Read them.";
  account_ids = codes "a" ∷ codes "a" ∷ [];
  expected_version = none;
}

abbrev clean_template : TemplateInput
clean_template = record sample_template { title = codes "Receipts"; account_ids = codes "a" ∷ [] }

stored : validate_template_input sample_template false ≡ some clean_template
unfolding validate_template_input unique_uuids unique_from is_valid contains any text_eq trim_space
    is_space
stored = refl

validate_template_input_sound_example :
    IsTemplate false clean_template
    × (clean_template.title ≡ trim_space sample_template.title)
    × (clean_template.parsing_prompt ≡ trim_space sample_template.parsing_prompt)
    × (clean_template.account_ids ≡ unique_uuids sample_template.account_ids)
validate_template_input_sound_example =
    validate_template_input_sound sample_template clean_template false stored

abbrev sample_time : Time
sample_time = record { instant = 0; wall = 0 }

abbrev sample_reserved : ReservedFile
sample_reserved = record {
  file = record {
    id = codes "f";
    document_id = codes "d";
    sort_order = pos 0;
    display_filename = codes "a.pdf";
    declared_mime = codes "application/pdf";
    declared_bytes = pos 9;
    declared_sha256 = [];
    status = reserved;
    reservation_expires_at = sample_time;
    finalized_at = none;
  };
  source_scope_id = codes "s";
  object_path = codes "u/s/f.pdf";
}

-- The state is the list of what was done to reservations.
abbrev sample_store : Store (List Text) (Unit {0}) (Unit {0}) (Unit {0})
sample_store = record {
  create_template = λ u i s. (s, success tt);
  update_template = λ u t i s. (s, success tt);
  create_batch = λ u t ids s. (s, success tt);
  reserve_file = λ u b i at s. (codes "reserved" ∷ s, success sample_reserved);
  mark_reservation_failed = λ u f reason s. reason ∷ s;
  replace_document_layout = λ u b l s. (s, success tt);
  resolve_candidate = λ u c r s. (s, success tt);
  create_signed_upload = λ u scope path lifetime s. (s, failure not_found);
}

abbrev sample_platform : Platform
sample_platform = record {
  base = λ path. path;
  media_type = λ header. some header;
  matches = λ pattern text. true;
  lower_rune = λ c. c;
}

abbrev sample_input : ReservationInput
sample_input = record {
  display_filename = codes "a.pdf";
  mime_type = codes "application/pdf";
  byte_size = pos 9;
  sha256 = [];
  intentional_duplicate = false;
}
