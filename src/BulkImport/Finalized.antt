-- ===== src/BulkImport/Finalized.antt =====
-- What a file that is finalized satisfies (backend/internal/bulkimport/service.go).
use wealth_management.Prelude.{
  Bool, true, false, ◌||◌, Option, none, some, List, [], ◌∷◌, ◌≡◌, ◌⊎◌, refl, sym, subst, ◌∙◌, inl,
  inr, arith, Bool-cases, Option-cases,
}
use wealth_management.Prelude.Text.{Text, text_eq, text_eq_iff}
use wealth_management.BulkImport.Types.{
  Error, invalid, not_found, conflict, File, Result, failure, success,
}
use wealth_management.BulkImport.Requests.{is_nil, bulk_extension}
use wealth_management.BulkImport.Batch.{Document, Batch, ObjectMetadata, Uploads}
use wealth_management.BulkImport.Finalize.{
  find_in_files, find_in_documents, object_path, as_declared, on_metadata, on_found, on_batch,
  finalize_file,
}

-- The file is one of the list.
abbrev pub HasFile : File → List File → Type 0
HasFile f [] = ⊥
HasFile f (g ∷ gs) = (g ≡ f) ⊎ HasFile f gs

-- A document of the list has the scope and the file.
abbrev pub HasDocument : File → Text → List Document → Type 0
HasDocument f scope [] = ⊥
HasDocument f scope (d ∷ ds) =
    ((d.source_scope_id ≡ scope) × HasFile f d.files) ⊎ HasDocument f scope ds

-- What was found is the file of the identifier, in a place that `P` tells.
abbrev Found : (File → Text → Type 0) → Text → Option (File × Text) → Type 0
Found P file_id none = Unit
Found P file_id (some (f, scope)) = (f.id ≡ file_id) × P f scope

Found-find_in_files :
    (P : File → Text → Type 0) (file_id scope : Text) (found : Option (File × Text))
    (fs : List File)
    → ((f : File) → HasFile f fs → P f scope)
    → Found P file_id found
    → Found P file_id (find_in_files file_id scope found fs)
unfolding find_in_files
Found-find_in_files P file_id scope found [] g h = h
Found-find_in_files P file_id scope found (f ∷ fs) g h = elim (Bool-cases (text_eq f.id file_id)) [
  | inl e ↦
      let same : find_in_files file_id scope found (f ∷ fs)
          ≡ find_in_files file_id scope (some (f, scope)) fs =
        ground arith in
      subst (Found P file_id) (sym same) (
        Found-find_in_files P file_id scope (some (f, scope)) fs (λ x m. g x (inr m))
          ((text_eq_iff f.id file_id).0 e, g f (inl refl)))
  | inr e ↦
      let same : find_in_files file_id scope found (f ∷ fs) ≡ find_in_files file_id scope found fs =
        ground arith in
      subst (Found P file_id) (sym same)
        (Found-find_in_files P file_id scope found fs (λ x m. g x (inr m)) h)
]

Found-find_in_documents :
    (P : File → Text → Type 0) (file_id : Text) (found : Option (File × Text)) (ds : List Document)
    → ((f : File) → (scope : Text) → HasDocument f scope ds → P f scope)
    → Found P file_id found
    → Found P file_id (find_in_documents file_id found ds)
unfolding find_in_documents
Found-find_in_documents P file_id found [] g h = h
Found-find_in_documents P file_id found (d ∷ ds) g h =
    Found-find_in_documents P file_id (find_in_files file_id d.source_scope_id found d.files) ds
      (λ f scope m. g f scope (inr m))
      (Found-find_in_files P file_id d.source_scope_id found d.files
        (λ f m. g f d.source_scope_id (inl (refl, m))) h)

failed_neq :
    {S A : Type 0} (s s' : S) (e : Error) (a : A)
    → ◌≡◌ {A = S × Result A} (s, failure e) (s', success a)
    → ⊥
failed_neq s s' e a h = cc

module _ {S : Type 0} (uploads : Uploads S) (equal_fold : Text → Text → Bool)
    (user_id file_id : Text) (s : S) where
  -- The object under the file's own path was inspected, it is as declared, and the store has finalized
  -- the file with what was found of it.
  pub record IsFinalized (documents : List Document) (out : S × Result File) : Type 0 where
    pub file : File
    pub scope : Text
    pub extension : Text
    pub inspected : S
    pub metadata : ObjectMetadata
    pub identified : file.id ≡ file_id
    pub owned : HasDocument file scope documents
    pub scoped : is_nil scope ≡ false
    pub typed : bulk_extension file.declared_mime ≡ some extension
    pub stat :
        uploads.stat user_id scope (object_path user_id scope file extension) s
        ≡ (inspected, success metadata)
    pub declared : as_declared equal_fold file metadata ≡ true
    pub finalized : uploads.finalize_file user_id file_id metadata inspected ≡ out

  IsFinalized-on_metadata :
      (documents : List Document) (file : File) (scope extension : Text)
      (answer : S × Result ObjectMetadata) (s' : S) (out : File)
      → file.id ≡ file_id
      → HasDocument file scope documents
      → is_nil scope ≡ false
      → bulk_extension file.declared_mime ≡ some extension
      → uploads.stat user_id scope (object_path user_id scope file extension) s ≡ answer
      → on_metadata uploads equal_fold user_id file_id file answer ≡ (s', success out)
      → IsFinalized documents (s', success out)
  unfolding on_metadata
  IsFinalized-on_metadata documents file scope extension (s1, failure e) s' out i m n t a h =
      absurd (failed_neq s1 s' _ out h)
  IsFinalized-on_metadata documents file scope extension (s1, success metadata) s' out i m n t a h =
      elim (Bool-cases (as_declared equal_fold file metadata)) [
        | inr d ↦
            let same : on_metadata uploads equal_fold user_id file_id file (s1, success metadata)
                ≡ (s1, failure conflict) =
              rw d refl in
            absurd (failed_neq s1 s' conflict out (sym same ∙ h))
        | inl d ↦
            let same : on_metadata uploads equal_fold user_id file_id file (s1, success metadata)
                ≡ uploads.finalize_file user_id file_id metadata s1 =
              rw d refl in
            record {
              file = file;
              scope = scope;
              extension = extension;
              inspected = s1;
              metadata = metadata;
              identified = i;
              owned = m;
              scoped = n;
              typed = t;
              stat = a;
              declared = d;
              finalized = sym same ∙ h;
            }
      ]

  IsFinalized-on_found :
      (documents : List Document) (found : Option (File × Text)) (s' : S) (out : File)
      → Found (λ f scope. HasDocument f scope documents) file_id found
      → on_found uploads equal_fold user_id file_id found s ≡ (s', success out)
      → IsFinalized documents (s', success out)
  unfolding on_found
  IsFinalized-on_found documents none s' out h e = absurd (failed_neq s s' _ out e)
  IsFinalized-on_found documents (some (file, scope)) s' out (i, m) e =
      elim (Bool-cases (is_nil scope)) [
        | inl n ↦
            let same : on_found uploads equal_fold user_id file_id (some (file, scope)) s
                ≡ (s, failure not_found) =
              ground arith in
            absurd (failed_neq s s' not_found out (sym same ∙ e))
        | inr n ↦ elim (Option-cases (bulk_extension file.declared_mime)) [
          | inl t ↦
              let same : on_found uploads equal_fold user_id file_id (some (file, scope)) s
                  ≡ (s, failure invalid) =
                ground arith in
              absurd (failed_neq s s' invalid out (sym same ∙ e))
          | inr (extension, t) ↦
              let answer =
                uploads.stat user_id scope (object_path user_id scope file extension) s in
              let same : on_found uploads equal_fold user_id file_id (some (file, scope)) s
                  ≡ on_metadata uploads equal_fold user_id file_id file answer =
                ground arith in
              IsFinalized-on_metadata documents file scope extension answer s' out i m n t refl
                (sym same ∙ e)
        ]
      ]

loaded_batch :
    {S : Type 0} (uploads : Uploads S) (equal_fold : Text → Text → Bool)
    (user_id batch_id file_id : Text) (s : S) (answer : S × Result Batch) (s' : S) (out : File)
    → uploads.get_batch user_id batch_id s ≡ answer
    → on_batch uploads equal_fold user_id file_id answer ≡ (s', success out)
    → (batch : Batch) × (loaded : S) × (uploads.get_batch user_id batch_id s
        ≡ (loaded, success batch))
      × IsFinalized uploads equal_fold user_id file_id loaded batch.documents (s', success out)
unfolding on_batch
loaded_batch uploads equal_fold user_id batch_id file_id s (s1, failure e) s' out a h =
    absurd (failed_neq s1 s' e out h)
loaded_batch uploads equal_fold user_id batch_id file_id s (s1, success batch) s' out a h = (
  batch,
  s1,
  a,
  IsFinalized-on_found uploads equal_fold user_id file_id s1 batch.documents
      (find_in_documents file_id none batch.documents) s' out
      (Found-find_in_documents (λ f scope. HasDocument f scope batch.documents) file_id none
        batch.documents (λ f scope m. m) tt)
      h,
)

-- A file is finalized only if it is a file, of the given identifier, of a document of the user's batch,
-- and the object under the path that belongs to the user, to the document's scope and to the file has
-- the declared size and type; what is finalized is what was found there.
pub finalize_file_sound :
    {S : Type 0} (uploads : Uploads S) (equal_fold : Text → Text → Bool)
    (user_id batch_id file_id : Text) (s s' : S) (out : File)
    → finalize_file uploads equal_fold user_id batch_id file_id s ≡ (s', success out)
    → (batch : Batch) × (loaded : S) × (uploads.get_batch user_id batch_id s
        ≡ (loaded, success batch))
      × IsFinalized uploads equal_fold user_id file_id loaded batch.documents (s', success out)
unfolding finalize_file
finalize_file_sound {S} uploads equal_fold user_id batch_id file_id s s' out h =
    elim (Bool-cases (is_nil user_id || is_nil batch_id || is_nil file_id)) [
      | inl e ↦
          let same : finalize_file uploads equal_fold user_id batch_id file_id s
              ≡ (s, failure invalid) =
            ground arith in
          absurd (failed_neq s s' invalid out (sym same ∙ h))
      | inr e ↦
          let same : finalize_file uploads equal_fold user_id batch_id file_id s
              ≡ on_batch uploads equal_fold user_id file_id (uploads.get_batch user_id batch_id s) =
            ground arith in
          loaded_batch uploads equal_fold user_id batch_id file_id s
            (uploads.get_batch user_id batch_id s) s' out refl (sym same ∙ h)
    ]
