-- ===== src/Handlers/Upload.antt =====
-- The upload of a document: src/handlers/upload.rs. The fields of the multipart body come in order;
-- a field whose text or bytes cannot be read holds `none`. A text is the list of its bytes.
pub mod Accepted
pub mod Refused
mod Tests
use pactum_codex.Base.{
  ℕ, Bool, true, false, Option, none, some, List, [], ◌∷◌, ◌||◌, not, leb, length, exists, bytes_eq,
  to_ascii_lowercase, if◌then◌else◌,
}
use pactum_codex.Error.{AppError}
use pactum_codex.Config.{Config}
use pactum_codex.State.World.{Result, ok, err}
use pactum_codex.Services.SolanaPay.{codes}
use pactum_codex.Services.Hash.{HashLibrary, verify_client_hash}
use pactum_codex.Services.Storage.{Network, upload_document}

abbrev pub max_file_size_bytes : ℕ
max_file_size_bytes = 52428800

abbrev pub allowed_mime_types : List (List ℕ)
allowed_mime_types = codes "application/pdf" ∷ codes "image/png" ∷ codes "image/jpeg" ∷ []

abbrev pub is_allowed : List ℕ → Bool
is_allowed content_type = exists (bytes_eq content_type) allowed_mime_types

pub record UploadResponse : Type 0 where
  pub storage_uri : List ℕ
  pub content_hash : List ℕ
  pub storage_backend : List ℕ

-- `file` has its content type and its bytes; `broken` is a body that ends in an error.
pub data Field : Type 0 where
  file : Option (List ℕ) → Option (List ℕ) → Field
  client_hash backend : Option (List ℕ) → Field
  unknown broken : Field

-- The variables of the loop over the fields.
pub record Form : Type 0 where
  pub file_bytes : Option (List ℕ)
  pub content_type : Option (List ℕ)
  pub client_hash : Option (List ℕ)
  pub backend : Option (List ℕ)

abbrev pub no_fields : Form
no_fields = record { file_bytes = none; content_type = none; client_hash = none; backend = none }

infixl 5 ◌>>?◌
abbrev pub ◌>>?◌ : {A B : Type 0} → Result A → (A → Result B) → Result B
ok a >>? f = f a
err e >>? f = err e

abbrev pub or_err : {A : Type 0} → Option A → AppError → Result A
or_err none e = err e
or_err (some a) e = ok a

abbrev pub require : Bool → AppError → Result (Unit {0})
require true e = ok tt
require false e = err e

unfoldable pub read_field : Field → Form → Result Form
read_field (file content_type bytes) form =
    or_err content_type AppError.missing_content_type >>? λ t.
    require (is_allowed t) AppError.invalid_file_type >>? λ _.
    or_err bytes AppError.upload_failed >>? λ b.
    require (leb (length b) max_file_size_bytes) AppError.file_too_large >>? λ _.
    ok (record form { file_bytes = some b; content_type = some t })
read_field (client_hash value) form =
    or_err value AppError.upload_failed >>? λ v. ok (record form { client_hash = some v })
read_field (backend value) form =
    or_err value AppError.upload_failed >>? λ v. ok (record form { backend = some v })
read_field unknown form = ok form
read_field broken form = err AppError.upload_failed

unfoldable pub read_fields : List Field → Form → Result Form
read_fields [] form = ok form
read_fields (f ∷ fs) form = read_field f form >>? read_fields fs

-- `map_err(|_| AppError::UploadFailed)`
abbrev pub hide_error : {A : Type 0} → Result A → Result A
hide_error (ok a) = ok a
hide_error (err _) = err AppError.upload_failed

module _ (lib : HashLibrary) where
  -- `validate_and_upload`, whose limit is the handler's.
  unfoldable pub validate_and_upload_with_size_limit :
      List ℕ → List ℕ → List ℕ → List ℕ → ℕ → (List ℕ → Result (List ℕ)) → Result UploadResponse
  validate_and_upload_with_size_limit file_bytes content_type claimed_hash name limit upload_fn =
      require (leb (length file_bytes) limit) AppError.file_too_large >>? λ _.
      require (is_allowed content_type) AppError.invalid_file_type >>? λ _.
      let storage_backend = to_ascii_lowercase name in
      require
        (bytes_eq storage_backend (codes "ipfs") || bytes_eq storage_backend (codes "arweave"))
        AppError.upload_failed
      >>? λ _. verify_client_hash lib file_bytes claimed_hash >>? λ server_hash.
          hide_error (upload_fn file_bytes) >>? λ storage_uri. ok (record {
            storage_uri = storage_uri;
            content_hash = lib.hex_encode server_hash;
            storage_backend = storage_backend;
          })

  module _ (net : Network) where
    unfoldable pub upload_handler : Config → List Field → Result UploadResponse
    upload_handler config fields = read_fields fields no_fields >>? λ form.
        or_err form.file_bytes AppError.upload_failed >>? λ file_bytes.
        or_err form.content_type AppError.missing_content_type >>? λ content_type.
        or_err form.client_hash AppError.invalid_hash >>? λ claimed_hash.
        or_err form.backend AppError.upload_failed >>? λ name.
        validate_and_upload_with_size_limit file_bytes content_type claimed_hash name
          max_file_size_bytes (λ bytes. upload_document net name bytes config)
