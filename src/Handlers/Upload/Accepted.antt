-- ===== src/Handlers/Upload/Accepted.antt =====
-- What an upload that is accepted has passed: src/handlers/upload.rs.
use mathlib.Core.Path.{sym}
use pactum_codex.Base.{
  ℕ, ◌≤◌, ◌≡◌, ◌∙◌, refl, ap, arith, Bool, true, false, Option, none, some, List, ◌||◌, leb, length,
  bytes_eq, to_ascii_lowercase, bytes_eq→eq, Bool-cases, Option-cases, inl, inr,
}
use pactum_codex.Error.{AppError}
use pactum_codex.Config.{Config}
use pactum_codex.State.World.{Result, ok, err, OnOk}
use pactum_codex.Services.SolanaPay.{codes}
use pactum_codex.Services.Hash.{HashLibrary, verify_client_hash}
use pactum_codex.Services.Storage.{Network, upload_document}
use pactum_codex.Handlers.Upload.{
  Field, Form, UploadResponse, no_fields, is_allowed, max_file_size_bytes, ◌>>?◌, or_err, require,
  hide_error, read_fields, validate_and_upload_with_size_limit, upload_handler,
}

OnOk-bind :
    {A B : Type 0} (m : Result A) (f : A → Result B) (P : B → Type 0)
    → ((a : A) → m ≡ ok a → OnOk (f a) P)
    → OnOk (m >>? f) P
OnOk-bind (ok a) f P h = h a refl
OnOk-bind (err e) f P h = tt

require-ok : (b : Bool) (e : AppError) (u : Unit {0}) → require b e ≡ ok u → b ≡ true
require-ok true e u h = refl
require-ok false e u h = cc

hide_error-ok : {A : Type 0} (r : Result A) (a : A) → hide_error r ≡ ok a → r ≡ ok a
hide_error-ok (ok a) b h = h
hide_error-ok (err e) b h = cc

or_err-ok : {A : Type 0} (o : Option A) (e : AppError) (a : A) → or_err o e ≡ ok a → o ≡ some a
or_err-ok none e a h = cc
or_err-ok (some a) e b h = cc

verify_client_hash-ok :
    (lib : HashLibrary) (bytes hash server : List ℕ)
    → verify_client_hash lib bytes hash ≡ ok server
    → (server ≡ lib.sha256 bytes) × (lib.hex_decode hash ≡ some (lib.sha256 bytes))
unfolding verify_client_hash
verify_client_hash-ok lib bytes hash server e = elim (Option-cases (lib.hex_decode hash)) [
  | inl unread ↦ absurd (ground arith)
  | inr (h, there) ↦ elim (Bool-cases (bytes_eq (lib.sha256 bytes) h)) [
    | inl same ↦
        let h' : lib.sha256 bytes ≡ h = bytes_eq→eq (lib.sha256 bytes) h same in
        (ground arith, there ∙ ap some (sym h'))
    | inr other ↦ absurd (ground arith)
  ]
]

-- A form that was accepted: the file is small enough and of an allowed type, the hash that came with
-- it is the file's, and the answer names that hash, the backend in lower case, one of the two, and
-- where the document was stored.
pub record IsAccepted (lib : HashLibrary) (net : Network) (config : Config) (form : Form)
    (response : UploadResponse) : Type 0 where
  pub bytes : List ℕ
  pub content_type : List ℕ
  pub hash : List ℕ
  pub name : List ℕ
  pub has_file : (form.file_bytes ≡ some bytes) × (form.content_type ≡ some content_type)
  pub has_texts : (form.client_hash ≡ some hash) × (form.backend ≡ some name)
  pub small : length bytes ≤ max_file_size_bytes
  pub typed : is_allowed content_type ≡ true
  pub hashed : lib.hex_decode hash ≡ some (lib.sha256 bytes)
  pub content : lib.hex_decode response.content_hash ≡ some (lib.sha256 bytes)
  pub backend_name : response.storage_backend ≡ to_ascii_lowercase name
  pub known :
      (bytes_eq response.storage_backend (codes "ipfs")
        || bytes_eq response.storage_backend (codes "arweave"))
      ≡ true
  pub stored : upload_document net name bytes config ≡ ok response.storage_uri

module _ (lib : HashLibrary) (net : Network) (config : Config) where
  -- An upload that succeeds has read every field, and what it read is accepted.
  pub upload_handler-IsAccepted :
      (fields : List Field)
      → OnOk (upload_handler lib net config fields) (λ response.
        (form : Form) × (read_fields fields no_fields ≡ ok form)
        × IsAccepted lib net config form response)
  unfolding upload_handler validate_and_upload_with_size_limit
  upload_handler-IsAccepted fields = OnOk-bind (read_fields fields no_fields) _ _ λ form e.
      OnOk-bind (or_err form.file_bytes AppError.upload_failed) _ _ λ bytes b.
        OnOk-bind (or_err form.content_type AppError.missing_content_type) _ _ λ t c.
          OnOk-bind (or_err form.client_hash AppError.invalid_hash) _ _ λ hash h.
            OnOk-bind (or_err form.backend AppError.upload_failed) _ _ λ name n.
              OnOk-bind (require (leb (length bytes) max_file_size_bytes) AppError.file_too_large) _
                _
                λ u small.
                  OnOk-bind (require (is_allowed t) AppError.invalid_file_type) _ _ λ u₁ typed.
                    OnOk-bind
                      (require
                        (bytes_eq (to_ascii_lowercase name) (codes "ipfs")
                          || bytes_eq (to_ascii_lowercase name) (codes "arweave"))
                        AppError.upload_failed)
                      _ _
                      λ u₂ known. OnOk-bind (verify_client_hash lib bytes hash) _ _ λ server v.
                        OnOk-bind (hide_error (upload_document net name bytes config)) _ _
                          λ uri stored.
                            let (server_is, hash_is) =
                              verify_client_hash-ok lib bytes hash server v in
                            (
                              form,
                              e,
                              record {
                                bytes = bytes;
                                content_type = t;
                                hash = hash;
                                name = name;
                                has_file = (
                                  or_err-ok form.file_bytes _ bytes b,
                                  or_err-ok form.content_type _ t c,
                                );
                                has_texts = (
                                  or_err-ok form.client_hash _ hash h,
                                  or_err-ok form.backend _ name n,
                                );
                                small = ground (arith, require-ok _ _ u small);
                                typed = require-ok _ _ u₁ typed;
                                hashed = hash_is;
                                content = lib.decode-encode server ∙ ap some server_is;
                                backend_name = refl;
                                known = require-ok _ _ u₂ known;
                                stored = hide_error-ok _ uri stored;
                              },
                            )
