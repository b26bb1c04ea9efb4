-- ===== src/Handlers/Upload/Refused.antt =====
-- How an upload is refused: src/handlers/upload.rs.
use pactum_codex.Base.{
  ℕ, ◌≡◌, ◌⊎◌, refl, Bool, true, false, Option, none, some, List, [], ◌∷◌, leb, length, bytes_eq,
  Bool-cases, Option-cases, inl, inr,
}
use pactum_codex.Error.{AppError, status_code}
use pactum_codex.Config.{Config}
use pactum_codex.State.World.{Result, ok, err}
use pactum_codex.Services.Hash.{HashLibrary, verify_client_hash, compute_sha256}
use pactum_codex.Services.Storage.{Network, upload_document}
use pactum_codex.Handlers.Upload.{
  Field, file, client_hash, backend, unknown, broken, Form, no_fields, is_allowed,
  max_file_size_bytes, ◌>>?◌, or_err, require, hide_error, read_field, read_fields,
  validate_and_upload_with_size_limit, upload_handler,
}

-- The errors of an upload.
abbrev pub IsRefusal : AppError → Type 0
IsRefusal AppError.missing_content_type = Unit
IsRefusal AppError.invalid_file_type = Unit
IsRefusal AppError.upload_failed = Unit
IsRefusal AppError.file_too_large = Unit
IsRefusal AppError.invalid_hash = Unit
IsRefusal AppError.hash_mismatch = Unit
IsRefusal _ = ⊥

-- A step that refuses in one of these ways, or goes on.
abbrev Refuses : {A : Type 0} → Result A → Type 0
Refuses (ok _) = Unit
Refuses (err e) = IsRefusal e

Refuses-bind :
    {A B : Type 0} (m : Result A) (f : A → Result B)
    → Refuses m
    → ((a : A) → Refuses (f a))
    → Refuses (m >>? f)
Refuses-bind (ok a) f h k = k a
Refuses-bind (err e) f h k = h

Refuses-or_err : {A : Type 0} (o : Option A) (e : AppError) → IsRefusal e → Refuses (or_err o e)
Refuses-or_err none e h = h
Refuses-or_err (some a) e h = tt

Refuses-require : (b : Bool) (e : AppError) → IsRefusal e → Refuses (require b e)
Refuses-require true e h = tt
Refuses-require false e h = h

Refuses-hide_error : {A : Type 0} (r : Result A) → Refuses (hide_error r)
Refuses-hide_error (ok a) = tt
Refuses-hide_error (err e) = tt

read_field-Refuses : (f : Field) (form : Form) → Refuses (read_field f form)
unfolding read_field
read_field-Refuses (file t b) form =
    Refuses-bind (or_err t AppError.missing_content_type) _ (Refuses-or_err t _ tt) λ t'.
      Refuses-bind (require (is_allowed t') AppError.invalid_file_type) _ (Refuses-require _ _ tt)
        λ _. Refuses-bind (or_err b AppError.upload_failed) _ (Refuses-or_err b _ tt) λ b'.
          Refuses-bind (require (leb (length b') max_file_size_bytes) AppError.file_too_large) _
            (Refuses-require _ _ tt) λ _. tt
read_field-Refuses (client_hash v) form =
    Refuses-bind (or_err v AppError.upload_failed) _ (Refuses-or_err v _ tt) λ _. tt
read_field-Refuses (backend v) form =
    Refuses-bind (or_err v AppError.upload_failed) _ (Refuses-or_err v _ tt) λ _. tt
read_field-Refuses unknown form = tt
read_field-Refuses broken form = tt

read_fields-Refuses : (fs : List Field) (form : Form) → Refuses (read_fields fs form)
unfolding read_fields
read_fields-Refuses [] form = tt
read_fields-Refuses (f ∷ fs) form =
    Refuses-bind (read_field f form) (read_fields fs) (read_field-Refuses f form)
      (read_fields-Refuses fs)

verify_client_hash-Refuses :
    (lib : HashLibrary) (bytes hash : List ℕ) → Refuses (verify_client_hash lib bytes hash)
unfolding verify_client_hash
verify_client_hash-Refuses lib bytes hash = elim (Option-cases (lib.hex_decode hash)) [
  | inl unread ↦ rw (unread, Refuses) tt
  | inr (h, there) ↦ elim (Bool-cases (bytes_eq (compute_sha256 lib bytes) h)) [
    | inl same ↦ rw (there, same, Refuses) tt
    | inr other ↦ rw (there, other, Refuses) tt
  ]
]

-- The error of a result that is none.
abbrev pub OnErr : {A : Type 0} → Result A → (AppError → Type 0) → Type 0
OnErr (ok _) P = Unit
OnErr (err e) P = P e

IsRefusal-status : (e : AppError) → IsRefusal e → (status_code e ≡ 422) ⊎ (status_code e ≡ 400)
unfolding status_code
IsRefusal-status AppError.missing_content_type h = inl refl
IsRefusal-status AppError.invalid_file_type h = inl refl
IsRefusal-status AppError.upload_failed h = inl refl
IsRefusal-status AppError.file_too_large h = inl refl
IsRefusal-status AppError.invalid_hash h = inl refl
IsRefusal-status AppError.hash_mismatch h = inr refl
IsRefusal-status _ h = elim h [ ]

Refuses-status :
    {A : Type 0} (r : Result A)
    → Refuses r
    → OnErr r (λ e. (status_code e ≡ 422) ⊎ (status_code e ≡ 400))
Refuses-status (ok a) h = tt
Refuses-status (err e) h = IsRefusal-status e h

module _ (lib : HashLibrary) (net : Network) where
  validate-Refuses :
      (bytes t hash name : List ℕ) (limit : ℕ) (upload_fn : List ℕ → Result (List ℕ))
      → Refuses (validate_and_upload_with_size_limit lib bytes t hash name limit upload_fn)
  unfolding validate_and_upload_with_size_limit
  validate-Refuses bytes t hash name limit upload_fn =
      Refuses-bind (require (leb (length bytes) limit) AppError.file_too_large) _
        (Refuses-require _ _ tt)
        λ _.
          Refuses-bind (require (is_allowed t) AppError.invalid_file_type) _
            (Refuses-require _ _ tt)
            λ _. Refuses-bind (require _ AppError.upload_failed) _ (Refuses-require _ _ tt) λ _.
              Refuses-bind (verify_client_hash lib bytes hash) _
                (verify_client_hash-Refuses lib bytes hash)
                λ _.
                  Refuses-bind (hide_error (upload_fn bytes)) _
                    (Refuses-hide_error (upload_fn bytes)) λ _. tt

  upload_handler-Refuses :
      (config : Config) (fields : List Field) → Refuses (upload_handler lib net config fields)
  unfolding upload_handler
  upload_handler-Refuses config fields =
      Refuses-bind (read_fields fields no_fields) _ (read_fields-Refuses fields no_fields) λ form.
        Refuses-bind (or_err form.file_bytes AppError.upload_failed) _ (Refuses-or_err _ _ tt)
          λ bytes.
            Refuses-bind (or_err form.content_type AppError.missing_content_type) _
              (Refuses-or_err _ _ tt)
              λ t.
                Refuses-bind (or_err form.client_hash AppError.invalid_hash) _
                  (Refuses-or_err _ _ tt)
                  λ hash.
                    Refuses-bind (or_err form.backend AppError.upload_failed) _
                      (Refuses-or_err _ _ tt)
                      λ name.
                        validate-Refuses bytes t hash name max_file_size_bytes
                          (λ bytes. upload_document net name bytes config)

  -- Whatever the storage provider answers, an upload that fails is answered with the status 422, or
  -- 400: no error of the provider, of the network or of the wallet file is told from another.
  pub upload_handler-status :
      (config : Config) (fields : List Field)
      → OnErr
          (upload_handler lib net config fields)
          (λ e. (status_code e ≡ 422) ⊎ (status_code e ≡ 400))
  upload_handler-status config fields =
      Refuses-status (upload_handler lib net config fields) (upload_handler-Refuses config fields)
