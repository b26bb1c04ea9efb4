-- ===== src/Services/Hash.antt =====
-- The hash of an upload: src/services/hash.rs. SHA-256 and hexadecimal are libraries, and a
-- parameter; `decode-encode` is that of the `hex` crate.
use pactum_codex.Base.{ℕ, ◌≡◌, Option, none, some, List, bytes_eq, if◌then◌else◌}
use pactum_codex.Error.{AppError}
use pactum_codex.State.World.{Result, ok, err}

pub record HashLibrary : Type 0 where
  pub sha256 : List ℕ → List ℕ
  pub hex_encode : List ℕ → List ℕ
  pub hex_decode : List ℕ → Option (List ℕ)
  pub decode-encode : (bytes : List ℕ) → hex_decode (hex_encode bytes) ≡ some bytes

module _ (lib : HashLibrary) where
  abbrev pub compute_sha256 : List ℕ → List ℕ
  compute_sha256 bytes = lib.sha256 bytes

  unfoldable pub verify_client_hash : List ℕ → List ℕ → Result (List ℕ)
  verify_client_hash file_bytes client_hash_hex = elim (lib.hex_decode client_hash_hex) [
    | none ↦ err AppError.invalid_hash
    | some client_hash ↦
        if bytes_eq (compute_sha256 file_bytes) client_hash
        then ok (compute_sha256 file_bytes)
        else err AppError.hash_mismatch
  ]
