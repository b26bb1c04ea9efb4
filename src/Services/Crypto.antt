-- ===== src/Services/Crypto.antt =====
-- Encryption and blind indexes: src/services/crypto.rs. AES-256-GCM and HMAC-SHA256 are a parameter,
-- with the law that decryption undoes encryption; a text is the list of its characters.
pub mod Tests
use pactum_codex.Base.{ℕ, ◌≡◌, refl, arith, List, Option, Option-cases, inl, inr, some, none}
use pactum_codex.Error.{AppError}
use pactum_codex.State.World.{World, Result, ok, err, OnOk, M, ◌>>=◌, pure, fresh, ok_or}

pub record Cipher : Type 0 where
  pub seal : ℕ → ℕ → List ℕ → Option ℕ
  pub open_ : ℕ → ℕ → ℕ → Option (List ℕ)
  pub hmac : ℕ → List ℕ → ℕ
  pub open-seal :
      (key nonce box : ℕ) (plaintext : List ℕ)
      → seal key nonce plaintext ≡ some box
      → open_ key nonce box ≡ some plaintext

module _ (cipher : Cipher) where
  -- The ciphertext and the nonce that was drawn.
  unfoldable pub encrypt : List ℕ → ℕ → M (ℕ × ℕ)
  encrypt plaintext key = do
    nonce ← fresh
    ciphertext ← ok_or (cipher.seal key nonce plaintext) AppError.encryption_failed
    pure (ciphertext, nonce)

  unfoldable pub decrypt : ℕ → ℕ → ℕ → Result (List ℕ)
  decrypt ciphertext nonce key = elim (cipher.open_ key nonce ciphertext) [
    | none ↦ err AppError.decryption_failed
    | some plaintext ↦ ok plaintext
  ]

  abbrev pub hmac_index : List ℕ → ℕ → ℕ
  hmac_index value key = cipher.hmac key value

  -- What `encrypt` returns, `decrypt` reads back under the same key.
  pub decrypt-encrypt :
      (plaintext : List ℕ) (key : ℕ) (w : World)
      → OnOk (encrypt plaintext key w).0 (λ c. decrypt c.0 c.1 key ≡ ok plaintext)
  unfolding encrypt decrypt
  decrypt-encrypt plaintext key w = elim (Option-cases (cipher.seal key (w.supply 0) plaintext)) [
    | inl e ↦ rw e tt
    | inr (c, e) ↦ ground (arith, cipher.open-seal key (w.supply 0) c plaintext e)
  ]
