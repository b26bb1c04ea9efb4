-- ===== src/Services/Solana.antt =====
-- The transactions for the on-chain program: src/services/solana.rs and src/solana_types.rs. A
-- transaction is the record that borsh, bincode and base64 turn into text. The derivation of a
-- program address is the Solana SDK's, and a parameter.
pub mod Builders
use pactum_codex.Base.{Option, ℕ, ◌+◌, ◌%◌, ◌^◌, ℤ, String, Bool, true, false, List, [], ◌∷◌}
use pactum_codex.Error.{AppError}
use pactum_codex.State.World.{M, ◌>>=◌, pure, call_rpc}

pub data Seed : Type 0 where
  text : String → Seed
  key : ℕ → Seed

pub data StorageBackend : Type 0 where
  ipfs arweave : StorageBackend

pub record CreateAgreementArgs : Type 0 where
  pub agreement_id : ℕ
  pub title : String
  pub content_hash : List ℕ
  pub storage_uri : String
  pub storage_backend : StorageBackend
  pub parties : List ℕ
  pub expires_in_secs : ℤ

pub record AccountMeta : Type 0 where
  pub pubkey : ℕ
  pub is_signer : Bool
  pub is_writable : Bool

-- `AgreementStatus` and `AgreementStateWire`, the account of an agreement.
pub data AgreementStatus : Type 0 where
  draft pending_signatures completed cancelled expired revoked : AgreementStatus

pub record AgreementStateWire : Type 0 where
  pub creator : ℕ
  pub agreement_id : ℕ
  pub title : String
  pub storage_uri : String
  pub storage_backend : StorageBackend
  pub parties : List ℕ
  pub signed_by : List ℕ
  pub status : AgreementStatus
  pub created_at : ℕ
  pub expires_at : ℕ
  pub nft_asset : Option ℕ
  pub vault_funder : ℕ

-- The discriminator and the arguments of an instruction.
pub data InstructionData : Type 0 where
  create_agreement : CreateAgreementArgs → InstructionData
  sign_agreement : Option String → InstructionData
  cancel_agreement expire_agreement vote_revoke retract_revoke_vote : InstructionData
  initialize_collection : String → String → InstructionData

pub record Transaction : Type 0 where
  pub data_ : InstructionData
  pub accounts : List AccountMeta
  pub payer : ℕ
  pub signed_by : List ℕ
  pub recent_blockhash : ℕ

abbrev pub vault_buffer : ℕ
vault_buffer = 10000000

abbrev pub system_program_id : ℕ
system_program_id = 0

unfoldable pub calculate_vault_deposit : M ℕ
calculate_vault_deposit = do
  rent_exempt ← call_rpc AppError.internal_error
  pure ((rent_exempt + vault_buffer) % 2 ^ 64)

module _ (find_program_address : List Seed → ℕ) where
  abbrev pub derive_agreement_pda : ℕ → ℕ → ℕ
  derive_agreement_pda creator agreement_id =
      find_program_address (text "agreement" ∷ key creator ∷ key agreement_id ∷ [])

  abbrev pub derive_collection_state_pda : ℕ → ℕ
  derive_collection_state_pda creator = find_program_address (text "collection" ∷ key creator ∷ [])

  abbrev pub create_agreement_accounts : ℕ → ℕ → ℕ → List AccountMeta
  create_agreement_accounts vault creator agreement_id =
      record { pubkey = vault; is_signer = true; is_writable = true }
      ∷ record { pubkey = creator; is_signer = true; is_writable = false }
      ∷ record {
        pubkey = derive_collection_state_pda creator;
        is_signer = false;
        is_writable = true;
      }
      ∷ record {
        pubkey = derive_agreement_pda creator agreement_id;
        is_signer = false;
        is_writable = true;
      }
      ∷ record { pubkey = system_program_id; is_signer = false; is_writable = false }
      ∷ []

  -- The deposit is computed and then dropped, as in the source.
  unfoldable pub build_create_agreement_tx : ℕ → CreateAgreementArgs → ℕ → M Transaction
  build_create_agreement_tx vault args creator = do
    vault_deposit ← calculate_vault_deposit
    recent_blockhash ← call_rpc AppError.solana_rpc_error
    pure (record {
      data_ = create_agreement args;
      accounts = create_agreement_accounts vault creator args.agreement_id;
      payer = vault;
      signed_by = vault ∷ [];
      recent_blockhash = recent_blockhash;
    })
