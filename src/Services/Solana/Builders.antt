-- ===== src/Services/Solana/Builders.antt =====
-- The other transactions of src/services/solana.rs, for an agreement that is on chain.
use pactum_codex.Base.{ℕ, String, Bool, true, false, Option, List, [], ◌∷◌}
use pactum_codex.Error.{AppError}
use pactum_codex.State.World.{M, ◌>>=◌, pure, call_rpc}
use pactum_codex.Services.Solana.{
  Seed, text, key, AccountMeta, InstructionData, sign_agreement, cancel_agreement, expire_agreement,
  vote_revoke, retract_revoke_vote, initialize_collection, Transaction, system_program_id,
  derive_agreement_pda, derive_collection_state_pda,
}

-- `AccountMeta::new` and `AccountMeta::new_readonly`
abbrev pub writable : ℕ → Bool → AccountMeta
writable pubkey is_signer = record { pubkey = pubkey; is_signer = is_signer; is_writable = true }

abbrev pub readonly : ℕ → Bool → AccountMeta
readonly pubkey is_signer = record { pubkey = pubkey; is_signer = is_signer; is_writable = false }

-- The message of one instruction with its fee payer and the blockhash, with what has been signed.
unfoldable pub assemble : InstructionData → List AccountMeta → ℕ → List ℕ → M Transaction
assemble data_ accounts payer signed_by = do
  recent_blockhash ← call_rpc AppError.solana_rpc_error
  pure (record {
    data_ = data_;
    accounts = accounts;
    payer = payer;
    signed_by = signed_by;
    recent_blockhash = recent_blockhash;
  })

module _ (find_program_address : List Seed → ℕ) (mpl_core_program_id : ℕ) where
  abbrev pub derive_pda_authority : ℕ → ℕ
  derive_pda_authority vault_funder =
      find_program_address (text "mint_authority" ∷ text "v1" ∷ key vault_funder ∷ [])

  abbrev pub sign_agreement_accounts : ℕ → ℕ → ℕ → ℕ → List AccountMeta
  sign_agreement_accounts creator agreement_id signer vault_funder =
      writable vault_funder true
      ∷ writable signer true
      ∷ readonly creator false
      ∷ writable (derive_agreement_pda find_program_address creator agreement_id) false
      ∷ readonly (derive_pda_authority vault_funder) false
      ∷ readonly mpl_core_program_id false
      ∷ readonly system_program_id false
      ∷ []

  -- Unsigned: the party pays and signs.
  unfoldable pub build_sign_agreement_tx : ℕ → ℕ → ℕ → Option String → ℕ → M Transaction
  build_sign_agreement_tx creator agreement_id signer metadata_uri vault_funder =
      assemble (sign_agreement metadata_uri)
        (sign_agreement_accounts creator agreement_id signer vault_funder) signer []

  -- `vault` is the key of the vault's key pair, which signs the others in part.
  unfoldable pub build_cancel_agreement_tx : ℕ → ℕ → ℕ → ℕ → M Transaction
  build_cancel_agreement_tx creator agreement_id canceller vault =
      assemble cancel_agreement
        (writable vault true
          ∷ readonly canceller true
          ∷ writable (derive_agreement_pda find_program_address creator agreement_id) false
          ∷ readonly system_program_id false
          ∷ [])
        vault (vault ∷ [])

  unfoldable pub build_expire_agreement_tx : ℕ → ℕ → ℕ → M Transaction
  build_expire_agreement_tx creator agreement_id vault =
      assemble expire_agreement
        (writable vault true
          ∷ writable (derive_agreement_pda find_program_address creator agreement_id) false
          ∷ readonly creator false
          ∷ readonly system_program_id false
          ∷ [])
        vault (vault ∷ [])

  unfoldable pub build_vote_revoke_tx : ℕ → ℕ → ℕ → ℕ → ℕ → M Transaction
  build_vote_revoke_tx creator agreement_id voter nft_asset vault =
      assemble vote_revoke
        (writable vault true
          ∷ writable voter true
          ∷ readonly creator false
          ∷ writable (derive_agreement_pda find_program_address creator agreement_id) false
          ∷ writable nft_asset false
          ∷ readonly (derive_pda_authority vault) false
          ∷ readonly mpl_core_program_id false
          ∷ readonly system_program_id false
          ∷ [])
        vault (vault ∷ [])

  -- The creator is an argument that is not used: the address is derived from the voter.
  unfoldable pub build_retract_revoke_vote_tx : ℕ → ℕ → ℕ → ℕ → M Transaction
  build_retract_revoke_vote_tx creator agreement_id voter vault =
      assemble retract_revoke_vote
        (writable vault true
          ∷ writable voter true
          ∷ writable (derive_agreement_pda find_program_address voter agreement_id) false
          ∷ [])
        vault (vault ∷ [])

  unfoldable pub build_initialize_collection_tx : ℕ → ℕ → String → String → ℕ → M Transaction
  build_initialize_collection_tx creator collection_asset name uri vault =
      assemble (initialize_collection name uri)
        (writable vault true
          ∷ readonly creator true
          ∷ writable collection_asset true
          ∷ writable (derive_collection_state_pda find_program_address creator) false
          ∷ readonly (derive_pda_authority vault) false
          ∷ readonly mpl_core_program_id false
          ∷ readonly system_program_id false
          ∷ [])
        vault (vault ∷ [])
