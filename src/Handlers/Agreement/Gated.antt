-- ===== src/Handlers/Agreement/Gated.antt =====
-- Who may act on an agreement that is on chain: the handlers of Handlers/Agreement/Onchain.
use pactum_codex.Base.{
  ℕ, ◌≡◌, arith, String, Option, List, ◌==◌, ◌&&◌, not, true, false, is_some, length, drop, exists,
  map, [], ◌∷◌,
}
use pactum_codex.State.World.{World, OnOk, Finds}
use pactum_codex.Handlers.Auth.{SolanaSdk, AuthUserWithWallet}
use pactum_codex.Services.Solana.{Seed, AgreementStateWire, Transaction, derive_agreement_pda}
use pactum_codex.Services.Solana.Builders.{
  assemble, sign_agreement_accounts, build_sign_agreement_tx, build_cancel_agreement_tx,
  build_vote_revoke_tx, build_retract_revoke_vote_tx,
}
use pactum_codex.Handlers.Agreement.Onchain.{
  AccountReader, SignAgreementResponse, contains_pubkey_bytes, is_final_signature, read_agreement,
  sign_agreement, cancel_agreement, vote_revoke, retract_revoke_vote,
}

-- The caller's key, and the agreement that the node's next reply holds, have the property.
abbrev pub Reads :
    SolanaSdk → AccountReader → ℕ → World → (ℕ → AgreementStateWire → Type 0) → Type 0
Reads sdk reader pubkey w P = Finds (sdk.parse_pubkey pubkey) (λ caller.
    Finds (w.rpc 0)
      (λ reply. Finds (reader.try_from_slice (drop 8 (reader.data_of reply))) (P caller)))

-- The account is among those that the transaction names, to be written.
abbrev pub Names : Transaction → ℕ → Type 0
Names t account = exists (λ a. a.pubkey == account && a.is_writable) t.accounts ≡ true

-- What each handler has checked of the caller and the agreement, and what its transaction names.
abbrev pub Signs :
    (List Seed → ℕ) → ℕ → Option String → SignAgreementResponse → ℕ → AgreementStateWire → Type 0
Signs find_program_address mpl_core_program_id metadata_uri x caller a =
    (contains_pubkey_bytes a.parties caller ≡ true)
    × ((is_final_signature (length a.parties) (length a.signed_by)
            (contains_pubkey_bytes a.signed_by caller)
          && not (is_some metadata_uri))
        ≡ false)
    × (x.transaction.accounts
        ≡ sign_agreement_accounts find_program_address mpl_core_program_id a.creator a.agreement_id
            caller a.vault_funder)

abbrev pub Cancels : (List Seed → ℕ) → Transaction → ℕ → AgreementStateWire → Type 0
Cancels find_program_address t caller a =
    ((caller == a.creator) ≡ true)
    × Names t (derive_agreement_pda find_program_address a.creator a.agreement_id)

abbrev pub Votes : (List Seed → ℕ) → Transaction → ℕ → AgreementStateWire → Type 0
Votes find_program_address t caller a =
    (contains_pubkey_bytes a.parties caller ≡ true)
    × Finds a.nft_asset (Names t)
    × Names t (derive_agreement_pda find_program_address a.creator a.agreement_id)

module _ (sdk : SolanaSdk) (reader : AccountReader) (find_program_address : List Seed → ℕ)
    (mpl_core_program_id : ℕ) (vault : ℕ) where
  sign_gated :
      (auth : AuthUserWithWallet) (pda : ℕ) (metadata_uri : Option String) (w : World)
      → let (r, w') =
          sign_agreement sdk reader find_program_address mpl_core_program_id vault auth pda
            metadata_uri w in
        OnOk r (λ x.
          Reads sdk reader auth.pubkey w
            (Signs find_program_address mpl_core_program_id metadata_uri x))
        × (w'.db ≡ w.db)
  unfolding sign_agreement read_agreement build_sign_agreement_tx assemble
  sign_gated auth pda metadata_uri w = (ground arith, ground arith)

  cancel_gated :
      (auth : AuthUserWithWallet) (pda : ℕ) (w : World)
      → let (r, w') =
          cancel_agreement sdk reader find_program_address mpl_core_program_id vault auth pda w in
        OnOk r (λ x. Reads sdk reader auth.pubkey w (Cancels find_program_address x.0))
        × (w'.db ≡ w.db)
  unfolding cancel_agreement read_agreement build_cancel_agreement_tx assemble
  cancel_gated auth pda w = (ground arith, ground arith)

  vote_gated :
      (auth : AuthUserWithWallet) (pda : ℕ) (w : World)
      → let (r, w') =
          vote_revoke sdk reader find_program_address mpl_core_program_id vault auth pda w in
        OnOk r (λ x. Reads sdk reader auth.pubkey w (Votes find_program_address x.0))
        × (w'.db ≡ w.db)
  unfolding vote_revoke read_agreement build_vote_revoke_tx assemble
  vote_gated auth pda w = (ground arith, ground arith)

  -- The three handlers that prepare a transaction on an agreement, at one caller, address and world:
  -- `sign_agreement` succeeds only for a party, and for the last signature only with the address of
  -- the metadata; `cancel_agreement` only for the creator; `vote_revoke` only for a party of an
  -- agreement with a credential. Each transaction names the agreement's account, as it is derived
  -- from the creator and the id that the chain holds; no handler changes a table.
  pub sign_cancel_vote_gated :
      (auth : AuthUserWithWallet) (pda : ℕ) (metadata_uri : Option String) (w : World)
      → let (signed, w₁) =
          sign_agreement sdk reader find_program_address mpl_core_program_id vault auth pda
            metadata_uri w in
        let (cancelled, w₂) =
          cancel_agreement sdk reader find_program_address mpl_core_program_id vault auth pda w in
        let (voted, w₃) =
          vote_revoke sdk reader find_program_address mpl_core_program_id vault auth pda w in
        OnOk signed (λ x.
          Reads sdk reader auth.pubkey w
            (Signs find_program_address mpl_core_program_id metadata_uri x))
        × OnOk cancelled (λ x. Reads sdk reader auth.pubkey w (Cancels find_program_address x.0))
        × OnOk voted (λ x. Reads sdk reader auth.pubkey w (Votes find_program_address x.0))
        × ((w₁.db ≡ w.db) × (w₂.db ≡ w.db) × (w₃.db ≡ w.db))
  sign_cancel_vote_gated auth pda metadata_uri w =
      let s = sign_gated auth pda metadata_uri w in
      let c = cancel_gated auth pda w in
      let v = vote_gated auth pda w in (s.0, c.0, v.0, (s.1, c.1, v.1))

  -- A vote that is taken back is a party's, and its transaction names three accounts: the vault, the
  -- voter, and the address that is derived from the voter, whoever the agreement's creator is.
  pub retract_revoke_vote_elsewhere :
      (auth : AuthUserWithWallet) (pda : ℕ) (w : World)
      → let r =
          (retract_revoke_vote sdk reader find_program_address mpl_core_program_id vault auth pda
            w).0 in
        OnOk r (λ x. Reads sdk reader auth.pubkey w (λ caller a.
          (contains_pubkey_bytes a.parties caller ≡ true)
          × (map (λ c. c.pubkey) x.0.accounts
              ≡ vault
                ∷ caller
                ∷ derive_agreement_pda find_program_address caller a.agreement_id
                ∷ [])))
  unfolding retract_revoke_vote read_agreement build_retract_revoke_vote_tx assemble
  retract_revoke_vote_elsewhere auth pda w = ground arith
