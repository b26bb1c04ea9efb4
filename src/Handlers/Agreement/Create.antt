-- ===== src/Handlers/Agreement/Create.antt =====
-- The handler `create_agreement` of src/handlers/agreement.rs, after the loop over the parties.
use pactum_codex.Base.{ℕ, ◌+◌, true, false, ◌&&◌, Option, none, List, [], ◌∷◌, ◌++◌}
use pactum_codex.Error.{AppError}
use pactum_codex.Config.{Config}
use pactum_codex.State.Rows.{Draft, DraftPartyEntry, DraftStatus}
use pactum_codex.State.World.{
  M, Void, ◌>>=◌, ◌>>◌, pure, ok_or, choose, now, fresh, fetch, insert_unique, lift,
}
use pactum_codex.Handlers.Auth.{AuthUserWithWallet, SolanaSdk}
use pactum_codex.Base.{zero, suc, exists}
use pactum_codex.Services.Crypto.{Cipher}
use pactum_codex.Handlers.Payment.{has_draft_id, free_used_by, within_free_tier}
use pactum_codex.Handlers.Draft.{new_invitation, insert_party_invitation, try_i64}
use pactum_codex.Handlers.Draft.Submit.{as_i64, resolved_keys}
use pactum_codex.Services.Solana.{
  Seed, StorageBackend, build_create_agreement_tx, derive_agreement_pda,
}
use pactum_codex.Handlers.Agreement.{
  awaiting_party_wallets, submitted, CreateAgreementRequest, CreateAgreementResponse,
  InvitationInsertRow, PendingInvitation, Slots, add_parties, validate_invite_window,
}

abbrev pub new_draft : ℕ → ℕ → CreateAgreementRequest → List DraftPartyEntry → Draft
new_draft id creator req slots = record {
  id = id;
  creator_pubkey = creator;
  draft_payload = record {
    title = req.title;
    expires_in_secs = req.expires_in_secs;
    parties = slots;
  };
  party_slots = slots;
  status = DraftStatus.awaiting_party_wallets;
  ready_at = none;
  paid = false;
  storage_uri = none;
  storage_uploaded = false;
  agreement_pda = none;
  agreement_id = none;
}

-- The loop that inserts the invitations, one statement each.
unfoldable pub insert_invitations : ℕ → List InvitationInsertRow → M Void
insert_invitations draft_id [] = pure tt
insert_invitations draft_id (r ∷ rs) = do
  insert_party_invitation (
      new_invitation r.id draft_id r.email_index r.email_enc r.email_nonce r.token r.invited_at
        r.expires_at)
  insert_invitations draft_id rs

abbrev pub pending_invitations : List InvitationInsertRow → List PendingInvitation
pending_invitations [] = []
pending_invitations (r ∷ rs) =
    record { email_hint = r.email_hint; invited_at = r.invited_at } ∷ pending_invitations rs

-- The branch that saves a draft. The database draws its id.
unfoldable pub save_draft :
    AuthUserWithWallet → CreateAgreementRequest → Slots → M CreateAgreementResponse
save_draft auth req s = do
  draft_id ← fresh
  insert_unique (λ db. exists (has_draft_id draft_id) db.agreement_drafts)
      (λ db. record db {
        agreement_drafts =
            db.agreement_drafts ++ new_draft draft_id auth.pubkey req s.party_slots ∷ [];
      })
  insert_invitations draft_id s.invitation_rows
  pure (awaiting_party_wallets draft_id (pending_invitations s.invitation_rows))

-- 32 zero bytes
abbrev pub zero_hash : ℕ → List ℕ
zero_hash zero = []
zero_hash (suc n) = 0 ∷ zero_hash n

module _ (sdk : SolanaSdk) (find_program_address : List Seed → ℕ) (vault : ℕ) where
  -- The branch that submits at once.
  unfoldable pub submit_now :
      AuthUserWithWallet → CreateAgreementRequest → Slots → M CreateAgreementResponse
  submit_now auth req s = do
    creator_pubkey ← ok_or (sdk.parse_pubkey auth.pubkey) AppError.internal_error
    agreement_id ← fresh
    transaction ←
        build_create_agreement_tx find_program_address vault
          (record {
            agreement_id = agreement_id;
            title = req.title;
            content_hash = zero_hash 32;
            storage_uri = "ipfs://placeholder";
            storage_backend = StorageBackend.ipfs;
            parties = resolved_keys sdk.parse_pubkey s.party_slots;
            expires_in_secs = as_i64 req.expires_in_secs;
          })
          creator_pubkey
    pure (
        submitted transaction
          (derive_agreement_pda find_program_address creator_pubkey agreement_id))

  -- The part after the loop.
  unfoldable pub answer_request :
      Config → AuthUserWithWallet → CreateAgreementRequest → ℕ → Slots → M CreateAgreementResponse
  answer_request config auth req free_used s =
      choose (s.all_parties_resolved && within_free_tier free_used config.platform_fee_free_tier)
        (submit_now auth req s) (save_draft auth req s)

  -- The part after the keys are decoded.
  unfoldable pub create_with_keys :
      Cipher
      → Config
      → AuthUserWithWallet
      → CreateAgreementRequest
      → ℕ
      → ℕ
      → M CreateAgreementResponse
  create_with_keys cipher config auth req key index_key = do
    free_used ← fetch (free_used_by auth.user_id)
    invited_at ← now
    window ← try_i64 config.invite_expiry_seconds
    s ←
        add_parties cipher key index_key invited_at (invited_at + window)
          (record { all_parties_resolved = true; party_slots = []; invitation_rows = [] })
          req.parties
    answer_request config auth req free_used s

  -- The keys are decoded from the configuration by `decode_hex_key`.
  unfoldable pub create_agreement :
      Cipher
      → (ℕ → Option ℕ)
      → Config
      → AuthUserWithWallet
      → CreateAgreementRequest
      → M CreateAgreementResponse
  create_agreement cipher decode_hex_key config auth req = do
    lift (validate_invite_window config.invite_expiry_seconds req.expires_in_secs)
    key ← ok_or (decode_hex_key config.encryption_key) AppError.internal_error
    index_key ← ok_or (decode_hex_key config.encryption_index_key) AppError.internal_error
    create_with_keys cipher config auth req key index_key
