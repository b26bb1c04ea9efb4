-- ===== src/Handlers/Agreement/Onchain.antt =====
-- The handlers of src/handlers/agreement.rs for an agreement that is on chain. What the node replies
-- stands for the data of an account; the SDK and borsh, which read it, are a parameter.
use pactum_codex.Base.{
  ℕ, ◌+◌, Bool, false, ◌&&◌, not, String, Option, none, some, List, ◌==◌, ltb, is_some, exists,
  find, length, drop,
}
use pactum_codex.Error.{AppError}
use pactum_codex.State.Rows.{Db}
use pactum_codex.State.World.{M, ◌>>=◌, ◌>>◌, pure, ok_or, guard, fetch, call_rpc}
use pactum_codex.Handlers.Auth.{SolanaSdk, AuthUserWithWallet}
use pactum_codex.Services.Solana.{
  Seed, StorageBackend, AgreementStatus, AgreementStateWire, Transaction,
}
use pactum_codex.Services.Solana.Builders.{
  build_sign_agreement_tx, build_cancel_agreement_tx, build_vote_revoke_tx,
  build_retract_revoke_vote_tx,
}

pub record SignAgreementResponse : Type 0 where
  pub transaction : Transaction
  pub suggest_email : Bool

pub record GetAgreementResponse : Type 0 where
  pub creator : ℕ
  pub agreement_id : ℕ
  pub title : String
  pub storage_uri : String
  pub storage_backend : String
  pub status : String
  pub created_at : ℕ
  pub expires_at : ℕ
  pub parties : List ℕ
  pub signed_by : List ℕ

-- The data of an account, and borsh's `try_from_slice` for an agreement.
pub record AccountReader : Type 0 where
  pub data_of : ℕ → List ℕ
  pub try_from_slice : List ℕ → Option AgreementStateWire

abbrev pub contains_pubkey_bytes : List ℕ → ℕ → Bool
contains_pubkey_bytes pubkeys pubkey = exists (λ candidate. candidate == pubkey) pubkeys

unfoldable pub is_final_signature : ℕ → ℕ → Bool → Bool
is_final_signature parties_len signed_by_len signer_already_signed =
    parties_len == signed_by_len + 1 && not signer_already_signed

abbrev pub agreement_status_to_string : AgreementStatus → String
agreement_status_to_string AgreementStatus.draft = "draft"
agreement_status_to_string AgreementStatus.pending_signatures = "pending_signatures"
agreement_status_to_string AgreementStatus.completed = "completed"
agreement_status_to_string AgreementStatus.cancelled = "cancelled"
agreement_status_to_string AgreementStatus.expired = "expired"
agreement_status_to_string AgreementStatus.revoked = "revoked"

abbrev pub storage_backend_to_string : StorageBackend → String
storage_backend_to_string StorageBackend.ipfs = "ipfs"
storage_backend_to_string StorageBackend.arweave = "arweave"

-- `matches!(email_enc, Some(Some(_)))`
abbrev pub has_email : ℕ → Db → Bool
has_email user db = elim (find (λ c. c.user_id == user) db.user_contacts) [
  | none ↦ false
  | some c ↦ is_some c.email_enc
]

module _ (sdk : SolanaSdk) (reader : AccountReader) (find_program_address : List Seed → ℕ)
    (mpl_core_program_id : ℕ) (vault : ℕ) where
  -- The account of the agreement, after its discriminator of 8 bytes.
  unfoldable pub read_agreement : ℕ → AppError → M AgreementStateWire
  read_agreement pda e = do
    reply ← call_rpc e
    guard (not (ltb (length (reader.data_of reply)) 8)) e
    ok_or (reader.try_from_slice (drop 8 (reader.data_of reply))) e

  unfoldable pub sign_agreement : AuthUserWithWallet → ℕ → Option String → M SignAgreementResponse
  sign_agreement auth pda metadata_uri = do
    pda_pubkey ← ok_or (sdk.parse_pubkey pda) AppError.internal_error
    signer ← ok_or (sdk.parse_pubkey auth.pubkey) AppError.internal_error
    agreement ← read_agreement pda_pubkey AppError.internal_error
    guard (contains_pubkey_bytes agreement.parties signer) AppError.unauthorized
    guard
        (not (
          is_final_signature (length agreement.parties) (length agreement.signed_by)
            (contains_pubkey_bytes agreement.signed_by signer)
          && not (is_some metadata_uri)))
        AppError.internal_error
    transaction ←
        build_sign_agreement_tx find_program_address mpl_core_program_id agreement.creator
          agreement.agreement_id signer metadata_uri agreement.vault_funder
    has_contact ← fetch (has_email auth.user_id)
    pure (record { transaction = transaction; suggest_email = not has_contact })

  -- The transaction and the address of the answer.
  unfoldable pub cancel_agreement : AuthUserWithWallet → ℕ → M (Transaction × ℕ)
  cancel_agreement auth pda = do
    pda_pubkey ← ok_or (sdk.parse_pubkey pda) AppError.internal_error
    canceller ← ok_or (sdk.parse_pubkey auth.pubkey) AppError.internal_error
    agreement ← read_agreement pda_pubkey AppError.internal_error
    guard (canceller == agreement.creator) AppError.unauthorized
    transaction ←
        build_cancel_agreement_tx find_program_address mpl_core_program_id agreement.creator
          agreement.agreement_id canceller vault
    pure (transaction, pda)

  unfoldable pub vote_revoke : AuthUserWithWallet → ℕ → M (Transaction × ℕ)
  vote_revoke auth pda = do
    pda_pubkey ← ok_or (sdk.parse_pubkey pda) AppError.internal_error
    voter ← ok_or (sdk.parse_pubkey auth.pubkey) AppError.internal_error
    agreement ← read_agreement pda_pubkey AppError.internal_error
    guard (contains_pubkey_bytes agreement.parties voter) AppError.unauthorized
    nft_asset ← ok_or agreement.nft_asset AppError.internal_error
    transaction ←
        build_vote_revoke_tx find_program_address mpl_core_program_id agreement.creator
          agreement.agreement_id voter nft_asset vault
    pure (transaction, pda)

  unfoldable pub retract_revoke_vote : AuthUserWithWallet → ℕ → M (Transaction × ℕ)
  retract_revoke_vote auth pda = do
    pda_pubkey ← ok_or (sdk.parse_pubkey pda) AppError.internal_error
    voter ← ok_or (sdk.parse_pubkey auth.pubkey) AppError.internal_error
    agreement ← read_agreement pda_pubkey AppError.internal_error
    guard (contains_pubkey_bytes agreement.parties voter) AppError.unauthorized
    transaction ←
        build_retract_revoke_vote_tx find_program_address mpl_core_program_id agreement.creator
          agreement.agreement_id voter vault
    pure (transaction, pda)

  unfoldable pub get_agreement : ℕ → M GetAgreementResponse
  get_agreement pda = do
    pda_pubkey ← ok_or (sdk.parse_pubkey pda) AppError.internal_error
    agreement ← read_agreement pda_pubkey AppError.not_found
    pure (record {
      creator = agreement.creator;
      agreement_id = agreement.agreement_id;
      title = agreement.title;
      storage_uri = agreement.storage_uri;
      storage_backend = storage_backend_to_string agreement.storage_backend;
      status = agreement_status_to_string agreement.status;
      created_at = agreement.created_at;
      expires_at = agreement.expires_at;
      parties = agreement.parties;
      signed_by = agreement.signed_by;
    })
