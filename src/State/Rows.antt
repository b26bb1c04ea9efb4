-- ===== src/State/Rows.antt =====
-- The tables of migrations/*.sql: a row is a record of the columns that the modelled code
-- reads or writes, a table is the list of its rows. An identifier (UUID, public key, address, token, hash,
-- ciphertext) is only compared and copied, so it is a number; a nullable column is an `Option`; a
-- status column holds one of the texts that some statement writes to it, so it is an enumeration.
use pactum_codex.Base.{ℕ, String, Bool, Option, List, all, exists, ◌&&◌}
use text.Mathlib.Text.{◌==◌ as str_eq}

pub record Account : Type 0 where
  pub id : ℕ
  pub display_name : Option (List ℕ)

pub record Nonce : Type 0 where
  pub nonce : ℕ
  pub created_at : ℕ

pub record RefreshToken : Type 0 where
  pub token_hash : ℕ
  pub user_id : ℕ
  pub created_at : ℕ
  pub expires_at : ℕ

pub record Wallet : Type 0 where
  pub user_id : ℕ
  pub pubkey : ℕ

pub data OAuthProvider : Type 0 where
  google microsoft : OAuthProvider

pub record OauthLink : Type 0 where
  pub user_id : ℕ
  pub provider : OAuthProvider
  pub provider_id : ℕ

pub record Contact : Type 0 where
  pub user_id : ℕ
  pub email_enc : Option ℕ
  pub email_nonce : Option ℕ
  pub email_index : Option ℕ
  pub phone_enc : Option ℕ
  pub phone_nonce : Option ℕ
  pub push_token_enc : Option ℕ
  pub push_token_nonce : Option ℕ

-- One element of the JSON array `party_slots`.
pub record DraftPartyEntry : Type 0 where
  pub pubkey : Option ℕ
  pub invite_id : Option ℕ

pub record DraftPayload : Type 0 where
  pub title : String
  pub expires_in_secs : ℕ
  pub parties : List DraftPartyEntry

pub data DraftStatus : Type 0 where
  awaiting_party_wallets ready_to_submit discarded : DraftStatus

pub record Draft : Type 0 where
  pub id : ℕ
  pub creator_pubkey : ℕ
  pub draft_payload : DraftPayload
  pub party_slots : List DraftPartyEntry
  pub status : DraftStatus
  pub ready_at : Option ℕ
  pub paid : Bool
  pub storage_uri : Option String
  pub storage_uploaded : Bool
  pub agreement_pda : Option ℕ
  pub agreement_id : Option ℕ

pub data InvitationStatus : Type 0 where
  pending accepted expired : InvitationStatus

pub record Invitation : Type 0 where
  pub id : ℕ
  pub draft_id : ℕ
  pub invited_email_index : ℕ
  pub invited_email_enc : ℕ
  pub invited_email_nonce : ℕ
  pub token : ℕ
  pub status : InvitationStatus
  pub reminder_sent_at : Option ℕ
  pub reminder_count : ℕ
  pub created_at : ℕ
  pub expires_at : ℕ

pub data PaymentStatus : Type 0 where
  pending confirmed expired refund_pending refunded : PaymentStatus

pub record Payment : Type 0 where
  pub id : ℕ
  pub draft_id : ℕ
  pub method : String
  pub status : PaymentStatus
  pub token_reference_pubkey : Option ℕ
  pub token_mint : Option ℕ
  pub token_amount : Option ℕ
  pub token_tx_signature : Option ℕ
  pub refund_amount : Option ℕ
  pub refund_tx_signature : Option ℕ
  pub refund_initiated_at : Option ℕ
  pub refund_completed_at : Option ℕ
  pub created_at : ℕ
  pub confirmed_at : Option ℕ
  pub agreement_pda : Option ℕ

pub record AgreementCount : Type 0 where
  pub user_id : ℕ
  pub free_used : ℕ

pub data PartyStatus : Type 0 where
  pending_signatures expiring cancelled expired : PartyStatus

pub record Party : Type 0 where
  pub party_pubkey : ℕ
  pub agreement_pda : ℕ
  pub creator_pubkey : ℕ
  pub status : PartyStatus
  pub signed_at : Option ℕ
  pub created_at : ℕ
  pub expires_at : ℕ

pub data JobStatus : Type 0 where
  pending sent : JobStatus

pub record NotificationJob : Type 0 where
  pub id : ℕ
  pub event_type : String
  pub agreement_pda : Option ℕ
  pub recipient_pubkey : ℕ
  pub scheduled_at : ℕ
  pub status : JobStatus
  pub attempts : ℕ

pub record Db : Type 0 where
  pub user_accounts : List Account
  pub siws_nonces : List Nonce
  pub refresh_tokens : List RefreshToken
  pub auth_wallet : List Wallet
  pub auth_oauth : List OauthLink
  pub user_contacts : List Contact
  pub agreement_drafts : List Draft
  pub party_invitations : List Invitation
  pub agreement_payments : List Payment
  pub user_agreement_counts : List AgreementCount
  pub agreement_parties : List Party
  pub notification_queue : List NotificationJob
  pub last_sweep_at : ℕ

-- The columns of a table, and those that an INSERT must give: NOT NULL with no default.
pub record Shape : Type 0 where
  pub columns : List String
  pub required : List String

abbrev pub knows : List String → String → Bool
knows cs c = exists (λ d. str_eq d c) cs

-- An UPDATE that sets a column which the table lacks is an error of the database.
abbrev pub accepts_update : Shape → List String → Bool
accepts_update s cs = all (knows s.columns) cs

-- So is such an INSERT, and one that leaves a required column out.
abbrev pub accepts_insert : Shape → List String → Bool
accepts_insert s cs = all (knows s.columns) cs && all (knows cs) s.required

-- The shapes of the two tables that a statement of the program does not fit.
pub record Schema : Type 0 where
  pub agreement_payments : Shape
  pub notification_queue : Shape
