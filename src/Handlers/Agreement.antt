-- ===== src/Handlers/Agreement.antt =====
-- Agreements: src/handlers/agreement.rs. A draft is made of a request with parties given by key or by
-- email. The blind index and the encryption of an email are those of Services/Crypto.
pub mod Create
pub mod Onchain
pub mod Gated
pub mod Listing
pub mod Listed
pub mod Matched
pub mod Placed
pub mod Saved
pub mod Created
mod Tests
mod OnchainTests
use pactum_codex.Base.{
  ℕ, ◌+◌, Bool, true, false, ◌&&◌, String, Option, none, some, List, [], ◌∷◌, ◌++◌, ◌==◌, leb,
  if◌then◌else◌, is_value,
}
use mathlib.Core.Option
use pactum_codex.Error.{AppError}
use pactum_codex.Config.{Config}
use pactum_codex.State.Rows.{Db, Draft, DraftPartyEntry, DraftStatus, Contact}
use pactum_codex.State.World.{
  M, Void, Result, ok, err, ◌>>=◌, ◌>>◌, pure, ok_or, choose, now, fresh, fetch, insert_unique,
  lift,
}
use pactum_codex.Handlers.Auth.{AuthUserWithWallet, SolanaSdk, user_wallet}
use pactum_codex.Base.{zero, suc, exists}
use pactum_codex.Services.Crypto.{Cipher, encrypt, hmac_index}
use pactum_codex.Services.SolanaPay.{codes}
use pactum_codex.Handlers.Payment.{has_draft_id, free_used_by, within_free_tier}
use pactum_codex.Handlers.Draft.{new_invitation, insert_party_invitation, try_i64}
use pactum_codex.Handlers.Draft.Submit.{as_i64, resolved_keys}
use pactum_codex.Services.Solana.{
  Seed, StorageBackend, Transaction, build_create_agreement_tx, derive_agreement_pda,
}

pub data PartyInput : Type 0 where
  pubkey : ℕ → PartyInput
  email : List ℕ → PartyInput

pub record CreateAgreementRequest : Type 0 where
  pub title : String
  pub parties : List PartyInput
  pub expires_in_secs : ℕ

pub record PendingInvitation : Type 0 where
  pub email_hint : List ℕ
  pub invited_at : ℕ

pub data CreateAgreementResponse : Type 0 where
  submitted : Transaction → ℕ → CreateAgreementResponse
  awaiting_party_wallets : ℕ → List PendingInvitation → CreateAgreementResponse

pub record InvitationInsertRow : Type 0 where
  pub id : ℕ
  pub email_index : ℕ
  pub email_enc : ℕ
  pub email_nonce : ℕ
  pub token : ℕ
  pub email_hint : List ℕ
  pub invited_at : ℕ
  pub expires_at : ℕ

-- `split_once('@')`
abbrev pub split_at : List ℕ → Option (List ℕ × List ℕ)
split_at [] = none
split_at (c ∷ cs) =
    let later = split_at cs in
    if c == b'@' then some ([], cs) else Option.map (λ parts. (c ∷ parts.0, parts.1)) later

abbrev pub first_or_star : List ℕ → ℕ
first_or_star [] = b'*'
first_or_star (c ∷ _) = c

unfoldable pub email_hint : List ℕ → List ℕ
email_hint address = elim (split_at address) [
  | none ↦ codes "***"
  | some (local, domain) ↦ first_or_star local ∷ codes "***@" ++ domain
]

unfoldable pub validate_invite_window : ℕ → ℕ → Result Void
validate_invite_window invite_expiry_seconds expires_in_secs =
    if leb expires_in_secs invite_expiry_seconds
    then err AppError.invite_window_exceeds_signing_window
    else ok tt

-- `user_contacts JOIN auth_wallet`, the first wallet of a contact with the index.
abbrev pub pubkey_of_index : ℕ → List Contact → Db → Option ℕ
pubkey_of_index index [] db = none
pubkey_of_index index (c ∷ cs) db =
    let later = pubkey_of_index index cs db in
    if is_value c.email_index index
    then elim (user_wallet c.user_id db) [ some k ↦ some k | none ↦ later ]
    else later

-- The slots and the invitations that a request's parties become.
pub record Slots : Type 0 where
  pub all_parties_resolved : Bool
  pub party_slots : List DraftPartyEntry
  pub invitation_rows : List InvitationInsertRow

abbrev pub resolved_slot : ℕ → DraftPartyEntry
resolved_slot k = record { pubkey = some k; invite_id = none }

abbrev pub awaiting_slot : ℕ → DraftPartyEntry
awaiting_slot id = record { pubkey = none; invite_id = some id }

abbrev pub push_slot : Slots → DraftPartyEntry → Slots
push_slot s slot = record s { party_slots = s.party_slots ++ slot ∷ [] }

abbrev pub push_invitation : Slots → InvitationInsertRow → Slots
push_invitation s row = record {
  all_parties_resolved = false;
  party_slots = s.party_slots ++ awaiting_slot row.id ∷ [];
  invitation_rows = s.invitation_rows ++ row ∷ [];
}

module _ (cipher : Cipher) where
  -- The branch of an email without a wallet.
  unfoldable pub invite_party : ℕ → ℕ → ℕ → ℕ → List ℕ → M InvitationInsertRow
  invite_party key index invited_at expires_at address = do
    id ← fresh
    token ← fresh
    (enc, nonce) ← encrypt cipher address key
    pure (record {
      id = id;
      email_index = index;
      email_enc = enc;
      email_nonce = nonce;
      token = token;
      email_hint = email_hint address;
      invited_at = invited_at;
      expires_at = expires_at;
    })

  -- `if let Some(pubkey) = resolved_pubkey { … } else { … }`
  unfoldable pub place_party : ℕ → ℕ → ℕ → ℕ → Slots → List ℕ → Option ℕ → M Slots
  place_party key index invited_at expires_at s address (some k) =
      pure (push_slot s (resolved_slot k))
  place_party key index invited_at expires_at s address none = do
    row ← invite_party key index invited_at expires_at address
    pure (push_invitation s row)

  -- One step of the loop over the request's parties.
  unfoldable pub add_party : ℕ → ℕ → ℕ → ℕ → Slots → PartyInput → M Slots
  add_party key index_key invited_at expires_at s (PartyInput.pubkey k) =
      pure (push_slot s (resolved_slot k))
  add_party key index_key invited_at expires_at s (PartyInput.email address) =
      let index = hmac_index cipher address index_key in
      fetch (λ db. pubkey_of_index index db.user_contacts db)
      >>= place_party key index invited_at expires_at s address

  unfoldable pub add_parties : ℕ → ℕ → ℕ → ℕ → Slots → List PartyInput → M Slots
  add_parties key index_key invited_at expires_at s [] = pure s
  add_parties key index_key invited_at expires_at s (p ∷ ps) =
      add_party key index_key invited_at expires_at s p >>= λ s'.
      add_parties key index_key invited_at expires_at s' ps
