-- ===== src/Handlers/Draft.antt =====
-- Drafts that wait for their parties: src/handlers/draft.rs, up to its reinvitations. A JSON column
-- is the value that its text stands for.
pub mod Submit
pub mod Submitted
pub mod Tests
use pactum_codex.Base.{
  ℕ, zero, suc, ◌+◌, ◌-◌, ◌^◌, ℤ, pos, negsuc, Bool, true, false, ◌&&◌, ◌||◌, not, Option, none,
  some, List, [], ◌∷◌, ◌++◌, ◌==◌, ltb, leb, if◌then◌else◌, find, exists, all, select, update_where,
  is_value, is_some, length,
}
use mathlib.Core.Option
use pactum_codex.Error.{AppError}
use pactum_codex.State.Rows.{
  Db, Draft, DraftPartyEntry, DraftPayload, DraftStatus, Invitation, InvitationStatus, Contact,
  Payment, PaymentStatus,
}
use pactum_codex.State.World.{
  World, M, Void, Result, ok, err, ◌>>=◌, ◌>>◌, pure, throw, ok_or, guard, fresh, now, fetch,
  execute, insert_unique, lift,
}
use pactum_codex.Config.{Config}
use pactum_codex.Handlers.Auth.{AuthUser, AuthUserWithWallet, SolanaSdk, user_wallet}
use pactum_codex.Handlers.Payment.{has_draft_id, draft_creator}
use pactum_codex.Services.SolanaPay.{codes, has_status}
use pactum_codex.Services.Solana.{
  Seed, StorageBackend, CreateAgreementArgs, Transaction, build_create_agreement_tx,
  derive_agreement_pda,
}

pub record PendingInvitation : Type 0 where
  pub id : ℕ
  pub status : InvitationStatus
  pub expires_at : ℕ

pub record GetDraftResponse : Type 0 where
  pub id : ℕ
  pub status : DraftStatus
  pub party_slots : List DraftPartyEntry
  pub pending_invitations : List PendingInvitation

pub record ReinviteResponse : Type 0 where
  pub invitation_id : ℕ
  pub expires_at : ℕ

abbrev pub is_pending_invitation : Invitation → Bool
is_pending_invitation i = elim (i.status) [ InvitationStatus.pending ↦ true | _ ↦ false ]

abbrev pub is_expired_invitation : Invitation → Bool
is_expired_invitation i = elim (i.status) [ InvitationStatus.expired ↦ true | _ ↦ false ]

-- `ORDER BY created_at ASC`
abbrev pub insert_invitation : Invitation → List Invitation → List Invitation
insert_invitation i [] = i ∷ []
insert_invitation i (j ∷ js) =
    if leb i.created_at j.created_at then i ∷ j ∷ js else j ∷ insert_invitation i js

abbrev pub sort_invitations : List Invitation → List Invitation
sort_invitations [] = []
sort_invitations (i ∷ is) = insert_invitation i (sort_invitations is)

abbrev pub view_invitations : List Invitation → List PendingInvitation
view_invitations [] = []
view_invitations (i ∷ is) =
    record { id = i.id; status = i.status; expires_at = i.expires_at } ∷ view_invitations is

unfoldable pub get_draft : AuthUser → ℕ → M GetDraftResponse
get_draft auth draft_id = do
  found ← fetch (λ db. find (has_draft_id draft_id) db.agreement_drafts)
  d ← ok_or found AppError.not_found
  pending_rows ← fetch (λ db.
      sort_invitations
        (select (λ i. i.draft_id == draft_id && is_pending_invitation i) db.party_invitations))
  pure (record {
    id = d.id;
    status = d.status;
    party_slots = d.party_slots;
    pending_invitations = view_invitations pending_rows;
  })

abbrev pub ensure_creator_only : Option ℕ → ℕ → M Void
ensure_creator_only auth_pubkey creator = guard (is_value auth_pubkey creator) AppError.unauthorized

abbrev pub ensure_creator_from_user_id : ℕ → ℕ → M Void
ensure_creator_from_user_id user_id creator =
    fetch (user_wallet user_id) >>= λ auth_pubkey. ensure_creator_only auth_pubkey creator

unfoldable pub delete_draft : AuthUser → ℕ → M Void
delete_draft auth draft_id = do
  found ← fetch (draft_creator draft_id)
  creator ← ok_or found AppError.not_found
  ensure_creator_from_user_id auth.user_id creator
  execute (λ db. record db {
    agreement_drafts =
        update_where (has_draft_id draft_id) (λ d. record d { status = DraftStatus.discarded })
          db.agreement_drafts;
  })

-- `id = $1 AND draft_id = $2 AND status = 'expired'`
abbrev pub is_reinvitable : ℕ → ℕ → Invitation → Bool
is_reinvitable id draft_id i = i.id == id && i.draft_id == draft_id && is_expired_invitation i

abbrev pub new_invitation : ℕ → ℕ → ℕ → ℕ → ℕ → ℕ → ℕ → ℕ → Invitation
new_invitation id draft_id index enc nonce token time expires_at = record {
  id = id;
  draft_id = draft_id;
  invited_email_index = index;
  invited_email_enc = enc;
  invited_email_nonce = nonce;
  token = token;
  status = InvitationStatus.pending;
  reminder_sent_at = none;
  reminder_count = 0;
  created_at = time;
  expires_at = expires_at;
}

-- The keys of `party_invitations` that a new row would break.
abbrev pub invitation_taken : Invitation → Db → Bool
invitation_taken i db = exists (λ j. j.id == i.id || j.token == i.token) db.party_invitations

abbrev pub insert_party_invitation : Invitation → M Void
insert_party_invitation i =
    insert_unique (invitation_taken i)
      (λ db. record db { party_invitations = db.party_invitations ++ i ∷ [] })

-- `i64::try_from`
abbrev pub try_i64 : ℕ → M ℕ
try_i64 n = if ltb n (2 ^ 63) then pure n else throw AppError.internal_error

module _ (config : Config) where
  -- The database draws the id of the new row.
  unfoldable pub reinvite_draft : AuthUser → ℕ → ℕ → M ReinviteResponse
  reinvite_draft auth draft_id invitation_id = do
    found ← fetch (draft_creator draft_id)
    creator ← ok_or found AppError.not_found
    ensure_creator_from_user_id auth.user_id creator
    expired ← fetch (λ db. find (is_reinvitable invitation_id draft_id) db.party_invitations)
    old ← ok_or expired AppError.not_found
    token ← fresh
    time ← now
    window ← try_i64 config.invite_expiry_seconds
    id ← fresh
    insert_party_invitation (
        new_invitation id draft_id old.invited_email_index old.invited_email_enc
          old.invited_email_nonce token time (time + window))
    pure (record { invitation_id = id; expires_at = time + window })
