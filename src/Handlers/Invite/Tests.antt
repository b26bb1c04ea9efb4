-- ===== src/Handlers/Invite/Tests.antt =====
-- Invitations on a small world: the draft 31 of the wallet 5 awaits the invitation 61.
use pactum_codex.Base.{
  ℕ, length, ◌≡◌, ◌≢◌, refl, true, false, some, none, List, [], ◌∷◌, ◌≤◌, arith,
}
use pactum_codex.State.Rows.{Draft, DraftPartyEntry, DraftStatus, Invitation, InvitationStatus}
use pactum_codex.State.World.{World, ok}
use pactum_codex.State.Sample.{calm, empty_db, config}
use pactum_codex.Handlers.Auth.{AuthUser, AuthUserWithWallet}
use pactum_codex.Handlers.Draft.{ReinviteResponse, reinvite_draft}
use pactum_codex.Handlers.Ws.{send_to_user}
use pactum_codex.Services.Notification.{enqueue_notification}
use pactum_codex.Handlers.Invite.{
  accept_invite, accept_statements, announce_ready, resolve_party_slot_pubkey,
  enforce_get_invite_rate_limit, limit_entry, enforce_get_invite_rate_limit,
}
use pactum_codex.Handlers.Invite.RateLimit.{
  admit, times_of, within, enforce_get_invite_rate_limit-within,
}
use pactum_codex.Services.SolanaPay.{codes}
use pactum_codex.Handlers.Invite.View.{
  GetInviteResponse, RequestHeaders, parse_ip_header, extract_request_ip, view_invite, get_invite,
}
use pactum_codex.Handlers.Invite.Spent.{accept_invite_spent}
use pactum_codex.Handlers.Invite.Reinvited.{reinvite_draft_dead}

abbrev pub slots : List DraftPartyEntry
slots =
    record { pubkey = some 5; invite_id = none }
    ∷ record { pubkey = none; invite_id = some 61 }
    ∷ []

abbrev pub draft : Draft
draft = record {
  id = 31;
  creator_pubkey = 5;
  draft_payload = record { title = "Lease"; expires_in_secs = 900000; parties = slots };
  party_slots = slots;
  status = DraftStatus.awaiting_party_wallets;
  ready_at = none;
  paid = true;
  storage_uri = none;
  storage_uploaded = false;
  agreement_pda = none;
  agreement_id = none;
}

abbrev pub invitation : InvitationStatus → Invitation
invitation status = record {
  id = 61;
  draft_id = 31;
  invited_email_index = 1;
  invited_email_enc = 2;
  invited_email_nonce = 3;
  token = 71;
  status = status;
  reminder_sent_at = none;
  reminder_count = 0;
  created_at = 900000;
  expires_at = 1500000;
}

abbrev pub invited : InvitationStatus → World
invited status = record calm {
  db = record empty_db {
    agreement_drafts = draft ∷ [];
    party_invitations = invitation status ∷ [];
    auth_wallet = record { user_id = 8; pubkey = 5 } ∷ [];
    user_contacts =
        record {
          user_id = 8;
          email_enc = some 9;
          email_nonce = some 9;
          email_index = some 9;
          phone_enc = none;
          phone_nonce = none;
          push_token_enc = none;
          push_token_nonce = none;
        }
        ∷ [];
  };
}

abbrev pub joiner : AuthUserWithWallet
joiner = record { user_id = 4; pubkey = 6 }

abbrev pub open_world : World
open_world = invited InvitationStatus.pending

-- Seven requests in one minute: the sixth and the seventh are refused.
-- The address 1 asks seven times, and the address 2 in between.
abbrev asked : List (ℕ × ℕ)
asked =
    (1, 106)
    ∷ (1, 105)
    ∷ (2, 104)
    ∷ (1, 104)
    ∷ (1, 103)
    ∷ (1, 102)
    ∷ (2, 101)
    ∷ (1, 101)
    ∷ (1, 100)
    ∷ []

enforce_get_invite_rate_limit-within_example : within 100 (times_of 1 (admit asked).0) ≤ 5
enforce_get_invite_rate_limit-within_example =
    enforce_get_invite_rate_limit-within 1 asked 100 (ground arith)

five_served : times_of 1 (admit asked).0 ≡ 104 ∷ 103 ∷ 102 ∷ 101 ∷ 100 ∷ []
unfolding enforce_get_invite_rate_limit limit_entry
five_served = refl

two_served : times_of 2 (admit asked).0 ≡ 104 ∷ 101 ∷ []
unfolding enforce_get_invite_rate_limit limit_entry
two_served = refl

pub joined : (accept_invite joiner 71 open_world).0 ≡ ok tt
unfolding accept_invite accept_statements announce_ready resolve_party_slot_pubkey send_to_user
    enqueue_notification
joined = refl

abbrev again : World
again = record calm { db = (accept_invite joiner 71 open_world).1.db; now = 1000001 }

-- A client behind a proxy.
abbrev client : RequestHeaders
client = record { x_forwarded_for = some (codes " 10.0.0.1 ,10.0.0.2"); x_real_ip = none }

addressed :
    (extract_request_ip client ≡ codes "10.0.0.1")
    × (extract_request_ip (record client { x_forwarded_for = some (codes " ,10.0.0.2") })
        ≡ codes "unknown")
unfolding extract_request_ip parse_ip_header
addressed = (refl, refl)

accept_invite_spent_example :
    let (r, w'') = accept_invite joiner 71 again in
    (r ≢ ok tt)
    × (w''.db.party_invitations ≡ again.db.party_invitations)
    × (w''.db.agreement_drafts ≡ again.db.agreement_drafts)
    × ((shown : GetInviteResponse) → (get_invite length client 71 [] again).0.0 ≢ ok shown)
accept_invite_spent_example =
    accept_invite_spent joiner joiner length client 71 [] open_world again joined refl

-- Before it is accepted, the invitation is shown.
shows :
    (get_invite length client 71 [] open_world).0.0
    ≡ ok (record {
      agreement_title = "Lease";
      creator_display = codes "Unknown creator";
      expires_at = 1500000;
      has_account = false;
      has_wallet = false;
    })
unfolding get_invite extract_request_ip parse_ip_header view_invite enforce_get_invite_rate_limit
    limit_entry
shows = refl

abbrev expired_world : World
expired_world = invited InvitationStatus.expired

abbrev creator : AuthUser
creator = record { user_id = 8; pubkey = some 5 }

abbrev reply : ReinviteResponse
reply = record { invitation_id = 7001; expires_at = 1604800 }

reinvited : (reinvite_draft config creator 31 61 expired_world).0 ≡ ok reply
unfolding reinvite_draft
reinvited = refl

abbrev later : World
later = record calm { db = (reinvite_draft config creator 31 61 expired_world).1.db }

reinvite_draft_dead_example :
    let (r, w'') = accept_invite joiner 7000 later in
    (r ≢ ok tt)
    × (w''.db.party_invitations ≡ later.db.party_invitations)
    × (w''.db.agreement_drafts ≡ later.db.agreement_drafts)
reinvite_draft_dead_example =
    reinvite_draft_dead config creator 31 61 expired_world reply reinvited (refl, tt) joiner later
      refl
