-- ===== src/Handlers/Invite.antt =====
-- Invitations: src/handlers/invite.rs (its `get_invite` is in Invite/View). The address
-- of a client is a number, and the limiter's map a list of entries.
pub mod RateLimit
pub mod Acceptance
pub mod Reinvited
pub mod View
pub mod Spent
pub mod Tests
use pactum_codex.Base.{
  ℕ, ◌+◌, Bool, true, false, ◌&&◌, none, some, List, [], ◌∷◌, ◌++◌, ◌==◌, ltb, leb, if◌then◌else◌,
  find, all, select, length, update_where, is_value, is_some,
}
use pactum_codex.Error.{AppError}
use pactum_codex.State.Events.{WsEvent}
use pactum_codex.State.Rows.{Draft, DraftPartyEntry, DraftStatus, Invitation, InvitationStatus}
use pactum_codex.State.World.{
  M, Void, Result, ok, err, ◌>>=◌, ◌>>◌, pure, ok_or, guard, choose, now, fetch, execute, lift,
  transaction,
}
use pactum_codex.Handlers.Auth.{AuthUserWithWallet, wallet_owner}
use pactum_codex.Handlers.Payment.{has_draft_id}
use pactum_codex.Handlers.Draft.{is_pending_invitation}
use pactum_codex.Handlers.Ws.{send_to_user}
use pactum_codex.Services.Notification.{enqueue_notification}

-- `validate_pending_invitation`
abbrev pub is_open : ℕ → Invitation → Bool
is_open time i = is_pending_invitation i && leb time i.expires_at

abbrev pub validate_pending_invitation : ℕ → Invitation → M Void
validate_pending_invitation time i = guard (is_open time i) AppError.not_found

-- The first slot that awaits the invitation takes the key.
unfoldable pub resolve_party_slot_pubkey :
    List DraftPartyEntry → ℕ → ℕ → Result (List DraftPartyEntry)
resolve_party_slot_pubkey [] invite_id pubkey = err AppError.not_found
resolve_party_slot_pubkey (s ∷ ss) invite_id pubkey =
    let later = resolve_party_slot_pubkey ss invite_id pubkey in
    if is_value s.invite_id invite_id
    then ok (record { pubkey = some pubkey; invite_id = none } ∷ ss)
    else elim later [ err e ↦ err e | ok slots ↦ ok (s ∷ slots) ]

abbrev pub all_pubkeys_resolved : List DraftPartyEntry → Bool
all_pubkeys_resolved slots = all (λ s. is_some s.pubkey) slots

abbrev pub has_token : ℕ → Invitation → Bool
has_token token i = i.token == token

abbrev pub has_invitation_id : ℕ → Invitation → Bool
has_invitation_id id i = i.id == id

-- What the transaction hands over: the draft, its creator, and whether it is now ready.
pub record Accepted : Type 0 where
  pub draft_id : ℕ
  pub creator_pubkey : ℕ
  pub all_resolved : Bool

-- The UPDATE of the draft, with the status when every slot has a key.
abbrev pub set_slots : Bool → List DraftPartyEntry → ℕ → Draft → Draft
set_slots true slots time d = record d {
  party_slots = slots;
  status = DraftStatus.ready_to_submit;
  ready_at = some time;
}
set_slots false slots time d = record d { party_slots = slots }

-- The statements between `begin` and `commit`.
unfoldable pub accept_statements : ℕ → AuthUserWithWallet → ℕ → M Accepted
accept_statements time auth token = do
  found ← fetch (λ db. find (has_token token) db.party_invitations)
  invite ← ok_or found AppError.not_found
  validate_pending_invitation time invite
  found_draft ← fetch (λ db. find (has_draft_id invite.draft_id) db.agreement_drafts)
  draft ← ok_or found_draft AppError.not_found
  slots ← lift (resolve_party_slot_pubkey draft.party_slots invite.id auth.pubkey)
  execute (λ db. record db {
    party_invitations =
        update_where (has_invitation_id invite.id)
          (λ i. record i { status = InvitationStatus.accepted }) db.party_invitations;
  })
  execute (λ db. record db {
    agreement_drafts =
        update_where (has_draft_id invite.draft_id)
          (set_slots (all_pubkeys_resolved slots) slots time) db.agreement_drafts;
  })
  pure (record {
    draft_id = invite.draft_id;
    creator_pubkey = draft.creator_pubkey;
    all_resolved = all_pubkeys_resolved slots;
  })

-- The creator hears of a ready draft on a channel, or else by the queue.
unfoldable pub announce_ready : Accepted → M Void
announce_ready a = do
  creator_user_id ← fetch (wallet_owner a.creator_pubkey)
  elim creator_user_id [
    | none ↦ pure tt
    | some user_id ↦ send_to_user user_id (WsEvent.draft_ready a.draft_id) >>= λ delivered.
        choose delivered (pure tt)
          (enqueue_notification "DraftReadyToSubmit" (some a.draft_id) a.creator_pubkey)
  ]

unfoldable pub accept_invite : AuthUserWithWallet → ℕ → M Void
accept_invite auth token = do
  time ← now
  accepted ← transaction (accept_statements time auth token)
  choose accepted.all_resolved (announce_ready accepted) (pure tt)

abbrev pub rate_limit_max_requests : ℕ
rate_limit_max_requests = 5

abbrev pub rate_limit_window_secs : ℕ
rate_limit_window_secs = 60

-- `now - timestamp < RATE_LIMIT_WINDOW_SECS`
abbrev pub in_window : ℕ → ℕ → Bool
in_window time timestamp = ltb time (timestamp + rate_limit_window_secs)

-- One client's entry: whether the request is let through, and the entry after it.
unfoldable pub limit_entry : ℕ → List ℕ → Bool × List ℕ
limit_entry time entry =
    let recent = select (in_window time) entry in
    if leb rate_limit_max_requests (length recent)
    then (false, recent)
    else (true, recent ++ time ∷ [])

abbrev pub Limiter : Type 0
Limiter = List (ℕ × List ℕ)

-- `limiter.entry(ip).or_default()`
abbrev pub entry_of : ℕ → Limiter → List ℕ
entry_of ip [] = []
entry_of ip ((k, entry) ∷ m) = if k == ip then entry else entry_of ip m

abbrev pub set_entry : ℕ → List ℕ → Limiter → Limiter
set_entry ip entry [] = (ip, entry) ∷ []
set_entry ip entry ((k, e) ∷ m) = if k == ip then (ip, entry) ∷ m else (k, e) ∷ set_entry ip entry m

unfoldable pub enforce_get_invite_rate_limit : ℕ → ℕ → Limiter → Result Void × Limiter
enforce_get_invite_rate_limit ip time limiter =
    let (granted, entry) = limit_entry time (entry_of ip limiter) in
    (if granted then ok tt else err AppError.rate_limited, set_entry ip entry limiter)
