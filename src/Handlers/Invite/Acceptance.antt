-- ===== src/Handlers/Invite/Acceptance.antt =====
-- The acceptance of an invitation: `accept_invite` of src/handlers/invite.rs.
use pactum_codex.Base.{
  ℕ, String, ◌⊎◌, ◌≡◌, ◌≢◌, refl, true, arith, find, update_where, find-update_where, Option,
  Option-cases, inl, inr, ==_refl,
}
use pactum_codex.Error.{AppError}
use pactum_codex.State.Events.{WsEvent}
use pactum_codex.State.Rows.{Db, Invitation, InvitationStatus}
use pactum_codex.State.World.{World, ok, err, OnOk, Succeeds, Finds, transaction, Result-cases}
use pactum_codex.Handlers.Auth.{AuthUserWithWallet}
use pactum_codex.Handlers.Payment.{has_draft_id}
use pactum_codex.Handlers.Ws.{send_to_user}
use pactum_codex.Services.Notification.{enqueue_notification}
use pactum_codex.Handlers.Invite.{
  Accepted, is_open, has_token, has_invitation_id, resolve_party_slot_pubkey, all_pubkeys_resolved,
  set_slots, accept_statements, announce_ready, accept_invite,
}

abbrev accepted : Invitation → Invitation
accepted i = record i { status = InvitationStatus.accepted }

-- What an acceptance at a time makes of the tables: the token's invitation was open and its draft
-- had a slot for it; that slot takes the key.
abbrev pub Accepts : ℕ → AuthUserWithWallet → ℕ → Db → Db → Type 0
Accepts time auth token db db' = Finds (find (has_token token) db.party_invitations) (λ i.
    (is_open time i ≡ true)
    × Finds (find (has_draft_id i.draft_id) db.agreement_drafts) (λ d.
      Succeeds (resolve_party_slot_pubkey d.party_slots i.id auth.pubkey) (λ slots.
        (db'.party_invitations
          ≡ update_where (has_invitation_id i.id) accepted db.party_invitations)
        × (db'.agreement_drafts
            ≡ update_where (has_draft_id i.draft_id)
                (set_slots (all_pubkeys_resolved slots) slots time) db.agreement_drafts))))

accept_statements-ok :
    (time : ℕ) (auth : AuthUserWithWallet) (token : ℕ) (w : World)
    → let (r, w') = accept_statements time auth token w in
      OnOk r (λ a. Accepts time auth token w.db w'.db)
unfolding accept_statements
accept_statements-ok time auth token w = ground arith

send_to_user-db : (u : ℕ) (e : WsEvent) (w : World) → (send_to_user u e w).1.db ≡ w.db
unfolding send_to_user
send_to_user-db u e w = ground arith

enqueue_notification-tables :
    (s : String) (o : Option ℕ) (k : ℕ) (w : World)
    → let db' = (enqueue_notification s o k w).1.db in
      (db'.party_invitations ≡ w.db.party_invitations)
      × (db'.agreement_drafts ≡ w.db.agreement_drafts)
unfolding enqueue_notification
enqueue_notification-tables s o k w = (ground arith, ground arith)

announce_ready-tables :
    (a : Accepted) (w : World)
    → let db' = (announce_ready a w).1.db in
      (db'.party_invitations ≡ w.db.party_invitations)
      × (db'.agreement_drafts ≡ w.db.agreement_drafts)
unfolding announce_ready send_to_user enqueue_notification
announce_ready-tables a w = (ground arith, ground arith)

transaction-statements :
    (time : ℕ) (auth : AuthUserWithWallet) (token : ℕ) (w : World)
    → let (r, w') = transaction (accept_statements time auth token) w in
      OnOk r (λ a. Accepts time auth token w.db w'.db) × ((e : AppError) → r ≡ err e → w'.db ≡ w.db)
transaction-statements time auth token w =
    let done = accept_statements-ok time auth token w in (ground arith, ground arith)

pub accept_invite-Accepts :
    (auth : AuthUserWithWallet) (token : ℕ) (w : World)
    → let (r, w') = accept_invite auth token w in
      Accepts w.now auth token w.db w'.db
      ⊎ ((r ≢ ok tt)
          × (w'.db.party_invitations ≡ w.db.party_invitations)
          × (w'.db.agreement_drafts ≡ w.db.agreement_drafts))
unfolding accept_invite
accept_invite-Accepts auth token w =
    let w₁ = (transaction (accept_statements w.now auth token) w).1 in
    let done = transaction-statements w.now auth token w in
    elim (Result-cases (transaction (accept_statements w.now auth token) w).0) [
      | inr (e, h) ↦ inr (ground arith, ground arith, ground arith)
      | inl (a, h) ↦ inl (ground (arith, announce_ready-tables a w₁))
    ]

once_accepted :
    (time : ℕ) (auth : AuthUserWithWallet) (token time' : ℕ) (auth' : AuthUserWithWallet)
    (db db' db'' : Db)
    → Accepts time auth token db db'
    → ¬ (Accepts time' auth' token db' db'')
once_accepted time auth token time' auth' db db' db'' h h' =
    elim (Option-cases (find (has_token token) db.party_invitations)) [
      | inl e ↦ ground arith
      | inr (i, e) ↦ ground (
        arith,
        find-update_where (has_token token) (has_invitation_id i.id) accepted (λ x. refl)
            db.party_invitations,
        ==_refl i.id,
      )
    ]

-- An invitation admits one acceptance: after one that succeeded, and on the invitations that it
-- left, no acceptance of the same token succeeds, by whichever wallet and at whatever time, and none
-- changes an invitation or a draft.
pub accept_invite_once :
    (auth auth' : AuthUserWithWallet) (token : ℕ) (w w' : World)
    → (accept_invite auth token w).0 ≡ ok tt
    → w'.db ≡ (accept_invite auth token w).1.db
    → let (r, w'') = accept_invite auth' token w' in
      (r ≢ ok tt)
      × (w''.db.party_invitations ≡ w'.db.party_invitations)
      × (w''.db.agreement_drafts ≡ w'.db.agreement_drafts)
accept_invite_once auth auth' token w w' h e = elim (accept_invite-Accepts auth token w) [
  | inr (refused, _, _) ↦ absurd (refused h)
  | inl first ↦ elim (accept_invite-Accepts auth' token w') [
    | inr unchanged ↦ unchanged
    | inl second ↦ absurd (
        once_accepted w.now auth token w'.now auth' w.db w'.db (accept_invite auth' token w').1.db
          (rw e first) second)
  ]
]
