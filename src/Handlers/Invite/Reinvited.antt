-- ===== src/Handlers/Invite/Reinvited.antt =====
-- What becomes of a second invitation: `reinvite_draft` of src/handlers/draft.rs before
-- `accept_invite` of src/handlers/invite.rs.
use pactum_codex.Base.{
  ℕ, ◌≡◌, ◌≢◌, refl, Bool, false, ◌||◌, List, [], ◌∷◌, ◌++◌, arith, find, exists, All, some,
  Option-cases, inl, inr, ◌==◌, ==_refl, is_value, find-append,
}
use pactum_codex.Config.{Config}
use pactum_codex.Error.{AppError}
use pactum_codex.State.Rows.{Db, Draft, DraftPartyEntry, Invitation}
use pactum_codex.State.World.{World, ok, err, OnOk, Finds}
use pactum_codex.Handlers.Auth.{AuthUser, AuthUserWithWallet}
use pactum_codex.Handlers.Payment.{has_draft_id}
use pactum_codex.Handlers.Draft.{
  ReinviteResponse, reinvite_draft, new_invitation, invitation_taken, is_reinvitable,
}
use pactum_codex.Handlers.Invite.{has_token, resolve_party_slot_pubkey, accept_invite}
use pactum_codex.Handlers.Invite.Acceptance.{Accepts, accept_invite-Accepts}

-- Whether a slot awaits the invitation.
abbrev pub awaits_invitation : ℕ → DraftPartyEntry → Bool
awaits_invitation id s = is_value s.invite_id id

-- No slot of any draft awaits an invitation of that id.
abbrev pub Unawaited : ℕ → List Draft → Type 0
Unawaited id ds = All (λ d. exists (awaits_invitation id) d.party_slots ≡ false) ds

resolve_unawaited :
    (slots : List DraftPartyEntry) (id pubkey : ℕ)
    → exists (awaits_invitation id) slots ≡ false
    → resolve_party_slot_pubkey slots id pubkey ≡ err AppError.not_found
unfolding resolve_party_slot_pubkey
resolve_unawaited [] id pubkey h = refl
resolve_unawaited (s ∷ ss) id pubkey h = ground (arith, resolve_unawaited ss id pubkey)

find-Unawaited :
    (id draft_id : ℕ) (ds : List Draft) (d : Draft)
    → Unawaited id ds
    → find (has_draft_id draft_id) ds ≡ some d
    → exists (awaits_invitation id) d.party_slots ≡ false
find-Unawaited id draft_id [] d h e = cc
find-Unawaited id draft_id (x ∷ ds) d h e = ground (arith, find-Unawaited id draft_id ds d h.1)

-- The row that a reinvitation adds for an expired one.
abbrev pub renewed : ℕ → Invitation → ReinviteResponse → ℕ → ℕ → Invitation
renewed draft_id old x token time =
    new_invitation x.invitation_id draft_id old.invited_email_index old.invited_email_enc
      old.invited_email_nonce token time x.expires_at

abbrev pub Reinvites : ℕ → ℕ → ℕ → ℕ → ReinviteResponse → Db → Db → Type 0
Reinvites draft_id id token time x db db' =
    Finds (find (is_reinvitable id draft_id) db.party_invitations) (λ old.
      (invitation_taken (renewed draft_id old x token time) db ≡ false)
      × (db'.party_invitations ≡ db.party_invitations ++ renewed draft_id old x token time ∷ [])
      × (db'.agreement_drafts ≡ db.agreement_drafts))

reinvite_draft-Reinvites :
    (config : Config) (auth : AuthUser) (draft_id id : ℕ) (w : World)
    → let (r, w') = reinvite_draft config auth draft_id id w in
      OnOk r (λ x. Reinvites draft_id id (w.supply 0) w.now x w.db w'.db)
unfolding reinvite_draft
reinvite_draft-Reinvites config auth draft_id id w = ground arith

untaken_token :
    (i : Invitation) (is : List Invitation)
    → exists (λ j. j.id == i.id || j.token == i.token) is ≡ false
    → exists (has_token i.token) is ≡ false
untaken_token i [] h = refl
untaken_token i (j ∷ is) h = ground (arith, untaken_token i is)

refused-Unawaited :
    (draft_id id token time time' : ℕ) (x : ReinviteResponse) (auth : AuthUserWithWallet)
    (db db' db'' : Db)
    → Reinvites draft_id id token time x db db'
    → Unawaited x.invitation_id db.agreement_drafts
    → ¬ (Accepts time' auth token db' db'')
refused-Unawaited draft_id id token time time' x auth db db' db'' h un h' =
    elim (Option-cases (find (is_reinvitable id draft_id) db.party_invitations)) [
      | inl e ↦ ground arith
      | inr (old, e) ↦
          let new = renewed draft_id old x token time in
          let added = find-append (has_token token) db.party_invitations new in
          elim (Option-cases (find (has_draft_id draft_id) db.agreement_drafts)) [
            | inl missing ↦
                ground (arith, added, untaken_token new db.party_invitations, ==_refl token)
            | inr (d, found) ↦ ground (
              arith,
              added,
              untaken_token new db.party_invitations,
              ==_refl token,
              resolve_unawaited d.party_slots x.invitation_id auth.pubkey
                  (find-Unawaited x.invitation_id draft_id db.agreement_drafts d un found),
            )
          ]
    ]

-- A reinvitation leads nowhere. Where no slot of a draft awaits the identifier that the new
-- invitation was given, no wallet can accept it, on the tables that `reinvite_draft` left and at any
-- time: `accept_invite` with its token does not succeed, and changes no invitation and no draft.
pub reinvite_draft_dead :
    (config : Config) (auth : AuthUser) (draft_id id : ℕ) (w : World) (x : ReinviteResponse)
    → (reinvite_draft config auth draft_id id w).0 ≡ ok x
    → Unawaited x.invitation_id w.db.agreement_drafts
    → (auth' : AuthUserWithWallet) (w' : World)
    → w'.db ≡ (reinvite_draft config auth draft_id id w).1.db
    → let (r, w'') = accept_invite auth' (w.supply 0) w' in
      (r ≢ ok tt)
      × (w''.db.party_invitations ≡ w'.db.party_invitations)
      × (w''.db.agreement_drafts ≡ w'.db.agreement_drafts)
reinvite_draft_dead config auth draft_id id w x h un auth' w' e =
    elim (accept_invite-Accepts auth' (w.supply 0) w') [
      | inr unchanged ↦ unchanged
      | inl accepts ↦
          let renewing = reinvite_draft-Reinvites config auth draft_id id w in
          absurd (
            refused-Unawaited draft_id id (w.supply 0) w.now w'.now x auth' w.db w'.db
              (accept_invite auth' (w.supply 0) w').1.db (ground arith) un accepts)
    ]
