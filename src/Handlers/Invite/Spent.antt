-- ===== src/Handlers/Invite/Spent.antt =====
-- An invitation that has been used: `get_invite` and `accept_invite` of src/handlers/invite.rs.
use mathlib.Core.Path.{subst}
use pactum_codex.Base.{
  ℕ, ◌≡◌, ◌≢◌, refl, arith, true, false, ◌&&◌, not, List, [], ◌∷◌, exists, find, find-update_where,
  Option-cases, inl, inr, ==_refl,
}
use pactum_codex.State.Rows.{Db, Contact, Invitation, InvitationStatus}
use pactum_codex.State.World.{World, ok, OnOk, Finds}
use pactum_codex.Handlers.Auth.{AuthUserWithWallet}
use pactum_codex.Handlers.Invite.{Limiter, is_open, has_token, has_invitation_id, accept_invite}
use pactum_codex.Handlers.Invite.View.{
  GetInviteResponse, RequestHeaders, is_contact_of, has_wallet_row, view_invite, get_invite,
}
use pactum_codex.Handlers.Invite.Acceptance.{Accepts, accept_invite-Accepts, accept_invite_once}

-- What an answer rests on: the token's invitation is open, and only a user with an account of the
-- invited address is said to have a wallet.
abbrev pub IsShown : ℕ → World → GetInviteResponse → Type 0
IsShown token w r =
    Finds (find (has_token token) w.db.party_invitations) (λ i.
      (is_open w.now i ≡ true)
      × (r.expires_at ≡ i.expires_at)
      × (r.has_account ≡ exists (is_contact_of i) w.db.user_contacts))
    × ((r.has_wallet && not r.has_account) ≡ false)

wallet_needs_account :
    (db : Db) (i : Invitation) (cs : List Contact)
    → (exists (λ c. is_contact_of i c && has_wallet_row db c) cs
        && not (exists (is_contact_of i) cs))
      ≡ false
wallet_needs_account db i [] = refl
wallet_needs_account db i (c ∷ cs) = ground (arith, wallet_needs_account db i cs)

view_invite-IsShown : (token : ℕ) (w : World) → OnOk (view_invite token w).0 (IsShown token w)
unfolding view_invite
view_invite-IsShown token w = elim (Option-cases (find (has_token token) w.db.party_invitations)) [
  | inl gone ↦ ground arith
  | inr (i, there) ↦ ground (arith, wallet_needs_account w.db i w.db.user_contacts)
]

get_invite-IsShown :
    (name : List ℕ → ℕ) (headers : RequestHeaders) (token : ℕ) (limiter : Limiter) (w : World)
    → OnOk (get_invite name headers token limiter w).0.0 (IsShown token w)
unfolding get_invite
get_invite-IsShown name headers token limiter w = ground (arith, view_invite-IsShown token w)

none_open :
    (time : ℕ) (auth : AuthUserWithWallet) (token time' : ℕ) (db db' : Db)
    → Accepts time auth token db db'
    → ¬ (Finds (find (has_token token) db'.party_invitations) (λ i. is_open time' i ≡ true))
none_open time auth token time' db db' h shown =
    elim (Option-cases (find (has_token token) db.party_invitations)) [
      | inl e ↦ ground arith
      | inr (i, e) ↦ ground (
        arith,
        find-update_where (has_token token) (has_invitation_id i.id)
            (λ x. record x { status = InvitationStatus.accepted }) (λ x. refl) db.party_invitations,
        ==_refl i.id,
      )
    ]

-- An invitation that has been accepted with success is spent: on the tables that its acceptance left,
-- no acceptance of the same token succeeds or changes an invitation or a draft, by whichever wallet
-- and at whatever time, and `get_invite` shows it to no client, whatever the limiter has counted.
pub accept_invite_spent :
    (auth auth' : AuthUserWithWallet) (name : List ℕ → ℕ) (headers : RequestHeaders) (token : ℕ)
    (limiter : Limiter) (w w' : World)
    → (accept_invite auth token w).0 ≡ ok tt
    → w'.db ≡ (accept_invite auth token w).1.db
    → let (r, w'') = accept_invite auth' token w' in
      (r ≢ ok tt)
      × (w''.db.party_invitations ≡ w'.db.party_invitations)
      × (w''.db.agreement_drafts ≡ w'.db.agreement_drafts)
      × ((shown : GetInviteResponse) → (get_invite name headers token limiter w').0.0 ≢ ok shown)
accept_invite_spent auth auth' name headers token limiter w w' h e =
    let (refused, invitations, drafts) = accept_invite_once auth auth' token w w' h e in
    (
      refused,
      invitations,
      drafts,
      λ shown answered. elim (accept_invite-Accepts auth token w) [
        | inr (failed, _, _) ↦ absurd (failed h)
        | inl first ↦
            let view =
              subst (λ r. OnOk r (IsShown token w')) answered
                (get_invite-IsShown name headers token limiter w') in
            absurd
              (none_open w.now auth token w'.now w.db w'.db (rw e first) (ground (arith, view)))
      ],
    )
