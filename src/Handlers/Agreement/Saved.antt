-- ===== src/Handlers/Agreement/Saved.antt =====
-- The invitations that `create_agreement` of src/handlers/agreement.rs saves with a draft.
use pactum_codex.Base.{ℕ, ◌≡◌, refl, sym, ◌∙◌, ap, List, [], ◌∷◌, ◌++◌, arith}
use pactum_codex.State.Rows.{Invitation}
use pactum_codex.State.World.{World, Void, ok, OnOk, OnOk-map, bind_lem}
use pactum_codex.Handlers.Draft.{new_invitation, insert_party_invitation}
use pactum_codex.Handlers.Agreement.{InvitationInsertRow}
use pactum_codex.Handlers.Agreement.Create.{insert_invitations}

-- The row that an invitation is saved as.
abbrev pub saved : ℕ → List InvitationInsertRow → List Invitation
saved draft_id [] = []
saved draft_id (r ∷ rs) =
    new_invitation r.id draft_id r.email_index r.email_enc r.email_nonce r.token r.invited_at
      r.expires_at
    ∷ saved draft_id rs

append_cons :
    (xs : List Invitation) (y : Invitation) (zs : List Invitation)
    → (xs ++ y ∷ []) ++ zs ≡ xs ++ y ∷ zs
append_cons [] y zs = ground arith
append_cons (x ∷ xs) y zs = rw (append_cons xs y zs) refl

append_none : (xs : List Invitation) → xs ++ [] ≡ xs
append_none [] = refl
append_none (x ∷ xs) = rw (append_none xs) refl

insert_party_invitation-ok :
    (i : Invitation) (w : World) (a : Void)
    → (insert_party_invitation i w).0 ≡ ok a
    → (insert_party_invitation i w).1.db.party_invitations ≡ w.db.party_invitations ++ i ∷ []
insert_party_invitation-ok i w a h = ground arith

insert_party_invitation-drafts :
    (i : Invitation) (w : World)
    → (insert_party_invitation i w).1.db.agreement_drafts ≡ w.db.agreement_drafts
insert_party_invitation-drafts i w = ground arith

pub insert_invitations-ok :
    (draft_id : ℕ) (rs : List InvitationInsertRow) (w : World)
    → let (r, w') = insert_invitations draft_id rs w in
      OnOk r (λ _. w'.db.party_invitations ≡ w.db.party_invitations ++ saved draft_id rs)
      × (w'.db.agreement_drafts ≡ w.db.agreement_drafts)
unfolding insert_invitations
insert_invitations-ok draft_id [] w = (sym (append_none w.db.party_invitations), refl)
insert_invitations-ok draft_id (r ∷ rs) w =
    let new =
      new_invitation r.id draft_id r.email_index r.email_enc r.email_nonce r.token r.invited_at
        r.expires_at in
    let one = insert_party_invitation-drafts new w in
    let w₁ = (insert_party_invitation new w).1 in
    let more = insert_invitations-ok draft_id rs w₁ in
    let assoc = append_cons w.db.party_invitations new (saved draft_id rs) in
    bind_lem (insert_party_invitation new) (λ _. insert_invitations draft_id rs)
      (λ x.
        OnOk x.0 (λ _. x.1.db.party_invitations ≡ w.db.party_invitations ++ saved draft_id (r ∷ rs))
        × (x.1.db.agreement_drafts ≡ w.db.agreement_drafts))
      w
      (λ a h. (
        OnOk-map (insert_invitations draft_id rs w₁).0
            (λ _ q.
              q ∙ ap (λ is. is ++ saved draft_id rs) (insert_party_invitation-ok new w a h) ∙ assoc)
            more.0,
        more.1 ∙ one,
      ))
      (λ e h. (tt, one))
