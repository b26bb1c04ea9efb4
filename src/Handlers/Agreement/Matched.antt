-- ===== src/Handlers/Agreement/Matched.antt =====
-- The slots and the invitations that the loop of `create_agreement` of src/handlers/agreement.rs
-- builds.
use pactum_codex.Base.{
  ℕ, ◌≡◌, refl, ◌∙◌, ◌&&◌, List, [], ◌∷◌, ◌++◌, arith, Option, some, none, is_some,
}
use mathlib.Core.Path.{subst}
use pactum_codex.State.Rows.{DraftPartyEntry}
use pactum_codex.State.World.{World, OnOk, bind_lem, fetch, pure, M}
use pactum_codex.Services.Crypto.{Cipher, encrypt, hmac_index}
use pactum_codex.Handlers.Invite.{all_pubkeys_resolved}
use pactum_codex.Handlers.Agreement.{
  PartyInput, InvitationInsertRow, Slots, resolved_slot, awaiting_slot, push_slot, push_invitation,
  invite_party, place_party, add_party, add_parties, pubkey_of_index,
}

-- The invitations that the slots await, and those that the rows are for.
abbrev pub awaited : List DraftPartyEntry → List ℕ
awaited [] = []
awaited (s ∷ ss) = elim (s.invite_id) [ none ↦ awaited ss | some id ↦ id ∷ awaited ss ]

abbrev pub row_ids : List InvitationInsertRow → List ℕ
row_ids [] = []
row_ids (r ∷ rs) = r.id ∷ row_ids rs

-- The slots await exactly the invitations of the rows, in their order, and the flag says whether
-- every slot has a key.
abbrev pub IsMatched : Slots → Type 0
IsMatched s =
    (awaited s.party_slots ≡ row_ids s.invitation_rows)
    × (s.all_parties_resolved ≡ all_pubkeys_resolved s.party_slots)

awaited-append :
    (ss : List DraftPartyEntry) (s : DraftPartyEntry)
    → awaited (ss ++ s ∷ []) ≡ awaited ss ++ awaited (s ∷ [])
awaited-append [] s = ground arith
awaited-append (x ∷ ss) s = ground (arith, awaited-append ss s)

resolved-append :
    (ss : List DraftPartyEntry) (s : DraftPartyEntry)
    → all_pubkeys_resolved (ss ++ s ∷ []) ≡ all_pubkeys_resolved ss && is_some s.pubkey
resolved-append [] s = ground arith
resolved-append (x ∷ ss) s = ground (arith, resolved-append ss s)

row_ids-append :
    (rs : List InvitationInsertRow) (r : InvitationInsertRow)
    → row_ids (rs ++ r ∷ []) ≡ row_ids rs ++ r.id ∷ []
row_ids-append [] r = refl
row_ids-append (x ∷ rs) r = rw (row_ids-append rs r) refl

append_nil : (xs : List ℕ) → xs ++ [] ≡ xs
append_nil [] = refl
append_nil (x ∷ xs) = rw (append_nil xs) refl

push_slot-IsMatched : (s : Slots) (k : ℕ) → IsMatched s → IsMatched (push_slot s (resolved_slot k))
push_slot-IsMatched s k h = (
  awaited-append s.party_slots (resolved_slot k) ∙ append_nil (awaited s.party_slots) ∙ h.0,
  ground (arith, resolved-append s.party_slots (resolved_slot k)),
)

push_invitation-IsMatched :
    (s : Slots) (r : InvitationInsertRow) → IsMatched s → IsMatched (push_invitation s r)
push_invitation-IsMatched s r h = (
  rw (awaited-append s.party_slots (awaiting_slot r.id), row_ids-append s.invitation_rows r, h.0)
      refl,
  ground (arith, resolved-append s.party_slots (awaiting_slot r.id)),
)

module _ (cipher : Cipher) where
  invite_party-db :
      (key index t e : ℕ) (address : List ℕ) (w : World)
      → (invite_party cipher key index t e address w).1.db ≡ w.db
  unfolding invite_party encrypt
  invite_party-db key index t e address w = ground arith

  place_party-IsMatched :
      (key index t e : ℕ) (s : Slots) (address : List ℕ) (resolved : Option ℕ) (w : World)
      → IsMatched s
      → let (r, w') = place_party cipher key index t e s address resolved w in
        OnOk r IsMatched × (w'.db ≡ w.db)
  unfolding place_party
  place_party-IsMatched key index t e s address (some k) w h = (push_slot-IsMatched s k h, refl)
  place_party-IsMatched key index t e s address none w h =
      bind_lem (invite_party cipher key index t e address) (λ row. pure (push_invitation s row))
        (λ x. OnOk x.0 IsMatched × (x.1.db ≡ w.db)) w
        (λ r drawn. (push_invitation-IsMatched s r h, invite_party-db key index t e address w))
        (λ x refused. (tt, invite_party-db key index t e address w))

  pub add_party-IsMatched :
      (key index_key t e : ℕ) (s : Slots) (p : PartyInput) (w : World)
      → IsMatched s
      → let (r, w') = add_party cipher key index_key t e s p w in OnOk r IsMatched × (w'.db ≡ w.db)
  unfolding add_party
  add_party-IsMatched key index_key t e s (PartyInput.pubkey k) w h =
      (push_slot-IsMatched s k h, refl)
  add_party-IsMatched key index_key t e s (PartyInput.email a) w h =
      let index = hmac_index cipher a index_key in
      let query : M (Option ℕ) = fetch (λ db. pubkey_of_index index db.user_contacts db) in
      let read : (query w).1.db ≡ w.db = ground arith in
      bind_lem query (place_party cipher key index t e s a)
        (λ x. OnOk x.0 IsMatched × (x.1.db ≡ w.db)) w
        (λ resolved found.
          let placed = place_party-IsMatched key index t e s a resolved (query w).1 h in
          (placed.0, placed.1 ∙ read))
        (λ x failed. (tt, read))

  pub add_parties-IsMatched :
      (key index_key t e : ℕ) (s : Slots) (ps : List PartyInput) (w : World)
      → IsMatched s
      → let (r, w') = add_parties cipher key index_key t e s ps w in
        OnOk r IsMatched × (w'.db ≡ w.db)
  unfolding add_parties
  add_parties-IsMatched key index_key t e s [] w h = (h, refl)
  add_parties-IsMatched key index_key t e s (p ∷ ps) w h =
      let one = add_party-IsMatched key index_key t e s p w h in
      let w₁ = (add_party cipher key index_key t e s p w).1 in
      bind_lem (add_party cipher key index_key t e s p)
        (λ s'. add_parties cipher key index_key t e s' ps)
        (λ x. OnOk x.0 IsMatched × (x.1.db ≡ w.db)) w
        (λ s' added.
          let more =
            add_parties-IsMatched key index_key t e s' ps w₁
              (subst (λ r. OnOk r IsMatched) added one.0) in
          (more.0, more.1 ∙ one.1))
        (λ x refused. (tt, one.1))
