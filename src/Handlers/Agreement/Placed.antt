-- ===== src/Handlers/Agreement/Placed.antt =====
-- The slot and the invitation that each party of a request becomes in the loop of `create_agreement`
-- of src/handlers/agreement.rs.
use pactum_codex.Base.{ℕ, ◌≡◌, refl, ◌∙◌, sym, ap, List, [], ◌∷◌, ◌++◌, arith, Option, some, none}
use mathlib.Core.Path.{subst}
use pactum_codex.State.Rows.{Db, DraftPartyEntry}
use pactum_codex.State.World.{World, OnOk, OnOk-map, bind_lem, fetch, pure, M}
use pactum_codex.Services.Crypto.{Cipher, encrypt, hmac_index}
use pactum_codex.Handlers.Agreement.{
  PartyInput, InvitationInsertRow, Slots, resolved_slot, awaiting_slot, push_slot, push_invitation,
  invite_party, place_party, add_party, add_parties, pubkey_of_index,
}
use pactum_codex.Handlers.Agreement.Matched.{IsMatched, add_party-IsMatched}

module _ (cipher : Cipher) (index_key : ℕ) (db : Db) where
  -- The wallet of the contact with an email's blind index.
  abbrev pub wallet_of : List ℕ → Option ℕ
  wallet_of address = pubkey_of_index (hmac_index cipher address index_key) db.user_contacts db

  -- The parties in their order, with the slots and the invitations that they become: a key is its
  -- slot, an email with a known wallet is that wallet's slot, and any other email is a slot that
  -- awaits an invitation with the email's blind index.
  pub data Places : List PartyInput → List DraftPartyEntry → List InvitationInsertRow → Type 0 where
    nobody : Places [] [] []
    by_key :
        {ps : List PartyInput} {ss : List DraftPartyEntry} {rs : List InvitationInsertRow} (k : ℕ)
        → Places ps ss rs
        → Places (PartyInput.pubkey k ∷ ps) (resolved_slot k ∷ ss) rs
    by_wallet :
        {ps : List PartyInput} {ss : List DraftPartyEntry} {rs : List InvitationInsertRow}
        (address : List ℕ) (k : ℕ)
        → wallet_of address ≡ some k
        → Places ps ss rs
        → Places (PartyInput.email address ∷ ps) (resolved_slot k ∷ ss) rs
    by_invitation :
        {ps : List PartyInput} {ss : List DraftPartyEntry} {rs : List InvitationInsertRow}
        (address : List ℕ) (r : InvitationInsertRow)
        → wallet_of address ≡ none
        → r.email_index ≡ hmac_index cipher address index_key
        → Places ps ss rs
        → Places (PartyInput.email address ∷ ps) (awaiting_slot r.id ∷ ss) (r ∷ rs)

  -- What one turn of the loop adds.
  record Adds (s : Slots) (p : PartyInput) (s' : Slots) : Type 0 where
    slot : DraftPartyEntry
    rows : List InvitationInsertRow
    slots : s'.party_slots ≡ s.party_slots ++ slot ∷ []
    invitations : s'.invitation_rows ≡ s.invitation_rows ++ rows
    placed :
        (ps : List PartyInput) (ss : List DraftPartyEntry) (rs : List InvitationInsertRow)
        → Places ps ss rs
        → Places (p ∷ ps) (slot ∷ ss) (rows ++ rs)

  -- What the turns from `s` on have added.
  pub record Added (s : Slots) (ps : List PartyInput) (s' : Slots) : Type 0 where
    pub slots : List DraftPartyEntry
    pub rows : List InvitationInsertRow
    pub party_slots : s'.party_slots ≡ s.party_slots ++ slots
    pub invitation_rows : s'.invitation_rows ≡ s.invitation_rows ++ rows
    pub placed : Places ps slots rows

append_nil : {A : Type 0} (xs : List A) → xs ++ [] ≡ xs
append_nil [] = refl
append_nil (x ∷ xs) = ap (λ ys. x ∷ ys) (append_nil xs)

append_assoc : {A : Type 0} (xs ys zs : List A) → (xs ++ ys) ++ zs ≡ xs ++ (ys ++ zs)
append_assoc [] ys zs = refl
append_assoc (x ∷ xs) ys zs = ap (λ us. x ∷ us) (append_assoc xs ys zs)

module _ (cipher : Cipher) (key index_key t e : ℕ) (db : Db) where
  add_key :
      (s : Slots) (k : ℕ)
      → Adds cipher index_key db s (PartyInput.pubkey k) (push_slot s (resolved_slot k))
  add_key s k = record {
    slot = resolved_slot k;
    rows = [];
    slots = refl;
    invitations = sym (append_nil s.invitation_rows);
    placed = λ ps ss rs h. by_key k h;
  }

  invite_party-index :
      (index : ℕ) (address : List ℕ) (w : World)
      → OnOk (invite_party cipher key index t e address w).0 (λ r. r.email_index ≡ index)
  unfolding invite_party encrypt
  invite_party-index index address w = ground arith

  place_party-Adds :
      (s : Slots) (address : List ℕ) (resolved : Option ℕ) (w : World)
      → wallet_of cipher index_key db address ≡ resolved
      → OnOk
          (place_party cipher key (hmac_index cipher address index_key) t e s address resolved w).0
          (Adds cipher index_key db s (PartyInput.email address))
  unfolding place_party
  place_party-Adds s address (some k) w h = record {
    slot = resolved_slot k;
    rows = [];
    slots = refl;
    invitations = sym (append_nil s.invitation_rows);
    placed = λ ps ss rs p. by_wallet address k h p;
  }
  place_party-Adds s address none w h =
      let index = hmac_index cipher address index_key in
      bind_lem (invite_party cipher key index t e address) (λ r. pure (push_invitation s r))
        (λ x. OnOk x.0 (Adds cipher index_key db s (PartyInput.email address))) w
        (λ r drawn. record {
          slot = awaiting_slot r.id;
          rows = r ∷ [];
          slots = refl;
          invitations = refl;
          placed = λ ps ss rs p.
              by_invitation address r h
                (subst (λ q. OnOk q (λ r'. r'.email_index ≡ index)) drawn
                  (invite_party-index index address w))
                p;
        })
        (λ x refused. tt)

  add_party-Adds :
      (s : Slots) (p : PartyInput) (w : World)
      → w.db ≡ db
      → OnOk (add_party cipher key index_key t e s p w).0 (Adds cipher index_key db s p)
  unfolding add_party
  add_party-Adds s (PartyInput.pubkey k) w same = add_key s k
  add_party-Adds s (PartyInput.email address) w same =
      let index = hmac_index cipher address index_key in
      let query : M (Option ℕ) = fetch (λ d. pubkey_of_index index d.user_contacts d) in
      bind_lem query (place_party cipher key index t e s address)
        (λ x. OnOk x.0 (Adds cipher index_key db s (PartyInput.email address))) w
        (λ resolved found.
          let read : pubkey_of_index index w.db.user_contacts w.db ≡ resolved =
            ground (arith, found) in
          place_party-Adds s address resolved (query w).1
            (ap (λ d. pubkey_of_index index d.user_contacts d) (sym same) ∙ read))
        (λ x failed. tt)

  extend :
      (s s' s'' : Slots) (p : PartyInput) (ps : List PartyInput)
      → Adds cipher index_key db s p s'
      → Added cipher index_key db s' ps s''
      → Added cipher index_key db s (p ∷ ps) s''
  extend s s' s'' p ps a b = record {
    slots = a.slot ∷ b.slots;
    rows = a.rows ++ b.rows;
    party_slots =
        b.party_slots
        ∙ ap (λ xs. xs ++ b.slots) a.slots
        ∙ append_assoc s.party_slots (a.slot ∷ []) b.slots;
    invitation_rows =
        b.invitation_rows
        ∙ ap (λ xs. xs ++ b.rows) a.invitations
        ∙ append_assoc s.invitation_rows a.rows b.rows;
    placed = a.placed ps b.slots b.rows b.placed;
  }

  pub add_parties-Added :
      (s : Slots) (ps : List PartyInput) (w : World)
      → w.db ≡ db
      → IsMatched s
      → OnOk (add_parties cipher key index_key t e s ps w).0 (Added cipher index_key db s ps)
  unfolding add_parties
  add_parties-Added s [] w same h = record {
    slots = [];
    rows = [];
    party_slots = sym (append_nil s.party_slots);
    invitation_rows = sym (append_nil s.invitation_rows);
    placed = nobody;
  }
  add_parties-Added s (p ∷ ps) w same h =
      let one = add_party-IsMatched cipher key index_key t e s p w h in
      let w₁ = (add_party cipher key index_key t e s p w).1 in
      bind_lem (add_party cipher key index_key t e s p)
        (λ s'. add_parties cipher key index_key t e s' ps)
        (λ x. OnOk x.0 (Added cipher index_key db s (p ∷ ps))) w
        (λ s' added.
          let adds =
            subst (λ r. OnOk r (Adds cipher index_key db s p)) added (add_party-Adds s p w same) in
          OnOk-map (add_parties cipher key index_key t e s' ps w₁).0
            (λ s'' more. extend s s' s'' p ps adds more)
            (add_parties-Added s' ps w₁ (one.1 ∙ same) (subst (λ r. OnOk r IsMatched) added one.0)))
        (λ x refused. tt)
