-- ===== src/Handlers/Draft/Submitted.antt =====
-- What a submission rests on, and whom it names: `submit_draft` of src/handlers/draft.rs, also after
-- `accept_invite` of src/handlers/invite.rs.
use pactum_codex.Base.{
  ℕ, ◌≡◌, refl, Bool, true, false, List, [], ◌∷◌, arith, rest, find, Option, some, Option-cases,
  inl, inr, update_where,
}
use pactum_codex.State.Rows.{Db, Draft, DraftPartyEntry, DraftPayload}
use pactum_codex.State.World.{World, ok, OnOk, Finds, Result-cases}
use pactum_codex.Handlers.Auth.{AuthUserWithWallet, SolanaSdk}
use pactum_codex.Handlers.Payment.{has_draft_id}
use pactum_codex.Services.Solana.{
  Seed, StorageBackend, Transaction, create_agreement, build_create_agreement_tx,
  calculate_vault_deposit,
}
use pactum_codex.Handlers.Draft.Submit.{
  SubmitDraftRequest, SubmitDraftResponse, draft_transaction, submit_draft, is_ready,
  has_contact_email, resolved_keys, evaluate_submit_gates, parse_storage_backend,
}
use pactum_codex.Handlers.Invite.{
  accept_invite, set_slots, has_token, resolve_party_slot_pubkey, all_pubkeys_resolved,
}
use pactum_codex.Handlers.Invite.Acceptance.{Accepts, accept_invite-Accepts}

-- The parties that a transaction puts on chain.
abbrev pub parties_of : Transaction → List ℕ
parties_of t = elim (t.data_) [ create_agreement args ↦ args.parties | _ ↦ [] ]

evaluate_submit_gates-ok :
    (paid : Bool) (d : Draft) (has_email : Bool) (id : ℕ)
    → OnOk
        (evaluate_submit_gates paid d.status has_email id)
        (λ _. (paid ≡ true) × (is_ready d.status ≡ true) × (has_email ≡ true))
unfolding evaluate_submit_gates
evaluate_submit_gates-ok paid d has_email id = ground arith

set_slots-fields :
    (ready : Bool) (slots : List DraftPartyEntry) (time : ℕ) (d : Draft)
    → ((set_slots ready slots time d).id ≡ d.id)
      × ((set_slots ready slots time d).draft_payload ≡ d.draft_payload)
set_slots-fields true slots time d = (refl, refl)
set_slots-fields false slots time d = (refl, refl)

-- The payload of a draft is not among what an acceptance sets.
payload-update_where :
    (p : Draft → Bool) (ready : Bool) (slots : List DraftPartyEntry) (time id : ℕ) (ds : List Draft)
    (d : Draft)
    → find (has_draft_id id) (update_where p (set_slots ready slots time) ds) ≡ some d
    → Finds (find (has_draft_id id) ds) (λ d'. d'.draft_payload ≡ d.draft_payload)
payload-update_where p ready slots time id [] d e = ground arith
payload-update_where p ready slots time id (x ∷ ds) d e =
    ground
      (arith, payload-update_where p ready slots time id ds d, set_slots-fields ready slots time x)

accepted_payload :
    (time : ℕ) (auth : AuthUserWithWallet) (token id : ℕ) (db db' : Db) (d : Draft)
    → Accepts time auth token db db'
    → find (has_draft_id id) db'.agreement_drafts ≡ some d
    → Finds (find (has_draft_id id) db.agreement_drafts) (λ d'. d'.draft_payload ≡ d.draft_payload)
accepted_payload time auth token id db db' d h e =
    elim (Option-cases (find (has_token token) db.party_invitations)) [
      | inl missing ↦ ground arith
      | inr (i, fi) ↦ elim (Option-cases (find (has_draft_id i.draft_id) db.agreement_drafts)) [
        | inl missing ↦ ground arith
        | inr (own, fd) ↦
            elim (Result-cases (resolve_party_slot_pubkey own.party_slots i.id auth.pubkey)) [
              | inr (_, refused) ↦ ground arith
              | inl (slots, resolved) ↦ ground (
                arith,
                payload-update_where (has_draft_id i.draft_id) (all_pubkeys_resolved slots) slots
                    time id db.agreement_drafts d,
              )
            ]
      ]
    ]

module _ (sdk : SolanaSdk) (find_program_address : List Seed → ℕ)
    (hex_decode : List ℕ → Option (List ℕ)) (vault : ℕ) where
  draft_transaction-ok :
      (auth : AuthUserWithWallet) (payload : DraftPayload) (req : SubmitDraftRequest)
      (b : StorageBackend) (w : World)
      → let (r, w') =
          draft_transaction sdk find_program_address hex_decode vault auth payload req b w in
        OnOk r (λ x. parties_of x.1.transaction ≡ resolved_keys sdk.parse_pubkey payload.parties)
        × (w'.db ≡ w.db)
  unfolding draft_transaction build_create_agreement_tx calculate_vault_deposit
  draft_transaction-ok auth payload req b w = (ground arith, ground arith)

  -- A submission that succeeds is of a draft that exists, is paid for and is ready, by its creator,
  -- who has an email address; the transaction names as its parties the keys that stand in the
  -- payload of the draft, and in no other column.
  pub submit_draft-gated :
      (auth : AuthUserWithWallet) (id : ℕ) (req : SubmitDraftRequest) (w : World)
      (x : SubmitDraftResponse)
      → (submit_draft sdk find_program_address hex_decode vault auth id req w).0 ≡ ok x
      → Finds (find (has_draft_id id) w.db.agreement_drafts) (λ d.
        (d.creator_pubkey ≡ auth.pubkey)
        × (d.paid ≡ true)
        × (is_ready d.status ≡ true)
        × (has_contact_email auth.user_id w.db ≡ true)
        × (parties_of x.transaction ≡ resolved_keys sdk.parse_pubkey d.draft_payload.parties))
  unfolding submit_draft
  submit_draft-gated auth id req w x h =
      elim (Option-cases (find (has_draft_id id) w.db.agreement_drafts)) [
        | inl missing ↦ ground arith
        | inr (d, found) ↦ elim (Result-cases (parse_storage_backend req.storage_backend)) [
          | inr (e, unknown) ↦ ground arith
          | inl (b, known) ↦
              let w₃ : World = record w {
                faults = rest (rest (rest w.faults));
                db = record (w.db) {
                  agreement_drafts =
                      update_where (has_draft_id id)
                        (λ d. record d {
                          storage_uri = some req.storage_uri;
                          storage_uploaded = true;
                        })
                        w.db.agreement_drafts;
                };
              } in
              ground (
                arith,
                evaluate_submit_gates-ok d.paid d (has_contact_email auth.user_id w.db) id,
                draft_transaction-ok auth d.draft_payload req b w₃,
              )
        ]
      ]

  -- Whoever joins by an invitation is left out of the agreement: after an acceptance that succeeded,
  -- and on the tables that it left, a submission that succeeds names as its parties the keys that
  -- stood in the draft's payload before the acceptance.
  pub submit_draft_stale :
      (auth' : AuthUserWithWallet) (token : ℕ) (w : World)
      → (accept_invite auth' token w).0 ≡ ok tt
      → (auth : AuthUserWithWallet) (id : ℕ) (req : SubmitDraftRequest) (w' : World)
        (x : SubmitDraftResponse)
      → w'.db ≡ (accept_invite auth' token w).1.db
      → (submit_draft sdk find_program_address hex_decode vault auth id req w').0 ≡ ok x
      → Finds
          (find (has_draft_id id) w.db.agreement_drafts)
          (λ d. parties_of x.transaction ≡ resolved_keys sdk.parse_pubkey d.draft_payload.parties)
  submit_draft_stale auth' token w h auth id req w' x e s =
      elim (accept_invite-Accepts auth' token w) [
        | inr (refused, _, _) ↦ absurd (refused h)
        | inl accepts ↦
            let gated = submit_draft-gated auth id req w' x s in
            elim (Option-cases (find (has_draft_id id) w'.db.agreement_drafts)) [
              | inl missing ↦ ground arith
              | inr (d, found) ↦
                  ground
                    (arith, accepted_payload w.now auth' token id w.db w'.db d (rw e accepts) found)
            ]
      ]
