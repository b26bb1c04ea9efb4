-- ===== src/Lifecycle/Submitted.antt =====
-- The submission of a draft (`submit_draft` of src/handlers/draft.rs) along the machine of Lifecycle:
-- its last statement writes the agreement's address into the draft's confirmed payments.
use pactum_codex.Base.{
  ℕ, ◌≡◌, refl, arith, Option, none, some, List, ◌==◌, ◌&&◌, update_where, head, ◌⊎◌, inl, inr,
}
use pactum_codex.State.Rows.{Payment, PaymentStatus}
use pactum_codex.State.World.{World, Finds}
use pactum_codex.State.Keeps.{Keeps}
use pactum_codex.Handlers.Auth.{AuthUserWithWallet, SolanaSdk}
use pactum_codex.Handlers.Draft.Submit.{
  SubmitDraftRequest, submit_draft, draft_transaction, record_agreement,
}
use pactum_codex.Services.Solana.{
  Seed, build_create_agreement_tx, derive_agreement_pda, calculate_vault_deposit,
}
use pactum_codex.Services.SolanaPay.{has_status}
use pactum_codex.Lifecycle.{here, Tracks}
use pactum_codex.Lifecycle.Operations.{updated, IsTracked}
use pactum_codex.Lifecycle.Updates.{All-every}

-- The table with an agreement's address in the confirmed payments of a draft.
abbrev pub linked_payments : ℕ → ℕ → List Payment → List Payment
linked_payments draft pda xs =
    update_where (λ p. p.draft_id == draft && has_status PaymentStatus.confirmed p)
      (λ p. record p { agreement_pda = some pda }) xs

linked_payments-IsTracked :
    (draft pda : ℕ) (ps xs : List Payment)
    → IsTracked ps xs
    → IsTracked ps (linked_payments draft pda xs)
linked_payments-IsTracked draft pda ps xs t =
    updated (λ p. p.draft_id == draft && has_status PaymentStatus.confirmed p)
      (λ p. record p { agreement_pda = some pda }) ps xs (λ x. refl)
      (All-every (λ x h. (refl, here)) xs) t

written-Tracks :
    (ps : List Payment) (draft : ℕ) (w w' : World) (pda : ℕ → ℕ) (o : Option ℕ)
    → Finds o (λ creator.
      w'.db.agreement_payments ≡ linked_payments draft (pda creator) w.db.agreement_payments)
    → Tracks ps w
    → Tracks ps w'
written-Tracks ps draft w w' pda none h t = elim h [ ]
written-Tracks ps draft w w' pda (some c) h t =
    rw h (linked_payments-IsTracked draft (pda c) ps w.db.agreement_payments t)

module _ (sdk : SolanaSdk) (find_program_address : List Seed → ℕ)
    (hex_decode : List ℕ → Option (List ℕ)) (vault : ℕ) where
  -- A submission leaves the payments as they are, or writes the address of the new agreement.
  pub submit_draft_lem :
      (auth : AuthUserWithWallet) (draft : ℕ) (req : SubmitDraftRequest) (w : World)
      → let w' = (submit_draft sdk find_program_address hex_decode vault auth draft req w).1 in
        (w'.db.agreement_payments ≡ w.db.agreement_payments)
        ⊎ Finds (sdk.parse_pubkey auth.pubkey) (λ creator.
          w'.db.agreement_payments
          ≡ linked_payments draft
              (derive_agreement_pda find_program_address creator (head w.supply))
              w.db.agreement_payments)
  unfolding submit_draft draft_transaction build_create_agreement_tx calculate_vault_deposit
      record_agreement
  submit_draft_lem auth draft req w = ground arith

  pub submit_draft-Tracks :
      (ps : List Payment) (auth : AuthUserWithWallet) (draft : ℕ) (req : SubmitDraftRequest)
      → Keeps (Tracks ps) (submit_draft sdk find_program_address hex_decode vault auth draft req)
  submit_draft-Tracks ps auth draft req w t = elim (submit_draft_lem auth draft req w) [
    | inl same ↦ rw same t
    | inr written ↦
        let w' = (submit_draft sdk find_program_address hex_decode vault auth draft req w).1 in
        let pda = λ (c : ℕ). derive_agreement_pda find_program_address c (head w.supply) in
        written-Tracks ps draft w w' pda (sdk.parse_pubkey auth.pubkey) written t
  ]
