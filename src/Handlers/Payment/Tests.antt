-- ===== src/Handlers/Payment/Tests.antt =====
-- Payments on a small world.
use pactum_codex.Base.{◌≢◌, ℕ, ◌≡◌, refl, true, false, some, none, List, [], ◌∷◌, cons, repeat}
use pactum_codex.State.Rows.{Draft, DraftStatus}
use pactum_codex.State.World.{World, ok}
use pactum_codex.State.Sample.{calm, empty_db, config}
use pactum_codex.Handlers.Auth.{AuthUserWithWallet}
use pactum_codex.Handlers.Payment.{free, pending, PendingPayment, use_free_tier, initiate_payment}
use pactum_codex.Handlers.Payment.Paid.{initiate_payment_never_pending}

abbrev draft : Draft
draft = record {
  id = 31;
  creator_pubkey = 5;
  draft_payload = record { title = "Lease"; expires_in_secs = 900000; parties = [] };
  party_slots = [];
  status = DraftStatus.ready_to_submit;
  ready_at = some 900000;
  paid = false;
  storage_uri = none;
  storage_uploaded = false;
  agreement_pda = none;
  agreement_id = none;
}

abbrev show : ℕ → List ℕ
show n = n ∷ []

abbrev creator : AuthUserWithWallet
creator = record { user_id = 8; pubkey = 5 }

-- The user 8 has used the tier twice.
abbrev twice : World
twice = record calm {
  db = record empty_db {
    agreement_drafts = draft ∷ [];
    user_agreement_counts = record { user_id = 8; free_used = 2 } ∷ [];
  };
}

-- The user 8 has used it up.
abbrev used_up : World
used_up = record calm {
  db = record empty_db {
    agreement_drafts = draft ∷ [];
    user_agreement_counts = record { user_id = 8; free_used = 3 } ∷ [];
  };
}

abbrev unlucky : World
unlucky = record twice { faults = cons false (cons false (cons false (repeat true))) }

granted : (initiate_payment show config creator 31 "usdc" twice).0 ≡ ok free
unfolding initiate_payment use_free_tier
granted = refl

-- The user 8 has used the tier up, and asks for a payment.
initiate_payment_never_pending_example :
    let (r, w') = initiate_payment show config creator 31 "usdc" used_up in
    ((p : PendingPayment) → r ≢ ok (pending p)) × (w'.db.agreement_payments ≡ [])
initiate_payment_never_pending_example =
    initiate_payment_never_pending show config creator 31 "usdc" used_up refl
