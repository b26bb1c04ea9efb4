-- ===== src/Lifecycle/Tests.antt =====
-- The life of a payment on small tables.
use mathlib.Core.Option
use pactum_codex.Base.{◌+◌, ◌*◌, ◌≡◌, refl, some, [], ◌∷◌, find}
use pactum_codex.State.Rows.{Payment, PaymentStatus}
use pactum_codex.State.Sample.{config}
use pactum_codex.State.World.{World, Finds}
use pactum_codex.Handlers.Payment.{new_payment}
use pactum_codex.Services.SolanaPay.{confirm_payment_atomic}
use pactum_codex.Workers.RefundWorker.{process_pending_refunds}
use pactum_codex.Handlers.Draft.Submit.{
  submit_draft, draft_transaction, evaluate_submit_gates, validate_content_hash,
  parse_storage_backend, record_agreement,
}
use pactum_codex.Handlers.Invite.{
  accept_invite, accept_statements, announce_ready, resolve_party_slot_pubkey,
}
use pactum_codex.Handlers.Ws.{send_to_user}
use pactum_codex.Services.Notification.{enqueue_notification}
use pactum_codex.Services.Solana.{build_create_agreement_tx, calculate_vault_deposit}
use pactum_codex.Handlers.Draft.Tests.{sdk, address, decode, creator, request, complete}
use pactum_codex.Lifecycle.{Tracks, has_id}
use pactum_codex.Lifecycle.Running.{
  Linked, Run, done, next, confirmed, submitted, refunded, Run-Tracks, Run-refunded,
}

abbrev pub linked : Linked
linked = record {
  sdk = sdk;
  associated_token_address = λ owner mint. owner * 100 + mint;
  show = λ n. n ∷ [];
  config = config;
  find_program_address = address;
  hex_decode = decode;
  vault = 77;
}

abbrev asked : Payment
asked = new_payment 41 31 "usdc" 11 1990000 77 500000

abbrev over : Payment
over = record (new_payment 42 4 "usdc" 11 1990000 78 400000) { status = PaymentStatus.refunded }

abbrev two : World
two = record complete { db = record complete.db { agreement_payments = asked ∷ over ∷ [] } }

abbrev paid : World
paid = (confirm_payment_atomic 77 600 11 1990000 two).1

-- The draft of the first payment is submitted, and the refunds are looked for.
abbrev sent : World
sent = (submit_draft sdk address decode 77 creator 31 request paid).1

abbrev last : World
last = (process_pending_refunds linked.sdk linked.associated_token_address sent).1

-- The submission links the payment of its draft.
submission_links :
    Option.map (λ p. p.agreement_pda) (find (has_id 41) sent.db.agreement_payments)
    ≡ some (some 500)
unfolding submit_draft draft_transaction build_create_agreement_tx calculate_vault_deposit
    evaluate_submit_gates validate_content_hash parse_storage_backend record_agreement accept_invite
    accept_statements announce_ready resolve_party_slot_pubkey send_to_user enqueue_notification
    confirm_payment_atomic
submission_links = refl

abbrev run : Run linked two last
run =
    next (confirmed 77 600 11 1990000 two)
      (next (submitted creator 31 request paid) (next (refunded sent) done))

Run-Tracks_example : Tracks (asked ∷ over ∷ []) last
Run-Tracks_example = Run-Tracks linked run (refl, (refl, tt))

Run-refunded_example :
    Finds (find (has_id 42) last.db.agreement_payments) (λ q. q.status ≡ PaymentStatus.refunded)
Run-refunded_example = Run-refunded linked 42 over run (refl, (refl, tt)) refl refl
