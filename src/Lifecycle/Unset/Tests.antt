-- ===== src/Lifecycle/Unset/Tests.antt =====
-- A refund that is due, of an agreement with one party.
use pactum_codex.Base.{◌≡◌, refl, none, some, [], ◌∷◌, All}
use pactum_codex.State.Rows.{Payment, PaymentStatus, Party, PartyStatus}
use pactum_codex.State.Sample.{calm}
use pactum_codex.State.World.{World}
use pactum_codex.Handlers.Payment.{new_payment}
use pactum_codex.Services.Refund.{execute_refund, send_transaction}
use pactum_codex.Workers.Keeper.{expire_timed_out_payments}
use pactum_codex.Workers.RefundWorker.{
  pending_refunds, process_refund, process_refunds, process_rows, process_pending_refunds,
  settle_refund, mark_refunded, report_error, status_for_reason,
}
use pactum_codex.Workers.RefundWorker.Settled.{OfNothing}
use pactum_codex.Lifecycle.Running.{Run, done, next, timed_out}
use pactum_codex.Lifecycle.Tests.{linked}
use pactum_codex.Lifecycle.Unset.{NoneSet, Run-OfNothing}

abbrev owed : Payment
owed = record (new_payment 41 31 "usdc" 11 1990000 77 500000) {
  status = PaymentStatus.refund_pending;
  agreement_pda = some 900;
}

abbrev party : Party
party = record {
  party_pubkey = 6;
  agreement_pda = 900;
  creator_pubkey = 5;
  status = PartyStatus.cancelled;
  signed_at = none;
  created_at = 1;
  expires_at = 2;
}

abbrev due : World
due = record calm {
  db = record calm.db { agreement_payments = owed ∷ []; agreement_parties = party ∷ [] };
}

abbrev scanned : World
scanned = (expire_timed_out_payments due).1

abbrev run : Run linked due scanned
run = next (timed_out due) done

abbrev paid : World
paid = (process_pending_refunds linked.sdk linked.associated_token_address scanned).1

Run-OfNothing_example : NoneSet scanned × All OfNothing paid.transfers
unfolding expire_timed_out_payments
Run-OfNothing_example =
    Run-OfNothing linked linked.sdk linked.associated_token_address run (refl, tt) tt

-- A transfer of nothing is submitted, and the payment is recorded as refunded.
refunded_nothing :
    paid.transfers ≡ record { to = 511; mint = 11; amount = 0; recent_blockhash = 2 } ∷ []
unfolding expire_timed_out_payments process_pending_refunds process_rows process_refunds
    process_refund pending_refunds settle_refund mark_refunded report_error status_for_reason
    execute_refund send_transaction
refunded_nothing = refl
