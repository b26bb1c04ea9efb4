-- ===== src/Services/SolanaPay/Tests.antt =====
-- Payment links and confirmations on small values.
use pactum_codex.Base.{◌≡◌, refl, true, false, some, none, [], ◌∷◌}
use pactum_codex.State.Rows.{Payment, PaymentStatus}
use pactum_codex.State.World.{World, ok}
use pactum_codex.State.Sample.{calm, empty_db}
use pactum_codex.Services.SolanaPay.{
  codes, decimal, strip_zeros, format_amount_6dp, confirm_payment_atomic,
}
use pactum_codex.Base.{pos}

format_fraction : format_amount_6dp (pos 1990000) ≡ codes "1.99"
unfolding format_amount_6dp decimal strip_zeros
format_fraction = refl

-- A payment of the draft 31 that awaits the reference 70.
abbrev awaiting : Payment
awaiting = record {
  id = 1;
  draft_id = 31;
  method = "usdc";
  status = PaymentStatus.pending;
  token_reference_pubkey = some 70;
  token_mint = some 11;
  token_amount = some 1990000;
  token_tx_signature = none;
  refund_amount = none;
  refund_tx_signature = none;
  refund_initiated_at = none;
  refund_completed_at = none;
  created_at = 999000;
  confirmed_at = none;
  agreement_pda = none;
}

abbrev billed : World
billed = record calm { db = record empty_db { agreement_payments = awaiting ∷ [] } }

accepted : (confirm_payment_atomic 70 5 11 1990000 billed).0 ≡ ok true
unfolding confirm_payment_atomic
accepted = refl

abbrev after : World
after = (confirm_payment_atomic 70 5 11 1990000 billed).1

calm_after : after.faults 0 ≡ false
unfolding confirm_payment_atomic
calm_after = refl
