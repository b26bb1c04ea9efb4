-- ===== src/Workers/RefundWorker/Tests.antt =====
-- The refund worker on small worlds.
use pactum_codex.Base.{ℕ, ◌+◌, ◌*◌, ◌≡◌, refl, some, none, [], ◌∷◌, true}
use pactum_codex.State.Rows.{Payment, PaymentStatus, Party, PartyStatus}
use pactum_codex.State.Sample.{calm}
use pactum_codex.State.World.{World}
use pactum_codex.Handlers.Auth.{SolanaSdk}
use pactum_codex.Handlers.Payment.{new_payment}
use pactum_codex.Workers.RefundWorker.{RefundRow, process_refund, pending_refunds, refund_row}
use pactum_codex.Workers.RefundWorker.Paid.{Pays, process_refund-Pays}

abbrev sdk : SolanaSdk
sdk = record { parse_pubkey = λ k. some k; parse_signature = λ s. some s; verify = λ s k n. true }

abbrev account : ℕ → ℕ → ℕ
account owner mint = owner * 100 + mint

abbrev owed : Payment
owed = record (new_payment 41 3 "usdc" 11 1990000 77 500000) {
  status = PaymentStatus.refund_pending;
  refund_amount = some 1890000;
  agreement_pda = some 900;
}

abbrev party : ℕ → Party
party key = record {
  party_pubkey = key;
  agreement_pda = 900;
  creator_pubkey = 5;
  status = PartyStatus.cancelled;
  signed_at = none;
  created_at = 1;
  expires_at = 2;
}

-- Two parties of one agreement.
abbrev pair : World
pair = record calm {
  db = record calm.db {
    agreement_payments = owed ∷ [];
    agreement_parties = party 5 ∷ party 6 ∷ [];
  };
}

abbrev row : RefundRow
row = refund_row owed (party 5)

-- The payment is listed once for each party.
listed_twice : pending_refunds pair.db ≡ row ∷ row ∷ []
unfolding pending_refunds
listed_twice = refl

process_refund-Pays_example : Pays sdk account row pair (process_refund sdk account row pair).1
process_refund-Pays_example = process_refund-Pays sdk account row pair
