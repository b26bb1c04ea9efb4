-- ===== src/Workers/EventListener/Tests.antt =====
-- The listener on small worlds.
use pactum_codex.Base.{ℕ, ◌≡◌, refl, some, none, List, [], ◌∷◌, Option, length, All}
use pactum_codex.State.Events.{WsEvent}
use pactum_codex.State.Rows.{PaymentStatus, PartyStatus}
use pactum_codex.State.Sample.{calm}
use pactum_codex.State.World.{World, ok}
use pactum_codex.Handlers.Payment.{new_payment}
use pactum_codex.Services.ProgramLog.{InstructionType, ParsedEvent, LogData}
use pactum_codex.Services.Notification.{enqueue_notification}
use pactum_codex.Workers.Retry.{lookup_user_id}
use pactum_codex.Handlers.Ws.{send_to_user}
use pactum_codex.Workers.EventListener.{
  new_party, insert_party, notify, broadcast, handle_create_agreement, handle_cancellation,
}
use pactum_codex.Workers.EventListener.Replayed.{IsListed, handle_create_agreement_twice}
use pactum_codex.Workers.EventListener.Cancelled.{Closed, Started, handle_cancellation-Started}

abbrev created : ParsedEvent
created = record {
  instruction = InstructionType.create_agreement;
  agreement_pda = 900;
  creator = some 5;
  signer = none;
  parties = 5 ∷ 6 ∷ [];
}

abbrev after : World
after = (handle_create_agreement length created calm).1

handle_create_agreement_twice_example :
    All (IsListed 900 after.db.agreement_parties) (5 ∷ 6 ∷ [])
    × ((handle_create_agreement length created after).1.db.agreement_parties
        ≡ after.db.agreement_parties)
unfolding handle_create_agreement insert_party notify broadcast enqueue_notification lookup_user_id
    send_to_user
handle_create_agreement_twice_example =
    handle_create_agreement_twice length created calm after refl refl

-- An agreement of one party, paid for.
abbrev paid : World
paid = record calm {
  db = record calm.db {
    agreement_parties = new_party 5 900 5 1 ∷ [];
    agreement_payments =
        record (new_payment 41 3 "usdc" 11 1990000 77 500000) {
          status = PaymentStatus.confirmed;
          agreement_pda = some 900;
        }
        ∷ [];
  };
}

handle_cancellation-Started_example :
    let (r, w') =
      handle_cancellation PartyStatus.cancelled "Cancelled" WsEvent.agreement_cancelled created
        paid in
    (r ≡ ok tt) × Closed 900 PartyStatus.cancelled paid w' × Started 900 paid w'
handle_cancellation-Started_example =
    handle_cancellation-Started PartyStatus.cancelled "Cancelled" WsEvent.agreement_cancelled
      created paid (λ n. refl)

abbrev no_json : List ℕ → Option LogData
no_json s = none
