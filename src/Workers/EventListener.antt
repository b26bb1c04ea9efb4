-- ===== src/Workers/EventListener.antt =====
-- The worker that follows the on-chain program: src/workers/event_listener.rs. Every error of a
-- handler here is one of the database. The subscription itself (src/services/solana_logs.rs) is
-- input: a session is the logs that it delivered before it closed, or a failure to subscribe.
mod Frames
pub mod Replayed
pub mod Cancelled
pub mod Listening
mod Tests
use pactum_codex.Base.{
  ℕ, ◌+◌, Bool, true, false, ◌&&◌, not, String, Option, none, some, List, [], ◌∷◌, ◌++◌, map, ◌==◌,
  is_some, is_value, exists, find, select, update_where, unwrap_or, if◌then◌else◌,
}
use mathlib.Core.Option
use pactum_codex.State.Rows.{Db, Payment, PaymentStatus, Party, PartyStatus}
use pactum_codex.State.Events.{WsEvent}
use pactum_codex.State.World.{
  M, Void, Result, ok, err, ◌>>=◌, ◌>>◌, pure, attempt, choose, for_each, fetch, execute,
  execute_returning, now,
}
use pactum_codex.Handlers.Ws.{send_to_user}
use pactum_codex.Services.Notification.{enqueue_notification}
use pactum_codex.Services.ProgramLog.{InstructionType, ParsedEvent, LogData, ProgramLog, parse_logs}
use pactum_codex.Services.SolanaPay.{has_status, codes}
use pactum_codex.Workers.Policy.{WorkerStatus}
use pactum_codex.Workers.Retry.{transition_to_degraded, transition_to_healthy, lookup_user_id}

abbrev pub of_agreement : ℕ → Party → Bool
of_agreement pda a = a.agreement_pda == pda

-- The key (party_pubkey, agreement_pda) of `agreement_parties`.
abbrev pub has_key : ℕ → ℕ → Party → Bool
has_key party pda a = a.party_pubkey == party && of_agreement pda a

abbrev pub new_party : ℕ → ℕ → ℕ → ℕ → Party
new_party party pda creator time = record {
  party_pubkey = party;
  agreement_pda = pda;
  creator_pubkey = creator;
  status = PartyStatus.pending_signatures;
  signed_at = none;
  created_at = time;
  expires_at = time + 2592000;
}

-- `ON CONFLICT (party_pubkey, agreement_pda) DO NOTHING`
abbrev pub add_party_row : Party → List Party → List Party
add_party_row a rows =
    if exists (has_key a.party_pubkey a.agreement_pda) rows then rows else rows ++ a ∷ []

unfoldable pub insert_party : ℕ → ℕ → ℕ → M Void
insert_party pda creator party = do
  time ← now
  execute (λ db. record db {
    agreement_parties = add_party_row (new_party party pda creator time) db.agreement_parties;
  })

-- An error of the queue is logged.
unfoldable pub notify : String → ℕ → ℕ → M Void
notify event_type pda recipient =
    attempt (enqueue_notification event_type (some pda) recipient) >> pure tt

abbrev pub send_to_found : WsEvent → Option ℕ → M Void
send_to_found event none = pure tt
send_to_found event (some user) = send_to_user user event >> pure tt

unfoldable pub broadcast : WsEvent → ℕ → M Void
broadcast event party = lookup_user_id party >>= send_to_found event

-- `SELECT party_pubkey FROM agreement_parties WHERE agreement_pda = $1`
abbrev pub parties_of_agreement : ℕ → Db → List ℕ
parties_of_agreement pda db =
    map (λ a. a.party_pubkey) (select (of_agreement pda) db.agreement_parties)

unfoldable pub broadcast_to_parties : ℕ → WsEvent → M Void
broadcast_to_parties pda event = do
  parties ← fetch (parties_of_agreement pda)
  for_each (broadcast event) parties

-- `agreement_pda = $1 AND status = 'confirmed'`
abbrev pub is_paid_for : ℕ → Payment → Bool
is_paid_for pda p = is_value p.agreement_pda pda && has_status PaymentStatus.confirmed p

abbrev pub has_payment_id : ℕ → Payment → Bool
has_payment_id id p = p.id == id

abbrev pub set_refund_pending : ℕ → Payment → Payment
set_refund_pending time p = record p {
  status = PaymentStatus.refund_pending;
  refund_initiated_at = some time;
}

unfoldable pub mark_for_refund : ℕ → M Void
mark_for_refund id = do
  time ← now
  execute (λ db. record db {
    agreement_payments =
        update_where (has_payment_id id) (set_refund_pending time) db.agreement_payments;
  })

unfoldable pub mark_found : Option ℕ → M Void
mark_found none = pure tt
mark_found (some id) = mark_for_refund id

unfoldable pub initiate_refund_if_eligible : ℕ → M Void
initiate_refund_if_eligible pda = do
  payment_id ← fetch (λ db. Option.map (λ p. p.id) (find (is_paid_for pda) db.agreement_payments))
  mark_found payment_id

-- `signed_at IS NULL` among the agreement's parties
abbrev pub has_unsigned : ℕ → Db → Bool
has_unsigned pda db =
    exists (λ a. of_agreement pda a && not (is_some a.signed_at)) db.agreement_parties

abbrev pub set_signed : ℕ → Party → Party
set_signed time a = record a { signed_at = some time }

unfoldable pub record_signature : ℕ → ℕ → M Bool
record_signature pda signer = do
  time ← now
  execute_returning (λ db. exists (has_key signer pda) db.agreement_parties)
      (λ db. record db {
        agreement_parties =
            update_where (has_key signer pda) (set_signed time) db.agreement_parties;
      })

abbrev pub set_party_status : PartyStatus → Party → Party
set_party_status status a = record a { status = status }

-- `event.creator.as_deref().unwrap_or("unknown")`, and so for the signer.
abbrev pub known : (List ℕ → ℕ) → Option ℕ → ℕ
known name o = unwrap_or o (name (codes "unknown"))

unfoldable pub handle_cancellation : PartyStatus → String → (ℕ → WsEvent) → ParsedEvent → M Void
handle_cancellation status event_type ws_event event = do
  execute (λ db. record db {
    agreement_parties =
        update_where (of_agreement event.agreement_pda) (set_party_status status)
          db.agreement_parties;
  })
  parties ← fetch (parties_of_agreement event.agreement_pda)
  for_each (notify event_type event.agreement_pda) parties
  for_each (broadcast (ws_event event.agreement_pda)) parties
  refund ← attempt (initiate_refund_if_eligible event.agreement_pda)
  pure tt

unfoldable pub handle_cancel_agreement : ParsedEvent → M Void
handle_cancel_agreement =
    handle_cancellation PartyStatus.cancelled "Cancelled" WsEvent.agreement_cancelled

unfoldable pub handle_expire_agreement : ParsedEvent → M Void
handle_expire_agreement =
    handle_cancellation PartyStatus.expired "Expired" WsEvent.agreement_expired

-- After the signer's row has been found.
unfoldable pub announce_signature : ℕ → ℕ → M Void
announce_signature pda signer = do
  unsigned ← fetch (has_unsigned pda)
  notify (if unsigned then "Signed" else "Completed") pda signer
  broadcast_to_parties pda
      (if unsigned then WsEvent.agreement_signed pda else WsEvent.agreement_completed pda)

module _ (name : List ℕ → ℕ) where
  unfoldable pub handle_create_agreement : ParsedEvent → M Void
  handle_create_agreement event = do
    for_each (insert_party event.agreement_pda (known name event.creator)) event.parties
    for_each (notify "AgreementCreated" event.agreement_pda) event.parties
    for_each (broadcast (WsEvent.agreement_created event.agreement_pda)) event.parties

  unfoldable pub handle_sign_agreement : ParsedEvent → M Void
  handle_sign_agreement event = do
    present ← record_signature event.agreement_pda (known name event.signer)
    choose present (announce_signature event.agreement_pda (known name event.signer)) (pure tt)

  unfoldable pub handle_vote_revoke : ParsedEvent → M Void
  handle_vote_revoke event = do
    notify "RevokeVote" event.agreement_pda (known name event.signer)
    broadcast_to_parties event.agreement_pda (WsEvent.agreement_revoke_vote event.agreement_pda)

  unfoldable pub handle_instruction : InstructionType → ParsedEvent → M Void
  handle_instruction InstructionType.create_agreement event = handle_create_agreement event
  handle_instruction InstructionType.sign_agreement event = handle_sign_agreement event
  handle_instruction InstructionType.cancel_agreement event = handle_cancel_agreement event
  handle_instruction InstructionType.expire_agreement event = handle_expire_agreement event
  handle_instruction InstructionType.vote_revoke event = handle_vote_revoke event

  unfoldable pub handle_event : ParsedEvent → M Void
  handle_event event = handle_instruction event.instruction event

  module _ (from_json : List ℕ → Option LogData) where
    -- An error of a handler is logged.
    abbrev pub handle_parsed : Option ParsedEvent → M Void
    handle_parsed none = pure tt
    handle_parsed (some event) = attempt (handle_event event) >> pure tt

    -- The loop over the logs that the subscription delivers.
    unfoldable pub receive : List ProgramLog → M Void
    receive [] = pure tt
    receive (log ∷ logs) =
        handle_parsed (parse_logs name from_json log.signature log.logs) >> receive logs

    -- One turn of the loop of `run`: `connect_and_listen`, and the transition after its end.
    unfoldable pub run_session : WorkerStatus → Option (List ProgramLog) → M WorkerStatus
    run_session status none = transition_to_degraded status
    run_session status (some logs) =
        receive logs >> transition_to_degraded (transition_to_healthy status)

    unfoldable pub run_sessions : WorkerStatus → List (Option (List ProgramLog)) → M WorkerStatus
    run_sessions status [] = pure status
    run_sessions status (s ∷ ss) = run_session status s >>= λ next. run_sessions next ss
