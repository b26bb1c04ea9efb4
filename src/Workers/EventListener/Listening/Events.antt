-- ===== src/Workers/EventListener/Listening/Events.antt =====
-- The parts of the handlers of events, which leave the health of the process as it is:
-- src/workers/event_listener.rs.
use pactum_codex.Base.{ℕ, ◌≢◌, refl, arith, String, List, update_where, if◌then◌else◌}
use pactum_codex.State.Events.{WsEvent}
use pactum_codex.State.Rows.{Db, PartyStatus}
use pactum_codex.State.World.{World, M, Void, ◌>>=◌, ◌>>◌, pure, attempt, fetch, execute, for_each}
use pactum_codex.State.Keeps.{Keeps, Keeps-bind, Keeps-fetch, Keeps-execute}
use pactum_codex.Services.Notification.{enqueue_notification}
use pactum_codex.Services.ProgramLog.{ParsedEvent}
use pactum_codex.Workers.EventListener.{
  insert_party, notify, broadcast, broadcast_to_parties, parties_of_agreement, mark_for_refund,
  mark_found, initiate_refund_if_eligible, has_unsigned, of_agreement, set_party_status,
  record_signature, handle_cancellation, announce_signature,
}
use pactum_codex.Workers.EventListener.Frames.{
  Untouched, notify_all-Untouched, broadcast_all-Untouched, broadcast_to_parties-Untouched,
}

abbrev pub NotHealthy : World → Type 0
NotHealthy w = w.process_health ≢ 0

carried : (w w' : World) → Untouched w w' → NotHealthy w → NotHealthy w'
carried w w' h p = rw (h.3) p

same : (w : World) → Untouched w w
same w = (refl, refl, refl, refl, refl)

pub notify_all-NotHealthy :
    (e : String) (pda : ℕ) (ps : List ℕ) → Keeps NotHealthy (for_each (notify e pda) ps)
notify_all-NotHealthy e pda ps w =
    carried w (for_each (notify e pda) ps w).1 (notify_all-Untouched w e pda ps w (same w))

pub broadcast_all-NotHealthy :
    (e : WsEvent) (ps : List ℕ) → Keeps NotHealthy (for_each (broadcast e) ps)
broadcast_all-NotHealthy e ps w =
    carried w (for_each (broadcast e) ps w).1 (broadcast_all-Untouched w e ps w (same w))

pub broadcast_to_parties-NotHealthy :
    (pda : ℕ) (e : WsEvent) → Keeps NotHealthy (broadcast_to_parties pda e)
broadcast_to_parties-NotHealthy pda e w =
    carried w (broadcast_to_parties pda e w).1 (broadcast_to_parties-Untouched w pda e w (same w))

pub notify-NotHealthy : (e : String) (pda p : ℕ) → Keeps NotHealthy (notify e pda p)
unfolding notify enqueue_notification
notify-NotHealthy e pda p w h = ground arith

refund-NotHealthy : (pda : ℕ) → Keeps NotHealthy (attempt (initiate_refund_if_eligible pda))
unfolding initiate_refund_if_eligible mark_found mark_for_refund
refund-NotHealthy pda w h = ground arith

pub insert_party-NotHealthy : (pda creator p : ℕ) → Keeps NotHealthy (insert_party pda creator p)
unfolding insert_party
insert_party-NotHealthy pda creator p w h = ground arith

pub record_signature-NotHealthy : (pda signer : ℕ) → Keeps NotHealthy (record_signature pda signer)
unfolding record_signature
record_signature-NotHealthy pda signer w h = ground arith

pub handle_cancellation-NotHealthy :
    (status : PartyStatus) (e : String) (ws : ℕ → WsEvent) (event : ParsedEvent)
    → Keeps NotHealthy (handle_cancellation status e ws event)
unfolding handle_cancellation
handle_cancellation-NotHealthy status e ws event =
    let pda = event.agreement_pda in
    let last : M Void = attempt (initiate_refund_if_eligible pda) >>= λ refund. pure tt in
    let announce : List ℕ → M Void = λ ps. for_each (broadcast (ws pda)) ps >> last in
    let from_rows : List ℕ → M Void = λ ps. for_each (notify e pda) ps >> announce ps in
    let close : Db → Db = λ db. record db {
      agreement_parties =
          update_where (of_agreement pda) (set_party_status status) db.agreement_parties;
    } in
    Keeps-bind NotHealthy (execute close) (λ _. fetch (parties_of_agreement pda) >>= from_rows)
      (Keeps-execute NotHealthy (λ _. tt) close (λ w fs h. h) (λ w h. h))
      (λ _.
        Keeps-bind NotHealthy (fetch (parties_of_agreement pda)) from_rows
          (Keeps-fetch NotHealthy (parties_of_agreement pda) (λ w fs h. h))
          (λ ps.
            Keeps-bind NotHealthy (for_each (notify e pda) ps) (λ _. announce ps)
              (notify_all-NotHealthy e pda ps)
              (λ _.
                Keeps-bind NotHealthy (for_each (broadcast (ws pda)) ps) (λ _. last)
                  (broadcast_all-NotHealthy (ws pda) ps)
                  (λ _.
                    Keeps-bind NotHealthy (attempt (initiate_refund_if_eligible pda)) (λ _. pure tt)
                      (refund-NotHealthy pda) (λ _ w h. h)))))

pub announce_signature-NotHealthy :
    (pda signer : ℕ) → Keeps NotHealthy (announce_signature pda signer)
unfolding announce_signature
announce_signature-NotHealthy pda signer =
    Keeps-bind NotHealthy (fetch (has_unsigned pda))
      (λ b.
        notify (if b then "Signed" else "Completed") pda signer
        >> broadcast_to_parties pda
            (if b then WsEvent.agreement_signed pda else WsEvent.agreement_completed pda))
      (Keeps-fetch NotHealthy (has_unsigned pda) (λ w fs h. h))
      (λ b.
        Keeps-bind NotHealthy (notify (if b then "Signed" else "Completed") pda signer)
          (λ _.
            broadcast_to_parties pda
              (if b then WsEvent.agreement_signed pda else WsEvent.agreement_completed pda))
          (notify-NotHealthy (if b then "Signed" else "Completed") pda signer)
          (λ _.
            broadcast_to_parties-NotHealthy pda
              (if b then WsEvent.agreement_signed pda else WsEvent.agreement_completed pda)))
