-- ===== src/Workers/EventListener/Listening.antt =====
-- The process's health while src/workers/event_listener.rs loses its connection and finds it again.
mod Events
pub use Events.*
use pactum_codex.Base.{
  ℕ, ◌≡◌, ◌≢◌, refl, arith, String, Option, none, some, List, [], ◌∷◌, update_where, if◌then◌else◌,
}
use pactum_codex.State.Events.{WsEvent}
use pactum_codex.State.Rows.{Db, PartyStatus}
use pactum_codex.State.World.{
  World, M, Void, ok, ◌>>=◌, ◌>>◌, pure, attempt, fetch, execute, for_each, choose, bind_lem,
  bind_ok,
}
use pactum_codex.State.Keeps.{
  Keeps, Keeps-bind, Keeps-fetch, Keeps-for_each, Keeps-choose, Keeps-execute,
}
use pactum_codex.Services.Notification.{enqueue_notification}
use pactum_codex.Services.ProgramLog.{InstructionType, ParsedEvent, LogData, ProgramLog, parse_logs}
use pactum_codex.Workers.Policy.{WorkerStatus}
use pactum_codex.Workers.Retry.{transition_to_degraded, transition_to_healthy}
use pactum_codex.Workers.EventListener.{
  insert_party, notify, broadcast, broadcast_to_parties, parties_of_agreement, mark_for_refund,
  mark_found, initiate_refund_if_eligible, has_unsigned, of_agreement, set_party_status,
  record_signature, known, handle_cancellation, handle_cancel_agreement, handle_expire_agreement,
  handle_create_agreement, announce_signature, handle_sign_agreement, handle_vote_revoke,
  handle_instruction, handle_event, handle_parsed, receive, run_session, run_sessions,
}
use pactum_codex.Workers.EventListener.Frames.{
  Untouched, notify_all-Untouched, broadcast_all-Untouched, broadcast_to_parties-Untouched,
}

module _ (name : List ℕ → ℕ) where
  handle_instruction-NotHealthy :
      (i : InstructionType) (event : ParsedEvent)
      → Keeps NotHealthy (handle_instruction name i event)
  unfolding handle_instruction handle_create_agreement handle_sign_agreement handle_cancel_agreement
      handle_expire_agreement handle_vote_revoke
  handle_instruction-NotHealthy InstructionType.create_agreement event =
      let pda = event.agreement_pda in
      Keeps-bind NotHealthy (for_each (insert_party pda (known name event.creator)) event.parties)
        (λ _.
          for_each (notify "AgreementCreated" pda) event.parties
          >> for_each (broadcast (WsEvent.agreement_created pda)) event.parties)
        (Keeps-for_each NotHealthy (insert_party pda (known name event.creator))
          (insert_party-NotHealthy pda (known name event.creator)) event.parties)
        (λ _.
          Keeps-bind NotHealthy (for_each (notify "AgreementCreated" pda) event.parties)
            (λ _. for_each (broadcast (WsEvent.agreement_created pda)) event.parties)
            (notify_all-NotHealthy "AgreementCreated" pda event.parties)
            (λ _. broadcast_all-NotHealthy (WsEvent.agreement_created pda) event.parties))
  handle_instruction-NotHealthy InstructionType.sign_agreement event =
      let pda = event.agreement_pda in
      let signer = known name event.signer in
      Keeps-bind NotHealthy (record_signature pda signer)
        (λ b. choose b (announce_signature pda signer) (pure tt))
        (record_signature-NotHealthy pda signer)
        (λ b.
          Keeps-choose NotHealthy b (announce_signature pda signer) (pure tt)
            (announce_signature-NotHealthy pda signer) (λ w h. h))
  handle_instruction-NotHealthy InstructionType.cancel_agreement event =
      handle_cancellation-NotHealthy PartyStatus.cancelled "Cancelled" WsEvent.agreement_cancelled
        event
  handle_instruction-NotHealthy InstructionType.expire_agreement event =
      handle_cancellation-NotHealthy PartyStatus.expired "Expired" WsEvent.agreement_expired event
  handle_instruction-NotHealthy InstructionType.vote_revoke event =
      let pda = event.agreement_pda in
      Keeps-bind NotHealthy (notify "RevokeVote" pda (known name event.signer))
        (λ _. broadcast_to_parties pda (WsEvent.agreement_revoke_vote pda))
        (notify-NotHealthy "RevokeVote" pda (known name event.signer))
        (λ _. broadcast_to_parties-NotHealthy pda (WsEvent.agreement_revoke_vote pda))

  module _ (from_json : List ℕ → Option LogData) where
    handle_parsed-NotHealthy :
        (o : Option ParsedEvent) → Keeps NotHealthy (handle_parsed name from_json o)
    unfolding handle_event
    handle_parsed-NotHealthy none w h = h
    handle_parsed-NotHealthy (some event) w h =
        handle_instruction-NotHealthy event.instruction event w h

    receive-NotHealthy : (logs : List ProgramLog) → Keeps NotHealthy (receive name from_json logs)
    unfolding receive
    receive-NotHealthy [] = λ w h. h
    receive-NotHealthy (log ∷ logs) =
        Keeps-bind NotHealthy
          (handle_parsed name from_json (parse_logs name from_json log.signature log.logs))
          (λ _. receive name from_json logs)
          (handle_parsed-NotHealthy (parse_logs name from_json log.signature log.logs))
          (λ _. receive-NotHealthy logs)

    transition-NotHealthy :
        (status : WorkerStatus) → Keeps NotHealthy (transition_to_degraded status)
    unfolding transition_to_degraded
    transition-NotHealthy WorkerStatus.healthy w h = ground arith
    transition-NotHealthy WorkerStatus.degraded w h = h
    transition-NotHealthy WorkerStatus.disabled w h = ground arith

    run_session-NotHealthy :
        (status : WorkerStatus) (s : Option (List ProgramLog))
        → Keeps NotHealthy (run_session name from_json status s)
    unfolding run_session
    run_session-NotHealthy status none = transition-NotHealthy status
    run_session-NotHealthy status (some logs) =
        Keeps-bind NotHealthy (receive name from_json logs)
          (λ _. transition_to_degraded (transition_to_healthy status)) (receive-NotHealthy logs)
          (λ _. transition-NotHealthy (transition_to_healthy status))

    run_sessions-NotHealthy :
        (status : WorkerStatus) (ss : List (Option (List ProgramLog)))
        → Keeps NotHealthy (run_sessions name from_json status ss)
    unfolding run_sessions
    run_sessions-NotHealthy status [] = λ w h. h
    run_sessions-NotHealthy status (s ∷ ss) =
        Keeps-bind NotHealthy (run_session name from_json status s)
          (λ next. run_sessions name from_json next ss) (run_session-NotHealthy status s)
          (λ next. run_sessions-NotHealthy next ss)

    degraded-NotHealthy : (w : World) → NotHealthy (transition_to_degraded WorkerStatus.healthy w).1
    unfolding transition_to_degraded
    degraded-NotHealthy w = ground arith

    handle_parsed-quiet :
        (o : Option ParsedEvent) (w : World) → (handle_parsed name from_json o w).0 ≡ ok tt
    handle_parsed-quiet none w = refl
    handle_parsed-quiet (some event) w = refl

    receive-quiet : (logs : List ProgramLog) (w : World) → (receive name from_json logs w).0 ≡ ok tt
    unfolding receive
    receive-quiet [] w = refl
    receive-quiet (log ∷ logs) w =
        let o = parse_logs name from_json log.signature log.logs in
        let w' = (handle_parsed name from_json o w).1 in
        bind_ok (handle_parsed name from_json o) (λ _. receive name from_json logs)
          (λ q. q.0 ≡ ok tt) w {w' = w'} (λ i. (handle_parsed-quiet o w i, w'))
          (receive-quiet logs w')

    first_session :
        (s : Option (List ProgramLog)) (w : World)
        → NotHealthy (run_session name from_json WorkerStatus.healthy s w).1
    unfolding run_session transition_to_healthy
    first_session none w = degraded-NotHealthy w
    first_session (some logs) w =
        let w' = (receive name from_json logs w).1 in
        bind_ok (receive name from_json logs) (λ _. transition_to_degraded WorkerStatus.healthy)
          (λ q. NotHealthy q.1) w {w' = w'} (λ i. (receive-quiet logs w i, w'))
          (degraded-NotHealthy w')

    -- From the first connection that is lost or fails, the process is not healthy, however many of
    -- the later ones succeed and whatever they deliver.
    pub run_sessions_unhealthy :
        (s : Option (List ProgramLog)) (ss : List (Option (List ProgramLog))) (w : World)
        → NotHealthy (run_sessions name from_json WorkerStatus.healthy (s ∷ ss) w).1
    unfolding run_sessions
    run_sessions_unhealthy s ss w =
        let w' = (run_session name from_json WorkerStatus.healthy s w).1 in
        bind_lem (run_session name from_json WorkerStatus.healthy s)
          (λ next. run_sessions name from_json next ss) (λ q. NotHealthy q.1) w
          (λ next _. run_sessions-NotHealthy next ss w' (first_session s w))
          (λ _ _. first_session s w)
