-- ===== src/Workers/NotificationWorker/Undone.antt =====
-- What the dispatch of src/workers/notification_worker.rs leaves in the queue.
use pactum_codex.Base.{
  ℕ, zero, suc, ◌+◌, ◌||◌, ◌≡◌, refl, arith, Bool, true, false, Option, none, some, List, [], ◌∷◌,
  map, update_where,
}
use pactum_codex.Config.{Config}
use pactum_codex.State.Rows.{NotificationJob}
use pactum_codex.State.Sample.{migrations}
use pactum_codex.State.World.{
  World, fetch-world, attempt, Result, ok, err, fetch, for_each, pure, ◌>>=◌, bind_lem,
}
use pactum_codex.State.Keeps.{Keeps, Keeps-bind, Keeps-for_each}
use pactum_codex.State.Events.{WsEvent}
use pactum_codex.Handlers.Auth.{wallet_owner}
use pactum_codex.Handlers.Ws.{send_to_user}
use pactum_codex.Services.Crypto.{Cipher}
use pactum_codex.Services.Notification.{
  NotificationEvent, as_str, send_email, fetch_pending_jobs, mark_sent, increment_attempts,
  build_ws_event, due_jobs, has_job_id,
}
use pactum_codex.Workers.Policy.{WorkerStatus}
use pactum_codex.Workers.Retry.{
  transition_to_degraded, transition_to_healthy, lookup_user_id, found,
}
use pactum_codex.Workers.NotificationWorker.{
  contact_email, contact_of, is_ok, parse_event, finish_job, retry_job, conclude_job,
  lookup_user_email, mail_event, mail_job, dispatch_job, process_job, process_jobs, run_cycle,
  run_cycles,
}

-- The worker reads back every type that the queue is given.
pub parse_event-as_str : (e : NotificationEvent) → parse_event (as_str e) ≡ some e
unfolding parse_event as_str
parse_event-as_str NotificationEvent.agreement_created = refl
parse_event-as_str NotificationEvent.signed = refl
parse_event-as_str NotificationEvent.completed = refl
parse_event-as_str NotificationEvent.cancelled = refl
parse_event-as_str NotificationEvent.expired = refl
parse_event-as_str NotificationEvent.revoke_vote = refl
parse_event-as_str NotificationEvent.revoked = refl
parse_event-as_str NotificationEvent.draft_ready_to_submit = refl
parse_event-as_str NotificationEvent.invitation_expired = refl
parse_event-as_str NotificationEvent.invitation_reminder = refl
parse_event-as_str NotificationEvent.payment_confirmed = refl
parse_event-as_str NotificationEvent.refund_initiated = refl
parse_event-as_str NotificationEvent.refund_completed = refl

-- A job without the count of its attempts.
abbrev pub uncounted : NotificationJob → NotificationJob
uncounted j = record j { attempts = 0 }

-- The tables are those of the migrations, and the queue is `jobs` but for the counts of attempts.
abbrev pub Undone : List NotificationJob → World → Type 0
Undone jobs w = (w.schema ≡ migrations) × (map uncounted w.db.notification_queue ≡ jobs)

counted-map :
    (id : ℕ) (js : List NotificationJob)
    → map uncounted (update_where (has_job_id id) (λ j. record j { attempts = j.attempts + 1 }) js)
      ≡ map uncounted js
counted-map id [] = refl
counted-map id (j ∷ js) = ground (arith, counted-map id js)

module _ (jobs : List NotificationJob) where
  increment-Undone : (id : ℕ) → Keeps (Undone jobs) (increment_attempts id)
  unfolding increment_attempts
  increment-Undone id w h = ground (arith, counted-map id w.db.notification_queue)

  finish-Undone : (id : ℕ) → Keeps (Undone jobs) (finish_job id)
  unfolding finish_job mark_sent increment_attempts
  finish-Undone id w h = ground (arith, h.0, counted-map id w.db.notification_queue)

  conclude-Undone : (id : ℕ) (b : Bool) → Keeps (Undone jobs) (conclude_job id b)
  unfolding conclude_job retry_job
  conclude-Undone id true w h = finish-Undone id w h
  conclude-Undone id false w h = increment-Undone id w h

  send_email-Undone :
      (email : List ℕ) (e : NotificationEvent) (pda : Option ℕ)
      → Keeps (Undone jobs) (attempt (send_email email e pda))
  unfolding send_email
  send_email-Undone email e pda w h = ground arith

  send_to_user-Undone : (user : ℕ) (e : WsEvent) → Keeps (Undone jobs) (send_to_user user e)
  unfolding send_to_user
  send_to_user-Undone user e w h = ground arith

  lookup_user_id-Undone : (key : ℕ) → Keeps (Undone jobs) (lookup_user_id key)
  unfolding lookup_user_id
  lookup_user_id-Undone key w h = rw (fetch-world (wallet_owner key) w) h

  module _ (cipher : Cipher) (decode_key : ℕ → Option ℕ) (config : Config) where
    contact_email-Undone :
        (o : Option ℕ) → Keeps (Undone jobs) (contact_email cipher decode_key config o)
    contact_email-Undone none = λ w h. h
    contact_email-Undone (some user) = λ w h. rw (fetch-world (contact_of user) w) h

    lookup_user_email-Undone :
        (key : ℕ) → Keeps (Undone jobs) (lookup_user_email cipher decode_key config key)
    unfolding lookup_user_email
    lookup_user_email-Undone key w h =
        contact_email-Undone (found (fetch (wallet_owner key) w).0) (fetch (wallet_owner key) w).1
          (rw (fetch-world (wallet_owner key) w) h)

    mail_event-Undone :
        (job : NotificationJob) (b : Bool) (email : List ℕ) (o : Option NotificationEvent)
        → Keeps (Undone jobs) (mail_event cipher decode_key config job b email o)
    mail_event-Undone job b email none = λ w h. h
    mail_event-Undone job b email (some e) = λ w h.
        let q = attempt (send_email email e job.agreement_pda) in
        bind_lem q (λ sent. conclude_job job.id (b || is_ok sent)) (λ r. Undone jobs r.1) w
          (λ sent _.
            conclude-Undone job.id (b || is_ok sent) (q w).1
              (send_email-Undone email e job.agreement_pda w h))
          (λ _ _. send_email-Undone email e job.agreement_pda w h)

    mail_job-Undone :
        (job : NotificationJob) (b : Bool) (o : Option (List ℕ))
        → Keeps (Undone jobs) (mail_job cipher decode_key config job b o)
    unfolding mail_job
    mail_job-Undone job b none = conclude-Undone job.id true
    mail_job-Undone job b (some email) = mail_event-Undone job b email (parse_event job.event_type)

    dispatch_job-Undone :
        (job : NotificationJob) (o : Option ℕ)
        → Keeps (Undone jobs) (dispatch_job cipher decode_key config job o)
    unfolding dispatch_job
    dispatch_job-Undone job none = finish-Undone job.id
    dispatch_job-Undone job (some user) =
        Keeps-bind (Undone jobs) (send_to_user user (build_ws_event job))
          (λ b.
            lookup_user_email cipher decode_key config job.recipient_pubkey
            >>= mail_job cipher decode_key config job b)
          (send_to_user-Undone user (build_ws_event job))
          (λ b.
            Keeps-bind (Undone jobs)
              (lookup_user_email cipher decode_key config job.recipient_pubkey)
              (mail_job cipher decode_key config job b)
              (lookup_user_email-Undone job.recipient_pubkey) (mail_job-Undone job b))

    process_job-Undone :
        (job : NotificationJob) → Keeps (Undone jobs) (process_job cipher decode_key config job)
    unfolding process_job
    process_job-Undone job =
        Keeps-bind (Undone jobs) (lookup_user_id job.recipient_pubkey)
          (dispatch_job cipher decode_key config job) (lookup_user_id-Undone job.recipient_pubkey)
          (dispatch_job-Undone job)

    transition-Undone :
        (status : WorkerStatus) → Keeps (Undone jobs) (transition_to_degraded status)
    unfolding transition_to_degraded
    transition-Undone WorkerStatus.healthy w h = h
    transition-Undone WorkerStatus.degraded w h = h
    transition-Undone WorkerStatus.disabled w h = h

    process_jobs-Undone :
        (status : WorkerStatus) (r : Result (List NotificationJob))
        → Keeps (Undone jobs) (process_jobs cipher decode_key config status r)
    unfolding process_jobs
    process_jobs-Undone status (err e) = transition-Undone status
    process_jobs-Undone status (ok due) =
        Keeps-bind (Undone jobs) (for_each (process_job cipher decode_key config) due)
          (λ _. pure (transition_to_healthy status))
          (Keeps-for_each (Undone jobs) (process_job cipher decode_key config) process_job-Undone
            due)
          (λ _ w h. h)

    run_cycle-Undone :
        (status : WorkerStatus) → Keeps (Undone jobs) (run_cycle cipher decode_key config status)
    unfolding run_cycle fetch_pending_jobs
    run_cycle-Undone status w h =
        let q = due_jobs 10 w.now in
        process_jobs-Undone status (fetch q w).0 (fetch q w).1 (rw (fetch-world q w) h)

module _ (cipher : Cipher) (decode_key : ℕ → Option ℕ) (config : Config) where
  cycles-Undone :
      (jobs : List NotificationJob) (n : ℕ) (status : WorkerStatus)
      → Keeps (Undone jobs) (run_cycles cipher decode_key config n status)
  unfolding run_cycles
  cycles-Undone jobs zero status = λ w h. h
  cycles-Undone jobs (suc n) status =
      Keeps-bind (Undone jobs) (run_cycle cipher decode_key config status)
        (run_cycles cipher decode_key config n)
        (run_cycle-Undone jobs cipher decode_key config status) (cycles-Undone jobs n)

  -- Against the tables of the migrations no number of cycles ends a job: the queue is the same, each
  -- job with its status and its time, but for the counts of attempts.
  pub run_cycles-Undone :
      (n : ℕ) (status : WorkerStatus) (w : World)
      → w.schema ≡ migrations
      → let w' = (run_cycles cipher decode_key config n status w).1 in
        map uncounted w'.db.notification_queue ≡ map uncounted w.db.notification_queue
  run_cycles-Undone n status w e =
      (cycles-Undone (map uncounted w.db.notification_queue) n status w (e, refl)).1
