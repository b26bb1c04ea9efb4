-- ===== src/Workers/NotificationWorker.antt =====
-- The worker that dispatches the notification queue: src/workers/notification_worker.rs. The
-- configured key is decoded by the parameter `decode_key`; the status and the users are those of
-- Workers/Retry.
pub mod Undone
mod Tests
use pactum_codex.Base.{
  ℕ, zero, suc, Bool, true, false, ◌&&◌, ◌||◌, String, Option, none, some, List, ◌==◌, find,
  is_some, if◌then◌else◌,
}
use text.Mathlib.Text.{◌==◌ as str_eq}
use pactum_codex.Config.{Config}
use pactum_codex.State.Rows.{Db, Contact, NotificationJob}
use pactum_codex.State.World.{
  M, Void, Result, ok, err, ◌>>=◌, ◌>>◌, pure, attempt, choose, for_each, fetch,
}
use pactum_codex.Handlers.Auth.{wallet_owner}
use pactum_codex.Handlers.Ws.{send_to_user}
use pactum_codex.Services.Crypto.{Cipher, decrypt}
use pactum_codex.Services.Notification.{
  NotificationEvent, as_str, send_email, fetch_pending_jobs, mark_sent, increment_attempts,
  build_ws_event,
}
use pactum_codex.Workers.Policy.{WorkerStatus}
use pactum_codex.Workers.Retry.{
  transition_to_degraded, transition_to_healthy, lookup_user_id, found,
}

-- `match job.event_type.as_str()`
unfoldable pub parse_event : String → Option NotificationEvent
parse_event s =
    if str_eq s "AgreementCreated"
    then some NotificationEvent.agreement_created
    else if str_eq s "Signed"
    then some NotificationEvent.signed
    else if str_eq s "Completed"
    then some NotificationEvent.completed
    else if str_eq s "Cancelled"
    then some NotificationEvent.cancelled
    else if str_eq s "Expired"
    then some NotificationEvent.expired
    else if str_eq s "RevokeVote"
    then some NotificationEvent.revoke_vote
    else if str_eq s "Revoked"
    then some NotificationEvent.revoked
    else if str_eq s "DraftReadyToSubmit"
    then some NotificationEvent.draft_ready_to_submit
    else if str_eq s "InvitationExpired"
    then some NotificationEvent.invitation_expired
    else if str_eq s "InvitationReminder"
    then some NotificationEvent.invitation_reminder
    else if str_eq s "PaymentConfirmed"
    then some NotificationEvent.payment_confirmed
    else if str_eq s "RefundInitiated"
    then some NotificationEvent.refund_initiated
    else if str_eq s "RefundCompleted"
    then some NotificationEvent.refund_completed
    else none

-- `if let Err(e) = mark_sent(…) { let _ = increment_attempts(…) }`
abbrev pub after_mark : ℕ → Result Void → M Void
after_mark id (ok done) = pure tt
after_mark id (err e) = attempt (increment_attempts id) >> pure tt

unfoldable pub finish_job : ℕ → M Void
finish_job id = attempt (mark_sent id) >>= after_mark id

unfoldable pub retry_job : ℕ → M Void
retry_job id = attempt (increment_attempts id) >> pure tt

-- `if ws_delivered || email_sent`
unfoldable pub conclude_job : ℕ → Bool → M Void
conclude_job id delivered = choose delivered (finish_job id) (retry_job id)

abbrev pub is_ok : Result Void → Bool
is_ok (ok done) = true
is_ok (err e) = false

-- `user_id = $1 AND email_enc IS NOT NULL`
abbrev pub contact_of : ℕ → Db → Option Contact
contact_of user db = find (λ c. c.user_id == user && is_some c.email_enc) db.user_contacts

abbrev pub read_email : Result (List ℕ) → Option (List ℕ)
read_email (ok email) = some email
read_email (err e) = none

module _ (cipher : Cipher) (decode_key : ℕ → Option ℕ) (config : Config) where
  abbrev pub decrypt_with : Option ℕ → Option ℕ → Option ℕ → Option (List ℕ)
  decrypt_with (some key) (some ciphertext) (some nonce) =
      read_email (decrypt cipher ciphertext nonce key)
  decrypt_with (some key) (some ciphertext) none = none
  decrypt_with (some key) none o = none
  decrypt_with none o p = none

  abbrev pub email_of : Option Contact → Option (List ℕ)
  email_of none = none
  email_of (some c) = decrypt_with (decode_key config.encryption_key) c.email_enc c.email_nonce

  abbrev pub contact_email : Option ℕ → M (Option (List ℕ))
  contact_email none = pure none
  contact_email (some user) = do
    row ← attempt (fetch (contact_of user))
    pure (email_of (found row))

  unfoldable pub lookup_user_email : ℕ → M (Option (List ℕ))
  lookup_user_email pubkey = do
    user ← attempt (fetch (wallet_owner pubkey))
    contact_email (found user)

  -- An event of another type ends the job here, with nothing marked.
  abbrev pub mail_event : NotificationJob → Bool → List ℕ → Option NotificationEvent → M Void
  mail_event job ws_delivered email none = pure tt
  mail_event job ws_delivered email (some event) = do
    sent ← attempt (send_email email event job.agreement_pda)
    conclude_job job.id (ws_delivered || is_ok sent)

  unfoldable pub mail_job : NotificationJob → Bool → Option (List ℕ) → M Void
  mail_job job ws_delivered none = conclude_job job.id true
  mail_job job ws_delivered (some email) =
      mail_event job ws_delivered email (parse_event job.event_type)

  unfoldable pub dispatch_job : NotificationJob → Option ℕ → M Void
  dispatch_job job none = finish_job job.id
  dispatch_job job (some user_id) = do
    ws_delivered ← send_to_user user_id (build_ws_event job)
    email ← lookup_user_email job.recipient_pubkey
    mail_job job ws_delivered email

  unfoldable pub process_job : NotificationJob → M Void
  process_job job = lookup_user_id job.recipient_pubkey >>= dispatch_job job

  unfoldable pub process_jobs : WorkerStatus → Result (List NotificationJob) → M WorkerStatus
  process_jobs status (err e) = transition_to_degraded status
  process_jobs status (ok jobs) = for_each process_job jobs >> pure (transition_to_healthy status)

  -- One turn of the loop of `run`.
  unfoldable pub run_cycle : WorkerStatus → M WorkerStatus
  run_cycle status = attempt (fetch_pending_jobs 10) >>= process_jobs status

  unfoldable pub run_cycles : ℕ → WorkerStatus → M WorkerStatus
  run_cycles zero status = pure status
  run_cycles (suc n) status = run_cycle status >>= run_cycles n
