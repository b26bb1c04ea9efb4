-- ===== src/Services/Notification.antt =====
-- The notification queue: src/services/notification.rs. The texts of a mail's body are not modelled; an
-- identifier that the queue carries (an agreement's address or a draft's id) is a number, and the
-- empty text that `unwrap_or_default` gives is 0.
pub mod Sent
use pactum_codex.Base.{
  ℕ, ◌+◌, Bool, ◌&&◌, String, Option, List, [], ◌∷◌, ◌++◌, ◌==◌, leb, take, select, update_where,
  unwrap_or, is_some, if◌then◌else◌,
}
use text.Mathlib.Text.{◌==◌ as str_eq}
use pactum_codex.State.Events.{WsEvent}
use pactum_codex.State.Rows.{Db, NotificationJob, JobStatus, accepts_insert, accepts_update}
use pactum_codex.State.World.{M, Void, ◌>>=◌, fresh, now, deliver, fetch, execute_if, execute}

pub data NotificationEvent : Type 0 where
  agreement_created signed completed cancelled expired revoke_vote revoked : NotificationEvent
  draft_ready_to_submit invitation_expired invitation_reminder : NotificationEvent
  payment_confirmed refund_initiated refund_completed : NotificationEvent

unfoldable pub as_str : NotificationEvent → String
as_str NotificationEvent.agreement_created = "AgreementCreated"
as_str NotificationEvent.signed = "Signed"
as_str NotificationEvent.completed = "Completed"
as_str NotificationEvent.cancelled = "Cancelled"
as_str NotificationEvent.expired = "Expired"
as_str NotificationEvent.revoke_vote = "RevokeVote"
as_str NotificationEvent.revoked = "Revoked"
as_str NotificationEvent.draft_ready_to_submit = "DraftReadyToSubmit"
as_str NotificationEvent.invitation_expired = "InvitationExpired"
as_str NotificationEvent.invitation_reminder = "InvitationReminder"
as_str NotificationEvent.payment_confirmed = "PaymentConfirmed"
as_str NotificationEvent.refund_initiated = "RefundInitiated"
as_str NotificationEvent.refund_completed = "RefundCompleted"

unfoldable pub subject : NotificationEvent → String
subject NotificationEvent.agreement_created = "You've been invited to sign an agreement"
subject NotificationEvent.signed = "Agreement partially signed"
subject NotificationEvent.completed = "Agreement fully signed — credential minted"
subject NotificationEvent.cancelled = "Agreement cancelled"
subject NotificationEvent.expired = "Agreement expired unsigned"
subject NotificationEvent.revoke_vote = "A party voted to revoke the credential"
subject NotificationEvent.revoked = "Credential revoked by unanimous consent"
subject NotificationEvent.draft_ready_to_submit =
    "All parties have joined — your agreement is ready to submit"
subject NotificationEvent.invitation_expired =
    "A party hasn't responded to your agreement invitation"
subject NotificationEvent.invitation_reminder = "Reminder: you've been invited to sign an agreement"
subject NotificationEvent.payment_confirmed =
    "Payment confirmed — your agreement is ready to submit"
subject NotificationEvent.refund_initiated = "Your refund is being processed"
subject NotificationEvent.refund_completed = "Your refund has been sent to your wallet"

unfoldable pub send_email : List ℕ → NotificationEvent → Option ℕ → M Void
send_email recipient_email event agreement_pda =
    deliver
      (record { to = recipient_email; subject = subject event; agreement_pda = agreement_pda })

-- The columns that `enqueue_notification` names.
abbrev pub enqueue_columns : List String
enqueue_columns =
    "event_type" ∷ "agreement_pda" ∷ "recipient_pubkey" ∷ "scheduled_at" ∷ "status" ∷ "attempts"
    ∷ []

abbrev pub new_job : ℕ → String → Option ℕ → ℕ → ℕ → NotificationJob
new_job id event_type agreement_pda recipient time = record {
  id = id;
  event_type = event_type;
  agreement_pda = agreement_pda;
  recipient_pubkey = recipient;
  scheduled_at = time;
  status = JobStatus.pending;
  attempts = 0;
}

-- `agreement_pda` is NOT NULL in the table.
unfoldable pub enqueue_notification : String → Option ℕ → ℕ → M Void
enqueue_notification event_type agreement_pda recipient = do
  time ← now
  id ← fresh
  execute_if
      (λ w. accepts_insert w.schema.notification_queue enqueue_columns && is_some agreement_pda)
      (λ db. record db {
        notification_queue =
            db.notification_queue ++ new_job id event_type agreement_pda recipient time ∷ [];
      })

abbrev pub is_pending_job : NotificationJob → Bool
is_pending_job j = elim (j.status) [ JobStatus.pending ↦ Bool.true | JobStatus.sent ↦ Bool.false ]

-- `status = 'pending' AND scheduled_at <= $1`
abbrev pub is_due : ℕ → NotificationJob → Bool
is_due time j = is_pending_job j && leb j.scheduled_at time

-- `ORDER BY scheduled_at ASC`
abbrev pub insert_job : NotificationJob → List NotificationJob → List NotificationJob
insert_job j [] = j ∷ []
insert_job j (k ∷ ks) =
    if leb j.scheduled_at k.scheduled_at then j ∷ k ∷ ks else k ∷ insert_job j ks

abbrev pub sort_jobs : List NotificationJob → List NotificationJob
sort_jobs [] = []
sort_jobs (j ∷ js) = insert_job j (sort_jobs js)

abbrev pub due_jobs : ℕ → ℕ → Db → List NotificationJob
due_jobs limit time db = take limit (sort_jobs (select (is_due time) db.notification_queue))

unfoldable pub fetch_pending_jobs : ℕ → M (List NotificationJob)
fetch_pending_jobs limit = do time ← now; fetch (due_jobs limit time)

abbrev pub has_job_id : ℕ → NotificationJob → Bool
has_job_id id j = j.id == id

-- The UPDATE sets the column `sent_at` too.
unfoldable pub mark_sent : ℕ → M Void
mark_sent id =
    execute_if (λ w. accepts_update w.schema.notification_queue ("status" ∷ "sent_at" ∷ []))
      (λ db. record db {
        notification_queue =
            update_where (has_job_id id) (λ j. record j { status = JobStatus.sent })
              db.notification_queue;
      })

unfoldable pub increment_attempts : ℕ → M Void
increment_attempts id = execute (λ db. record db {
  notification_queue =
      update_where (has_job_id id) (λ j. record j { attempts = j.attempts + 1 })
        db.notification_queue;
})

-- `build_ws_event`; the text of any other type becomes the generic message.
unfoldable pub build_ws_event : NotificationJob → WsEvent
build_ws_event j =
    let id = unwrap_or j.agreement_pda 0 in
    if str_eq j.event_type "AgreementCreated"
    then WsEvent.agreement_created id
    else if str_eq j.event_type "Signed"
    then WsEvent.agreement_signed id
    else if str_eq j.event_type "Completed"
    then WsEvent.agreement_completed id
    else if str_eq j.event_type "Cancelled"
    then WsEvent.agreement_cancelled id
    else if str_eq j.event_type "Expired"
    then WsEvent.agreement_expired id
    else if str_eq j.event_type "RevokeVote"
    then WsEvent.agreement_revoke_vote id
    else if str_eq j.event_type "Revoked"
    then WsEvent.agreement_revoked id
    else if str_eq j.event_type "DraftReadyToSubmit"
    then WsEvent.draft_ready id
    else if str_eq j.event_type "InvitationExpired"
    then WsEvent.draft_invitation_expired id
    else if str_eq j.event_type "PaymentConfirmed"
    then WsEvent.payment_confirmed id
    else if str_eq j.event_type "RefundCompleted"
    then WsEvent.refund_completed id
    else WsEvent.generic_notification j.event_type
