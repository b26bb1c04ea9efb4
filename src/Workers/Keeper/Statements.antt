-- ===== src/Workers/Keeper/Statements.antt =====
-- The statements of the housekeeping worker and what they select: src/workers/keeper.rs.
use pactum_codex.Base.{
  ℕ, ◌+◌, Bool, false, ◌&&◌, Option, none, some, List, ◌==◌, ltb, is_some, map, select,
  delete_where, update_where, concat_map, find, if◌then◌else◌,
}
use pactum_codex.Error.{AppError}
use pactum_codex.State.Health.{mark_degraded}
use pactum_codex.State.Rows.{
  Db, Nonce, RefreshToken, Wallet, Contact, Invitation, InvitationStatus, Payment, PaymentStatus,
}
use pactum_codex.State.World.{
  M, Void, Result, ok, err, ◌>>=◌, ◌>>◌, pure, attempt, for_each, execute, call_rpc, now,
}
use pactum_codex.Handlers.Draft.{is_pending_invitation}
use pactum_codex.Services.SolanaPay.{has_status, codes}
use pactum_codex.Services.Notification.{NotificationEvent, send_email}
use pactum_codex.Workers.Policy.{WorkerStatus, DegradationReason, suggested_status}

-- Ignore the result of a step.
abbrev pub ignore : {A : Type 0} → M A → M Void
ignore m = attempt m >> pure tt

-- `SELECT pubkey FROM auth_wallet WHERE user_id = u.id LIMIT 1`
abbrev pub first_pubkey : Db → ℕ → Option Wallet
first_pubkey db user = find (λ a. a.user_id == user) db.auth_wallet

abbrev pub owns_pubkey : Db → ℕ → ℕ → Bool
owns_pubkey db pubkey user = elim (first_pubkey db user) [
  | none ↦ false
  | some a ↦ a.pubkey == pubkey
]

-- `status = 'pending' AND reminder_count = 0 AND created_at < threshold`
abbrev pub needs_reminder : ℕ → ℕ → Invitation → Bool
needs_reminder after time i =
    is_pending_invitation i && i.reminder_count == 0 && ltb (i.created_at + after) time

abbrev pub contacts_of : Db → ℕ → List Contact
contacts_of db user = select (λ c. c.user_id == user && is_some c.email_enc) db.user_contacts

-- A row of the join for each draft, user and contact that the invitation meets.
abbrev pub reminder_rows : Db → Invitation → List ℕ
reminder_rows db i =
    concat_map
      (λ d.
        concat_map (λ u. map (λ c. i.id) (contacts_of db u))
          (select (owns_pubkey db d.creator_pubkey) (map (λ a. a.id) db.user_accounts)))
      (select (λ d. d.id == i.draft_id) db.agreement_drafts)

unfoldable pub due_reminders : ℕ → ℕ → Db → List ℕ
due_reminders after time db =
    concat_map (reminder_rows db) (select (needs_reminder after time) db.party_invitations)

abbrev pub set_reminded : ℕ → Invitation → Invitation
set_reminded time i = record i {
  reminder_sent_at = some time;
  reminder_count = i.reminder_count + 1;
}

unfoldable pub count_reminder : ℕ → M Void
count_reminder inv_id = do
  time ← now
  execute (λ db. record db {
    party_invitations = update_where (λ i. i.id == inv_id) (set_reminded time) db.party_invitations;
  })

-- The mail's address is a constant.
abbrev pub reminder_address : List ℕ
reminder_address = codes "invited@example.com"

abbrev pub after_mail : ℕ → Result Void → M Void
after_mail inv_id (err e) = pure tt
after_mail inv_id (ok sent) = ignore (count_reminder inv_id)

unfoldable pub send_reminder : ℕ → M Void
send_reminder inv_id =
    attempt (send_email reminder_address NotificationEvent.invitation_reminder none)
    >>= after_mail inv_id

-- `match result { Ok(rows) => …, Err(e) => log }`
abbrev pub for_rows : {A : Type 0} → (A → M Void) → Result (List A) → M Void
for_rows m (err e) = pure tt
for_rows m (ok rows) = for_each m rows

abbrev pub set_expired : Invitation → Invitation
set_expired i = record i { status = InvitationStatus.expired }

-- `status = 'pending' AND expires_at < $1`
abbrev pub is_stale : ℕ → Invitation → Bool
is_stale time i = is_pending_invitation i && ltb i.expires_at time

unfoldable pub expire_stale_invitations : M Void
expire_stale_invitations = do
  time ← now
  ignore (
      execute (λ db. record db {
        party_invitations = update_where (is_stale time) set_expired db.party_invitations;
      }))

unfoldable pub circuit_breaker_status : ℕ → ℕ → Option (WorkerStatus × DegradationReason)
circuit_breaker_status vault_sol vault_min_sol_circuit_breaker =
    let reason = DegradationReason.circuit_breaker_tripped in
    if ltb vault_sol vault_min_sol_circuit_breaker
    then some (suggested_status reason, reason)
    else none

abbrev pub mark_process_degraded : M Void
mark_process_degraded w = (ok tt, record w { process_health = mark_degraded w.process_health })

-- `last_sweep_at > now - 86400`
abbrev pub swept_today : ℕ → Db → Bool
swept_today time db = ltb time (db.last_sweep_at + 86400)

unfoldable pub mark_swept : M Void
mark_swept = do time ← now; ignore (execute (λ db. record db { last_sweep_at = time }))

abbrev pub set_payment_expired : Payment → Payment
set_payment_expired p = record p { status = PaymentStatus.expired }

-- `status = 'pending' AND created_at < now - 900`
abbrev pub is_timed_out : ℕ → Payment → Bool
is_timed_out time p = has_status PaymentStatus.pending p && ltb (p.created_at + 900) time

unfoldable pub expire_timed_out_payments : M Void
expire_timed_out_payments = do
  time ← now
  ignore (
      execute (λ db. record db {
        agreement_payments =
            update_where (is_timed_out time) set_payment_expired db.agreement_payments;
      }))

-- `status = 'expired' AND created_at > now - 3600 AND token_reference_pubkey IS NOT NULL`
abbrev pub is_late : ℕ → Payment → Bool
is_late time p =
    has_status PaymentStatus.expired p
    && ltb time (p.created_at + 3600)
    && is_some p.token_reference_pubkey

abbrev pub late_payments : ℕ → Db → List Payment
late_payments time db = select (is_late time) db.agreement_payments

abbrev pub set_refund_due : ℕ → Payment → Payment
set_refund_due time p = record p {
  status = PaymentStatus.refund_pending;
  refund_initiated_at = some time;
}

unfoldable pub mark_late : ℕ → M Void
mark_late payment_id = do
  time ← now
  execute (λ db. record db {
    agreement_payments =
        update_where (λ p. p.id == payment_id) (set_refund_due time) db.agreement_payments;
  })

abbrev pub after_lookup : ℕ → Result ℕ → M Void
after_lookup payment_id (err e) = pure tt
after_lookup payment_id (ok account) = ignore (mark_late payment_id)

-- The account of the reference exists when the node replies.
unfoldable pub reconcile_found : ℕ → Option ℕ → M Void
reconcile_found payment_id none = pure tt
reconcile_found payment_id (some ref_pubkey) =
    attempt (call_rpc AppError.solana_rpc_error) >>= after_lookup payment_id

-- `created_at < now - 300`
abbrev pub is_old_nonce : ℕ → Nonce → Bool
is_old_nonce time n = ltb (n.created_at + 300) time

-- `expires_at < now`
abbrev pub is_expired_token : ℕ → RefreshToken → Bool
is_expired_token time t = ltb t.expires_at time

unfoldable pub cleanup_expired_auth_records : M Void
cleanup_expired_auth_records = do
  time ← now
  ignore
      (execute (λ db. record db { siws_nonces = delete_where (is_old_nonce time) db.siws_nonces }))
  later ← now
  ignore (
      execute (λ db. record db {
        refresh_tokens = delete_where (is_expired_token later) db.refresh_tokens;
      }))
