-- ===== src/Services/Notification/Sent.antt =====
-- The end of a notification job: `mark_sent` of src/services/notification.rs.
use pactum_codex.Base.{ℕ, String, ◌≡◌, refl, arith, some, [], ◌∷◌, ◌++◌, false, head}
use pactum_codex.Error.{AppError}
use pactum_codex.State.Sample.{migrations}
use pactum_codex.State.World.{World, err}
use pactum_codex.Services.Notification.{mark_sent, enqueue_notification, new_job}

-- Against the tables of the migrations, where `enqueue_notification` adds the pending job that it is
-- asked for whenever the database answers, `mark_sent` always fails, since it sets a column that
-- `notification_queue` lacks: no table changes, and the job stays pending.
pub mark_sent_fails :
    (event : String) (pda recipient id : ℕ) (w w' : World)
    → w.schema ≡ migrations
    → w'.schema ≡ migrations
    → head w.faults ≡ false
    → ((enqueue_notification event (some pda) recipient w).1.db.notification_queue
        ≡ w.db.notification_queue ++ new_job (head w.supply) event (some pda) recipient w.now ∷ [])
      × ((mark_sent id w').0 ≡ err AppError.internal_error)
      × ((mark_sent id w').1.db ≡ w'.db)
unfolding mark_sent enqueue_notification
mark_sent_fails event pda recipient id w w' e e' fine =
    (rw (fine, e) refl, ground (arith, e'), ground (arith, e'))
