-- ===== src/Workers/NotificationWorker/Tests.antt =====
-- The dispatch on small worlds.
use pactum_codex.Base.{◌≡◌, refl, some, [], ◌∷◌, map}
use pactum_codex.State.Sample.{calm, config}
use pactum_codex.State.World.{World}
use pactum_codex.Services.Crypto.Tests.{toy}
use pactum_codex.Services.Notification.{NotificationEvent, as_str, new_job}
use pactum_codex.Workers.Policy.{WorkerStatus}
use pactum_codex.Workers.NotificationWorker.{parse_event, run_cycles}
use pactum_codex.Workers.NotificationWorker.Undone.{
  uncounted, parse_event-as_str, run_cycles-Undone,
}

abbrev one_job : World
one_job = record calm {
  db = record calm.db {
    notification_queue = new_job 3 "Signed" (some 900) 5 10 ∷ [];
    auth_wallet = record { user_id = 1; pubkey = 5 } ∷ [];
  };
  ws_channels = 1 ∷ [];
}

parse_event-as_str_example :
    parse_event (as_str NotificationEvent.revoked) ≡ some NotificationEvent.revoked
parse_event-as_str_example = parse_event-as_str NotificationEvent.revoked

run_cycles-Undone_example :
    let w' = (run_cycles toy (λ k. some k) config 3 WorkerStatus.healthy one_job).1 in
    map uncounted w'.db.notification_queue ≡ map uncounted one_job.db.notification_queue
run_cycles-Undone_example =
    run_cycles-Undone toy (λ k. some k) config 3 WorkerStatus.healthy one_job refl
