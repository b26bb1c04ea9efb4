-- ===== src/Workers/Retry.antt =====
-- What src/workers/event_listener.rs and src/workers/notification_worker.rs both have: the status of
-- a worker that retries, and the user of a wallet.
use pactum_codex.Base.{ℕ, Option, none}
use pactum_codex.State.Health.{mark_degraded}
use pactum_codex.State.World.{M, Result, ok, err, ◌>>=◌, pure, attempt, fetch}
use pactum_codex.Handlers.Auth.{wallet_owner}
use pactum_codex.Workers.Policy.{WorkerStatus}

-- The status is the worker's own variable: it is taken and returned.
unfoldable pub transition_to_degraded : WorkerStatus → M WorkerStatus
transition_to_degraded WorkerStatus.degraded w = (ok WorkerStatus.degraded, w)
transition_to_degraded WorkerStatus.healthy w =
    (ok WorkerStatus.degraded, record w { process_health = mark_degraded w.process_health })
transition_to_degraded WorkerStatus.disabled w =
    (ok WorkerStatus.degraded, record w { process_health = mark_degraded w.process_health })

unfoldable pub transition_to_healthy : WorkerStatus → WorkerStatus
transition_to_healthy status = WorkerStatus.healthy

-- `Ok(Some(row))`; anything else is no user.
abbrev pub found : {A : Type 0} → Result (Option A) → Option A
found (ok o) = o
found (err e) = none

unfoldable pub lookup_user_id : ℕ → M (Option ℕ)
lookup_user_id pubkey = do result ← attempt (fetch (wallet_owner pubkey)); pure (found result)
