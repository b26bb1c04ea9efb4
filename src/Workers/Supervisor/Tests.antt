-- ===== src/Workers/Supervisor/Tests.antt =====
-- Two workers: a critical one and one that is not.
use pactum_codex.Base.{◌≡◌, refl, arith, some, []}
use pactum_codex.Workers.Policy.{WorkerCriticality}
use pactum_codex.Workers.Supervisor.{
  Supervisor, WorkerLifecycle, JoinOutcome, lifecycle_of, spawn, task_starts, task_ends,
}
use pactum_codex.Workers.Supervisor.Step.{Step, Reach}
use pactum_codex.Workers.Supervisor.Laws.{IsReported, task_ends-IsReported}
use pactum_codex.State.Health.{ProcessHealth}

abbrev idle : Supervisor
idle = record { lifecycle = []; process_health = 0 }

abbrev both_run : Supervisor
both_run = task_starts 2 (spawn 2 (task_starts 1 (spawn 1 idle)))

abbrev keeper_dead : Supervisor
keeper_dead = task_ends 1 WorkerCriticality.critical JoinOutcome.panic both_run

-- After the critical worker's panic the other worker reports itself degraded.
later : Reach keeper_dead (record keeper_dead { process_health = 2 })
unfolding task_ends spawn task_starts
later = Reach.next Reach.here (Step.reports 2 refl)

-- The panic of the critical worker shows in every later state.
task_ends-IsReported_example :
    IsReported WorkerCriticality.critical ProcessHealth.runtime_failed
    × (lifecycle_of (record keeper_dead { process_health = 2 }) 1 ≡ some WorkerLifecycle.panicked)
unfolding task_starts spawn
task_ends-IsReported_example =
    task_ends-IsReported 1 WorkerCriticality.critical JoinOutcome.panic both_run (ground arith)
      later
