-- ===== src/Workers/Supervisor/Step.antt =====
-- The interleavings of the supervised tasks of src/workers/supervisor.rs, as a step relation: each
-- task's own steps come in their order, and a running worker may report itself degraded.
use pactum_codex.Base.{ℕ, ◌≡◌, some, none}
use pactum_codex.State.Health.{mark_degraded}
use pactum_codex.Workers.Policy.{WorkerCriticality}
use pactum_codex.Workers.Supervisor.{
  Supervisor, WorkerLifecycle, JoinOutcome, lifecycle_of, spawn, task_starts, task_ends,
}

pub data Step (s : Supervisor) : Supervisor → Type 0 where
  spawns : (k : ℕ) → lifecycle_of s k ≡ none → Step s (spawn k s)
  starts : (k : ℕ) → lifecycle_of s k ≡ some WorkerLifecycle.starting → Step s (task_starts k s)
  ends :
      (k : ℕ) (c : WorkerCriticality) (o : JoinOutcome)
      → lifecycle_of s k ≡ some WorkerLifecycle.running
      → Step s (task_ends k c o s)
  reports :
      (k : ℕ)
      → lifecycle_of s k ≡ some WorkerLifecycle.running
      → Step s (record s { process_health = mark_degraded s.process_health })

pub data Reach (s : Supervisor) : Supervisor → Type 0 where
  here : Reach s s
  next : {t u : Supervisor} → Reach s t → Step t u → Reach s u
