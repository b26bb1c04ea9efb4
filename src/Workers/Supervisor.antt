-- ===== src/Workers/Supervisor.antt =====
-- The supervisor: src/workers/supervisor.rs. A worker's name is only compared, so it is a number.
-- `spawn` is three atomic steps, between which other tasks run: the entry `Starting`, the entry
-- `Running` when the outer task is first polled, and the entry for the outcome of the inner task.
pub mod Step
pub mod Laws
mod Tests
use pactum_codex.Base.{ℕ, Option, none, some, List, [], ◌∷◌, ◌==◌, if◌then◌else◌}
use pactum_codex.State.Health.{HealthState, mark_degraded, mark_runtime_failed}
use pactum_codex.Workers.Policy.{WorkerCriticality}

pub data WorkerLifecycle : Type 0 where
  starting running exited panicked cancelled : WorkerLifecycle

-- How the inner task ended: `Ok`, a panic, or any other join error.
pub data JoinOutcome : Type 0 where
  returned panic abort : JoinOutcome

-- `DashMap<&'static str, WorkerLifecycle>`, beside the process's health that the supervisor shares.
pub record Supervisor : Type 0 where
  pub lifecycle : List (ℕ × WorkerLifecycle)
  pub process_health : HealthState

abbrev pub lookup : ℕ → List (ℕ × WorkerLifecycle) → Option WorkerLifecycle
lookup k [] = none
lookup k ((j, v) ∷ m) = if j == k then some v else lookup k m

abbrev pub insert : ℕ → WorkerLifecycle → List (ℕ × WorkerLifecycle) → List (ℕ × WorkerLifecycle)
insert k v [] = (k, v) ∷ []
insert k v ((j, u) ∷ m) = if j == k then (k, v) ∷ m else (j, u) ∷ insert k v m

abbrev pub lifecycle_of : Supervisor → ℕ → Option WorkerLifecycle
lifecycle_of s worker = lookup worker s.lifecycle

-- The status half of `record_runtime_failure`; the rest of it is logging.
unfoldable pub record_runtime_failure : WorkerCriticality → HealthState → HealthState
record_runtime_failure WorkerCriticality.non_critical h = mark_degraded h
record_runtime_failure WorkerCriticality.critical h = mark_runtime_failed h

-- `self.lifecycle.insert(worker, Starting)`
unfoldable pub spawn : ℕ → Supervisor → Supervisor
spawn worker s = record s { lifecycle = insert worker WorkerLifecycle.starting s.lifecycle }

-- The spawned task begins to run.
unfoldable pub task_starts : ℕ → Supervisor → Supervisor
task_starts worker s = record s { lifecycle = insert worker WorkerLifecycle.running s.lifecycle }

abbrev pub observed : JoinOutcome → WorkerLifecycle
observed JoinOutcome.returned = WorkerLifecycle.exited
observed JoinOutcome.panic = WorkerLifecycle.panicked
observed JoinOutcome.abort = WorkerLifecycle.cancelled

-- The `match` on the join of the worker's own task.
unfoldable pub task_ends : ℕ → WorkerCriticality → JoinOutcome → Supervisor → Supervisor
unfolding record_runtime_failure
task_ends worker c o s = record {
  lifecycle = insert worker (observed o) s.lifecycle;
  process_health = record_runtime_failure c s.process_health;
}
