-- ===== src/Workers/Supervisor/Laws.antt =====
-- What holds of every interleaving of the supervised workers of src/workers/supervisor.rs.
use pactum_codex.Base.{
  ℕ, ◌≤◌, ◌≡◌, ◌≢◌, refl, ◌∙◌, Option, none, some, List, [], ◌∷◌, arith, ◌==◌, if◌then◌else◌,
}
use pactum_codex.State.Health.{ProcessHealth, current}
use pactum_codex.Workers.Policy.{WorkerCriticality}
use pactum_codex.Workers.Supervisor.{
  Supervisor, WorkerLifecycle, JoinOutcome, lookup, insert, lifecycle_of, observed, spawn,
  task_starts, task_ends,
}
use pactum_codex.Workers.Supervisor.Step.{Step, Reach}

pub lookup-insert :
    (k j : ℕ) (v : WorkerLifecycle) (m : List (ℕ × WorkerLifecycle))
    → lookup j (insert k v m) ≡ (if k == j then some v else lookup j m)
lookup-insert k j v [] = refl
lookup-insert k j v ((i, u) ∷ m) = ground (arith, lookup-insert k j v m)

-- How far a worker's life has got; an unknown worker stands at the start.
abbrev pub stage : Option WorkerLifecycle → ℕ
stage none = 0
stage (some WorkerLifecycle.starting) = 1
stage (some WorkerLifecycle.running) = 2
stage (some WorkerLifecycle.exited) = 3
stage (some WorkerLifecycle.panicked) = 3
stage (some WorkerLifecycle.cancelled) = 3

ended_stage :
    (k : ℕ) (o : JoinOutcome) (m : List (ℕ × WorkerLifecycle))
    → 3 ≤ stage (lookup k (insert k (observed o) m))
ended_stage k o m = ground (arith, lookup-insert k k (observed o) m)

-- The byte of the health orders `healthy`, `degraded` and `runtime_failed` by severity.
Step-severity :
    {s t : Supervisor}
    → Step s t
    → s.process_health ≤ 2
    → s.process_health ≤ t.process_health × (t.process_health ≤ 2)
unfolding spawn task_starts task_ends
Step-severity (Step.spawns k h) b = ground arith
Step-severity (Step.starts k h) b = ground arith
Step-severity (Step.ends k WorkerCriticality.critical o h) b = ground arith
Step-severity (Step.ends k WorkerCriticality.non_critical o h) b = ground arith
Step-severity (Step.reports k h) b = ground arith

Reach-severity :
    {s t : Supervisor}
    → s.process_health ≤ 2
    → Reach s t
    → s.process_health ≤ t.process_health × (t.process_health ≤ 2)
Reach-severity b Reach.here = omega arith
Reach-severity b (Reach.next r st) =
    let before = Reach-severity b r in let after = Step-severity st before.1 in omega arith

Step-stage :
    {s t : Supervisor} (j : ℕ) → Step s t → stage (lifecycle_of s j) ≤ stage (lifecycle_of t j)
unfolding spawn task_starts task_ends
Step-stage {s} j (Step.spawns k h) =
    ground (arith, lookup-insert k j WorkerLifecycle.starting s.lifecycle)
Step-stage {s} j (Step.starts k h) =
    ground (arith, lookup-insert k j WorkerLifecycle.running s.lifecycle)
Step-stage {s} j (Step.ends k c o h) = ground (arith, lookup-insert k j (observed o) s.lifecycle)
Step-stage j (Step.reports k h) = omega arith

Step-ended :
    {s t : Supervisor} (j : ℕ)
    → Step s t
    → 3 ≤ stage (lifecycle_of s j)
    → lifecycle_of t j ≡ lifecycle_of s j
unfolding spawn task_starts task_ends
Step-ended {s} j (Step.spawns k h) e =
    ground (arith, lookup-insert k j WorkerLifecycle.starting s.lifecycle)
Step-ended {s} j (Step.starts k h) e =
    ground (arith, lookup-insert k j WorkerLifecycle.running s.lifecycle)
Step-ended {s} j (Step.ends k c o h) e = ground (arith, lookup-insert k j (observed o) s.lifecycle)
Step-ended j (Step.reports k h) e = refl

-- Over any interleaving of the supervised tasks no worker's lifecycle ever goes back: unknown,
-- `Starting`, `Running`, ended.
pub Reach-stage :
    {s t : Supervisor} (j : ℕ) → Reach s t → stage (lifecycle_of s j) ≤ stage (lifecycle_of t j)
Reach-stage j Reach.here = omega arith
Reach-stage j (Reach.next r st) = omega (arith, Step-stage j st, Reach-stage j r)

Reach-ended :
    {s t : Supervisor} (j : ℕ)
    → 3 ≤ stage (lifecycle_of s j)
    → Reach s t
    → lifecycle_of t j ≡ lifecycle_of s j
Reach-ended j e Reach.here = refl
Reach-ended j e (Reach.next r st) =
    let before = Reach-ended j e r in Step-ended j st (rw before e) ∙ before

-- How the end of a worker of that criticality has to show in the health of the process.
abbrev pub IsReported : WorkerCriticality → ProcessHealth → Type 0
IsReported WorkerCriticality.critical h = h ≡ ProcessHealth.runtime_failed
IsReported WorkerCriticality.non_critical h = h ≢ ProcessHealth.healthy

-- From a health that is not `startup_failed`, after a supervised task has ended: in every state that
-- the tasks can reach from there, the end is reported (as `runtime_failed` for a critical worker, as
-- anything but healthy for another), and the worker's lifecycle is the observed outcome.
pub task_ends-IsReported :
    (k : ℕ) (c : WorkerCriticality) (o : JoinOutcome) (s : Supervisor) {t : Supervisor}
    → s.process_health ≤ 2
    → Reach (task_ends k c o s) t
    → IsReported c (current t.process_health) × (lifecycle_of t k ≡ some (observed o))
unfolding task_ends
task_ends-IsReported k WorkerCriticality.critical o s b r =
    let end = lookup-insert k k (observed o) s.lifecycle in
    let later = Reach-severity (omega arith) r in
    (ground arith, ground (arith, Reach-ended k (ended_stage k o s.lifecycle) r))
task_ends-IsReported k WorkerCriticality.non_critical o s b r =
    let end = lookup-insert k k (observed o) s.lifecycle in
    let later = Reach-severity (ground arith) r in
    (ground arith, ground (arith, Reach-ended k (ended_stage k o s.lifecycle) r))
