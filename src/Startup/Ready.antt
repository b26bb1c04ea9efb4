-- ===== src/Startup/Ready.antt =====
-- What a process that serves has been through: src/main.rs.
use pactum_codex.Base.{
  ℕ, ◌≡◌, ◌∙◌, refl, ap, arith, Bool, true, false, Option, none, some, List, bytes_eq, bytes_eq→eq,
  [], ◌∷◌, ◌≤◌, ◌||◌, ◌==◌, ==_refl, is_some, All, Bool-cases, inl, inr,
}
use mathlib.Core.Path.{subst}
use pactum_codex.Config.Sections.{OnSome}
use pactum_codex.Config.Started.{IsStarted, from_env-IsStarted}
use pactum_codex.State.Health.{current}
use pactum_codex.State.World.{Result, ok, err}
use pactum_codex.Workers.Supervisor.{
  Supervisor, WorkerLifecycle, lifecycle_of, observed, spawn, task_starts, task_ends,
}
use pactum_codex.Workers.Supervisor.Laws.{lookup-insert}
use pactum_codex.Workers.Policy.{WorkerCriticality}
use pactum_codex.Startup.{
  Outside, Role, StartupError, AppState, Boot, done, failed, panicked, ◌>>=◌, or_fail, check,
  assert_eq, key_of, load_keypair, load_required_keypair, load_required_config,
  validate_keypair_pubkeys, bootstrap_state, Task, run_task, run_tasks, spawn_all, runtime_workers,
  spawn_runtime_workers, Process, main, serve, health_response,
}

abbrev OnDone : {A : Type 0} → Boot A → (A → Type 0) → Type 0
OnDone (done a) P = P a
OnDone (failed _) P = Unit
OnDone panicked P = Unit

OnDone-bind :
    {A B : Type 0} (m : Boot A) (f : A → Boot B) (P : B → Type 0)
    → ((a : A) → m ≡ done a → OnDone (f a) P)
    → OnDone (m >>= f) P
OnDone-bind (done a) f P h = h a refl
OnDone-bind (failed e) f P h = tt
OnDone-bind panicked f P h = tt

bind-done :
    {A B : Type 0} (m : Boot A) (f : A → Boot B) (b : B)
    → (m >>= f) ≡ done b
    → (a : A) × (m ≡ done a) × (f a ≡ done b)
bind-done (done a) f b e = (a, refl, e)
bind-done (failed e) f b h = cc
bind-done panicked f b h = cc

or_fail-done :
    {A : Type 0} (o : Option A) (e : StartupError) (a : A) → or_fail o e ≡ done a → o ≡ some a
or_fail-done none e a h = cc
or_fail-done (some a) e b h = cc

check-done : (b : Bool) (e : StartupError) (u : Unit {0}) → check b e ≡ done u → b ≡ true
check-done true e u h = refl
check-done false e u h = cc

key_of-done : (r : Result (List ℕ)) (role : Role) (k : List ℕ) → key_of r role ≡ done k → r ≡ ok k
key_of-done (ok k) role k' h = cc
key_of-done (err e) role k h = cc

assert_eq-done : (a b : List ℕ) (u : Unit {0}) → assert_eq a b ≡ done u → a ≡ b
assert_eq-done a b u h = elim (Bool-cases (bytes_eq a b)) [
  | inl same ↦ bytes_eq→eq a b same
  | inr other ↦ absurd (ground arith)
]

-- The settings were read, the database answered and has its migrations, and each key file holds the
-- key whose public key the settings name.
pub record IsBooted (out : Outside) (state : AppState) : Type 0 where
  pub settings : IsStarted out.env state.config
  pub database : out.connects state.config.database_url ≡ true
  pub migrated : out.migrates ≡ true
  pub vault_key :
      load_keypair out state.config.platform_vault_keypair_path
      ≡ ok state.config.platform_vault_pubkey
  pub treasury_key :
      load_keypair out state.config.platform_treasury_keypair_path
      ≡ ok state.config.platform_treasury_pubkey

bootstrap_state-IsBooted : (out : Outside) → OnDone (bootstrap_state out) (IsBooted out)
unfolding bootstrap_state load_required_config load_required_keypair validate_keypair_pubkeys
bootstrap_state-IsBooted out = OnDone-bind (load_required_config out) _ _ λ config c.
    OnDone-bind (check (out.connects config.database_url) StartupError.database_unavailable) _ _
      λ u d. OnDone-bind (check out.migrates StartupError.migration_failed) _ _ λ u₁ m.
        OnDone-bind (load_required_keypair out config.platform_vault_keypair_path Role.vault) _ _
          λ vault v.
            OnDone-bind
              (load_required_keypair out config.platform_treasury_keypair_path Role.treasury) _ _
              λ treasury t.
                OnDone-bind
                  (assert_eq vault config.platform_vault_pubkey >>= λ _.
                    assert_eq treasury config.platform_treasury_pubkey)
                  _ _
                  λ u₂ valid.
                    let (u₃, vault_is, rest) =
                      bind-done (assert_eq vault config.platform_vault_pubkey) _ u₂ valid in
                    record {
                      settings =
                          subst (λ o. OnSome o (IsStarted out.env)) (or_fail-done _ _ config c)
                            (from_env-IsStarted out.name out.parse_sol out.read_to_string out.env);
                      database = check-done _ _ u d;
                      migrated = check-done _ _ u₁ m;
                      vault_key = key_of-done _ _ vault v ∙ ap ok (assert_eq-done _ _ u₃ vault_is);
                      treasury_key =
                          key_of-done _ _ treasury t ∙ ap ok (assert_eq-done _ _ u₂ rest);
                    }

abbrev pub OnServing : Process → (AppState → Supervisor → Type 0) → Type 0
OnServing (Process.serving state s) P = P state s
OnServing _ P = Unit

-- A worker that the map of the supervisor names stays there, whatever the tasks do.
abbrev pub is_known : Supervisor → ℕ → Bool
is_known s k = is_some (lifecycle_of s k)

run_task-is_known :
    (k : ℕ) (t : Task) (s : Supervisor) → is_known s k ≡ true → is_known (run_task t s) k ≡ true
unfolding task_starts task_ends
run_task-is_known k (Task.starts j) s h =
    ground (arith, lookup-insert j k WorkerLifecycle.running s.lifecycle)
run_task-is_known k (Task.ends j c o) s h =
    ground (arith, lookup-insert j k (observed o) s.lifecycle)
run_task-is_known k Task.reports s h = h

run_tasks-is_known :
    (k : ℕ) (ts : List Task) (s : Supervisor)
    → is_known s k ≡ true
    → is_known (run_tasks ts s) k ≡ true
run_tasks-is_known k [] s h = h
run_tasks-is_known k (t ∷ ts) s h =
    run_tasks-is_known k ts (run_task t s) (run_task-is_known k t s h)

spawn-is_known :
    (k j : ℕ) (s : Supervisor) → (j == k || is_known s k) ≡ true → is_known (spawn j s) k ≡ true
unfolding spawn
spawn-is_known k j s h = ground (arith, lookup-insert j k WorkerLifecycle.starting s.lifecycle)

module _ (schedule : ℕ → List Task) where
  spawn_all-is_known :
      (k : ℕ) (ws : List (ℕ × WorkerCriticality)) (s : Supervisor)
      → is_known s k ≡ true
      → is_known (spawn_all schedule ws s) k ≡ true
  spawn_all-is_known k [] s h = h
  spawn_all-is_known k (w ∷ ws) s h =
      spawn_all-is_known k ws (run_tasks (schedule w.0) (spawn w.0 s)) (
        run_tasks-is_known k (schedule w.0) (spawn w.0 s)
          (spawn-is_known k w.0 s (ground (arith, h))))

  spawn_all-All :
      (ws : List (ℕ × WorkerCriticality)) (s : Supervisor)
      → All (λ w. is_known (spawn_all schedule ws s) w.0 ≡ true) ws
  spawn_all-All [] s = tt
  spawn_all-All (w ∷ ws) s =
      let s' = run_tasks (schedule w.0) (spawn w.0 s) in
      (
        spawn_all-is_known w.0 ws s' (
            run_tasks-is_known w.0 (schedule w.0) (spawn w.0 s)
              (spawn-is_known w.0 w.0 s (ap (λ b. b || is_known s w.0) (==_refl w.0)))),
        spawn_all-All ws s',
      )

-- No task makes the process one whose start-up failed.
run_task-health :
    (t : Task) (s : Supervisor) → s.process_health ≤ 2 → (run_task t s).process_health ≤ 2
unfolding task_ends task_starts
run_task-health (Task.starts j) s h = h
run_task-health (Task.ends j WorkerCriticality.critical o) s h = ground arith
run_task-health (Task.ends j WorkerCriticality.non_critical o) s h = ground arith
run_task-health Task.reports s h = ground arith

run_tasks-health :
    (ts : List Task) (s : Supervisor) → s.process_health ≤ 2 → (run_tasks ts s).process_health ≤ 2
run_tasks-health [] s h = h
run_tasks-health (t ∷ ts) s h = run_tasks-health ts (run_task t s) (run_task-health t s h)

spawn_all-health :
    (schedule : ℕ → List Task) (ws : List (ℕ × WorkerCriticality)) (s : Supervisor)
    → s.process_health ≤ 2
    → (spawn_all schedule ws s).process_health ≤ 2
unfolding spawn
spawn_all-health schedule [] s h = h
spawn_all-health schedule (w ∷ ws) s h =
    spawn_all-health schedule ws (run_tasks (schedule w.0) (spawn w.0 s))
      (run_tasks-health (schedule w.0) (spawn w.0 s) h)

health_response-alive : (h : ℕ) → h ≤ 2 → (health_response (current h)).process_alive ≡ true
unfolding health_response
health_response-alive h le = ground arith

-- The process has been through its start, its health endpoint answers that it is alive, and each of
-- the five workers has been started.
abbrev pub IsReady : Outside → AppState → Supervisor → Type 0
IsReady out state s =
    IsBooted out state
    × ((health_response (current state.process_health)).process_alive ≡ true)
    × All (λ k. is_known s k ≡ true) (0 ∷ 1 ∷ 2 ∷ 3 ∷ 4 ∷ [])

serving-IsReady :
    (out : Outside) (b : Boot AppState)
    → OnDone b (IsBooted out)
    → OnServing
        (elim b [
          | done state ↦ serve out state
          | failed e ↦ Process.stopped e
          | panicked ↦ Process.crashed
        ])
        (IsReady out)
unfolding spawn_runtime_workers
serving-IsReady out (failed e) h = tt
serving-IsReady out panicked h = tt
serving-IsReady out (done state) h =
    let start : Supervisor = record { lifecycle = []; process_health = 0 } in
    let spawned = spawn_all out.schedule runtime_workers start in
    elim (Bool-cases (out.binds state.config.server_host state.config.server_port)) [
      | inl bound ↦
          let h' : IsBooted out (record state { process_health = spawned.process_health }) =
            record {
              settings = h.settings;
              database = h.database;
              migrated = h.migrated;
              vault_key = h.vault_key;
              treasury_key = h.treasury_key;
            } in
          rw (bound, OnServing)
            (
              h',
              health_response-alive spawned.process_health
                  (spawn_all-health out.schedule runtime_workers start (omega arith)),
              spawn_all-All out.schedule runtime_workers start,
            )
      | inr unbound ↦ rw (unbound, OnServing) tt
    ]

-- A process that serves has read its settings, has reached the database and migrated it, and holds the
-- two keys that its settings name. Whatever the spawned tasks have done by then, its health endpoint
-- answers that the process is alive, and the map of the supervisor names each of the five workers.
pub main-IsReady : (out : Outside) → OnServing (main out) (IsReady out)
unfolding main
main-IsReady out = serving-IsReady out (bootstrap_state out) (bootstrap_state-IsBooted out)
