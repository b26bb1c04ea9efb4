-- ===== src/Startup.antt =====
-- The start of the process: src/main.rs, src/services/keypair_security.rs, and the health endpoint of
-- src/router.rs. A keypair is known by its public key's text; a path is text, so that
-- `InvalidKeypairPath` does not occur.
pub mod Ready
mod Tests
use pactum_codex.Base.{
  ℕ, ◌+◌, String, Bool, true, false, Option, none, some, List, [], ◌∷◌, ◌==◌, ◌&&◌, length,
  bytes_eq, if◌then◌else◌,
}
use pactum_codex.Error.{AppError}
use pactum_codex.Config.{Config}
use pactum_codex.Config.Environment.{Environment, from_env}
use pactum_codex.State.Health.{ProcessHealth, HealthState, new, set, mark_degraded}
use pactum_codex.State.World.{Result, ok, err}
use pactum_codex.Workers.Policy.{WorkerCriticality}
use pactum_codex.Workers.Supervisor.{Supervisor, JoinOutcome, spawn, task_starts, task_ends}

-- What a spawned task may do while the main task goes on: it begins to run, its worker ends, or its
-- running worker reports itself degraded.
pub data Task : Type 0 where
  starts : ℕ → Task
  ends : ℕ → WorkerCriticality → JoinOutcome → Task
  reports : Task

abbrev pub run_task : Task → Supervisor → Supervisor
run_task (Task.starts k) s = task_starts k s
run_task (Task.ends k c o) s = task_ends k c o s
run_task Task.reports s = record s { process_health = mark_degraded s.process_health }

abbrev pub run_tasks : List Task → Supervisor → Supervisor
run_tasks [] s = s
run_tasks (t ∷ ts) s = run_tasks ts (run_task t s)

-- The environment, the file system, PostgreSQL, the network and the keypairs of the Solana SDK.
-- `describe` is the text of a library's error about a file.
pub record Outside : Type 0 where
  pub env : Environment
  pub read_to_string : List ℕ → Option (List ℕ)
  pub parse_bytes : List ℕ → Option (List ℕ)
  pub try_from : List ℕ → Option (List ℕ)
  pub describe : List ℕ → String
  pub connects : List ℕ → Bool
  pub migrates : Bool
  pub binds : List ℕ → ℕ → Bool
  -- what the spawned tasks do after the start of a worker, before the main task goes on
  pub schedule : ℕ → List Task
  pub name : List ℕ → ℕ
  pub parse_sol : List ℕ → Option ℕ

pub data Role : Type 0 where
  vault treasury : Role

pub data StartupError : Type 0 where
  missing_required_config database_unavailable migration_failed : StartupError
  keypair_unavailable : Role → AppError → StartupError

pub record AppState : Type 0 where
  pub config : Config
  pub vault_pubkey : List ℕ
  pub treasury_pubkey : List ℕ
  pub process_health : HealthState

pub data Boot (A : Type 0) : Type 0 where
  done : A → Boot A
  failed : StartupError → Boot A
  panicked : Boot A

infixl 5 ◌>>=◌
abbrev pub ◌>>=◌ : {A B : Type 0} → Boot A → (A → Boot B) → Boot B
done a >>= f = f a
failed e >>= f = failed e
panicked >>= f = panicked

abbrev pub or_fail : {A : Type 0} → Option A → StartupError → Boot A
or_fail none e = failed e
or_fail (some a) e = done a

abbrev pub check : Bool → StartupError → Boot (Unit {0})
check true e = done tt
check false e = failed e

-- `assert_eq!`
abbrev pub assert_eq : List ℕ → List ℕ → Boot (Unit {0})
assert_eq a b = if bytes_eq a b then done tt else panicked

abbrev pub key_of : Result (List ℕ) → Role → Boot (List ℕ)
key_of (ok pubkey) role = done pubkey
key_of (err e) role = failed (StartupError.keypair_unavailable role e)

module _ (out : Outside) where
  abbrev pub load_failed : List ℕ → Result (List ℕ)
  load_failed path = err (AppError.keypair_load_failed (out.describe path))

  abbrev pub read_keypair : List ℕ → Option (List ℕ) → Result (List ℕ)
  read_keypair path none = load_failed path
  read_keypair path (some pubkey) = ok pubkey

  abbrev pub keypair_of_bytes : List ℕ → Option (List ℕ) → Result (List ℕ)
  keypair_of_bytes path none = load_failed path
  keypair_of_bytes path (some bytes) =
      if length bytes == 64
      then read_keypair path (out.try_from bytes)
      else err (AppError.keypair_load_failed "Invalid keypair length")

  unfoldable pub load_keypair : List ℕ → Result (List ℕ)
  load_keypair path = elim (out.read_to_string path) [
    | none ↦ load_failed path
    | some json ↦ keypair_of_bytes path (out.parse_bytes json)
  ]

  unfoldable pub load_required_keypair : List ℕ → Role → Boot (List ℕ)
  load_required_keypair path role = key_of (load_keypair path) role

  -- A panic of the loader is caught.
  unfoldable pub load_required_config : Boot Config
  load_required_config =
      or_fail (from_env out.name out.parse_sol out.read_to_string out.env)
        StartupError.missing_required_config

  unfoldable pub validate_keypair_pubkeys : AppState → Boot (Unit {0})
  validate_keypair_pubkeys state = do
    u ← assert_eq state.vault_pubkey state.config.platform_vault_pubkey
    assert_eq state.treasury_pubkey state.config.platform_treasury_pubkey

  unfoldable pub bootstrap_state : Boot AppState
  bootstrap_state = do
    config ← load_required_config
    connected ← check (out.connects config.database_url) StartupError.database_unavailable
    migrated ← check out.migrates StartupError.migration_failed
    vault_keypair ← load_required_keypair config.platform_vault_keypair_path Role.vault
    treasury_keypair ← load_required_keypair config.platform_treasury_keypair_path Role.treasury
    let state : AppState = record {
      config = config;
      vault_pubkey = vault_keypair;
      treasury_pubkey = treasury_keypair;
      process_health = new ProcessHealth.startup_failed;
    } in
        do valid ← validate_keypair_pubkeys state; done state

-- The workers by number, in the order of their start; only the keeper, 1, is critical.
abbrev pub runtime_workers : List (ℕ × WorkerCriticality)
runtime_workers =
    (0, WorkerCriticality.non_critical)
    ∷ (1, WorkerCriticality.critical)
    ∷ (2, WorkerCriticality.non_critical)
    ∷ (3, WorkerCriticality.non_critical)
    ∷ (4, WorkerCriticality.non_critical)
    ∷ []

-- The runtime has several threads: after each start, the tasks that have been spawned may run.
abbrev pub spawn_all : (ℕ → List Task) → List (ℕ × WorkerCriticality) → Supervisor → Supervisor
spawn_all schedule [] s = s
spawn_all schedule (w ∷ ws) s = spawn_all schedule ws (run_tasks (schedule w.0) (spawn w.0 s))

unfoldable pub spawn_runtime_workers : (ℕ → List Task) → HealthState → Supervisor
spawn_runtime_workers schedule health =
    spawn_all schedule runtime_workers (record { lifecycle = []; process_health = health })

-- A process that serves, or one that ends with an error or a panic.
pub data Process : Type 0 where
  serving : AppState → Supervisor → Process
  stopped : StartupError → Process
  unbound crashed : Process

abbrev pub serve : Outside → AppState → Process
serve out state =
    let healthy = set state.process_health ProcessHealth.healthy in
    let spawned = spawn_runtime_workers out.schedule healthy in
    if out.binds state.config.server_host state.config.server_port
    then Process.serving (record state { process_health = spawned.process_health }) spawned
    else Process.unbound

unfoldable pub main : Outside → Process
main out = elim (bootstrap_state out) [
  | done state ↦ serve out state
  | failed e ↦ Process.stopped e
  | panicked ↦ Process.crashed
]

pub record HealthResponse : Type 0 where
  pub code : ℕ
  pub status : String
  pub process_alive : Bool
  pub workers : String

unfoldable pub health_response : ProcessHealth → HealthResponse
health_response ProcessHealth.healthy = record {
  code = 200;
  status = "healthy";
  process_alive = true;
  workers = "ready";
}
health_response ProcessHealth.degraded = record {
  code = 200;
  status = "degraded";
  process_alive = true;
  workers = "degraded";
}
health_response ProcessHealth.startup_failed = record {
  code = 503;
  status = "startup-failed";
  process_alive = false;
  workers = "unavailable";
}
health_response ProcessHealth.runtime_failed = record {
  code = 503;
  status = "runtime-failed";
  process_alive = true;
  workers = "failed";
}
