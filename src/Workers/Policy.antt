-- ===== src/Workers/Policy.antt =====
-- The failure policy of the workers: src/workers/policy.rs.
use pactum_codex.Base.{Bool, true, false}

pub data WorkerCriticality : Type 0 where
  critical non_critical : WorkerCriticality

pub data BootstrapFailureAction : Type 0 where
  fail_fast disable_and_continue : BootstrapFailureAction

pub data WorkerStatus : Type 0 where
  healthy degraded disabled : WorkerStatus

pub data DegradationReason : Type 0 where
  rpc_unavailable retry_backoff circuit_breaker_tripped panic_recovered : DegradationReason

unfoldable pub on_bootstrap_failure : WorkerCriticality → BootstrapFailureAction
on_bootstrap_failure WorkerCriticality.critical = BootstrapFailureAction.fail_fast
on_bootstrap_failure WorkerCriticality.non_critical = BootstrapFailureAction.disable_and_continue

unfoldable pub on_runtime_failure : WorkerCriticality → WorkerStatus
on_runtime_failure c = WorkerStatus.disabled

abbrev pub suggested_status : DegradationReason → WorkerStatus
suggested_status DegradationReason.rpc_unavailable = WorkerStatus.degraded
suggested_status DegradationReason.retry_backoff = WorkerStatus.degraded
suggested_status DegradationReason.circuit_breaker_tripped = WorkerStatus.disabled
suggested_status DegradationReason.panic_recovered = WorkerStatus.disabled

-- `status == WorkerStatus::Disabled`, and so for the others
abbrev pub is_disabled : WorkerStatus → Bool
is_disabled WorkerStatus.disabled = true
is_disabled _ = false

abbrev pub is_degraded : WorkerStatus → Bool
is_degraded WorkerStatus.degraded = true
is_degraded _ = false

abbrev pub is_healthy : WorkerStatus → Bool
is_healthy WorkerStatus.healthy = true
is_healthy _ = false
