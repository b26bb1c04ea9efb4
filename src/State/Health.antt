-- ===== src/State/Health.antt =====
-- The health of the process: src/state.rs, an atomic byte behind an enum.
use pactum_codex.Base.{ℕ, ◌==◌, if◌then◌else◌}

pub data ProcessHealth : Type 0 where
  healthy degraded runtime_failed startup_failed : ProcessHealth

abbrev pub encode : ProcessHealth → ℕ
encode ProcessHealth.healthy = 0
encode ProcessHealth.degraded = 1
encode ProcessHealth.runtime_failed = 2
encode ProcessHealth.startup_failed = 3

abbrev pub decode : ℕ → ProcessHealth
decode v =
    if v == 0
    then ProcessHealth.healthy
    else if v == 1
    then ProcessHealth.degraded
    else if v == 2
    then ProcessHealth.runtime_failed
    else ProcessHealth.startup_failed

-- The stored byte.
abbrev pub HealthState : Type 0
HealthState = ℕ

abbrev pub new : ProcessHealth → HealthState
new = encode

abbrev pub current : HealthState → ProcessHealth
current = decode

abbrev pub set : HealthState → ProcessHealth → HealthState
set s next = encode next

-- `compare_exchange(HEALTHY, DEGRADED)`
abbrev pub mark_degraded : HealthState → HealthState
mark_degraded s = if s == 0 then 1 else s

abbrev pub mark_runtime_failed : HealthState → HealthState
mark_runtime_failed s = set s ProcessHealth.runtime_failed
