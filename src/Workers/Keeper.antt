-- ===== src/Workers/Keeper.antt =====
-- The housekeeping worker: src/workers/keeper.rs. Balances and thresholds in SOL, which the source
-- compares as floats, are in lamports; the alerts that are only logged are left out, but not the
-- calls of the node that they take. A time that is subtracted is added on the other side.
pub mod Cleanup
pub mod Tripped
mod Tests
mod Statements
unfoldable pub use Statements.*
use pactum_codex.Base.{
  ℕ, zero, suc, ◌+◌, ◌<◌, Bool, true, false, ◌&&◌, not, Option, none, some, List, [], ◌∷◌, ◌==◌,
  ltb, is_some, is_value, map, select, delete_where, update_where, concat_map, find, exists,
  if◌then◌else◌, rest, head,
}
use pactum_codex.Config.{Config, StablecoinInfo}
use pactum_codex.Error.{AppError}
use pactum_codex.State.Health.{mark_degraded}
use pactum_codex.State.Rows.{
  Db, Nonce, RefreshToken, Wallet, Contact, Draft, Invitation, InvitationStatus, Payment,
  PaymentStatus,
}
use pactum_codex.State.World.{
  World, M, Void, Result, ok, err, ◌>>=◌, ◌>>◌, pure, attempt, choose, for_each, fetch, execute,
  call_rpc, now,
}
use pactum_codex.Handlers.Auth.{SolanaSdk}
use pactum_codex.Handlers.Draft.{is_pending_invitation}
use pactum_codex.Services.SolanaPay.{has_status, codes}
use pactum_codex.Services.Notification.{NotificationEvent, send_email}
use pactum_codex.Workers.Policy.{WorkerStatus, DegradationReason, suggested_status, is_disabled}

module _ (sdk : SolanaSdk) (config : Config) where
  unfoldable pub send_invitation_reminders : M Void
  send_invitation_reminders = do
    time ← now
    rows ← attempt (fetch (due_reminders config.invite_reminder_after_seconds time))
    for_rows send_reminder rows

  -- The check of the USDC balance, which is only logged.
  abbrev pub check_usdc : Option ℕ → M WorkerStatus
  check_usdc none = pure WorkerStatus.healthy
  check_usdc (some usdc_mint) =
      ignore (call_rpc AppError.solana_rpc_error) >> pure WorkerStatus.healthy

  abbrev pub on_breaker : Option (WorkerStatus × DegradationReason) → M WorkerStatus
  on_breaker (some (status, reason)) = mark_process_degraded >> pure status
  on_breaker none = check_usdc (sdk.parse_pubkey config.stablecoin_registry.usdc.mint)

  abbrev pub on_balance : Result ℕ → M WorkerStatus
  on_balance (err e) = pure WorkerStatus.healthy
  on_balance (ok vault_sol) =
      on_breaker (circuit_breaker_status vault_sol config.vault_min_sol_circuit_breaker)

  unfoldable pub check_hot_wallet_balances : M WorkerStatus
  check_hot_wallet_balances = attempt (call_rpc AppError.solana_rpc_error) >>= on_balance

  -- The excess of one token is only logged.
  abbrev pub sweep_coin : Option ℕ → M Void
  sweep_coin none = pure tt
  sweep_coin (some mint) = ignore (call_rpc AppError.solana_rpc_error)

  abbrev pub sweep_to : Option ℕ → M Void
  sweep_to none = pure tt
  sweep_to (some sweep_dest) = do
    sweep_coin (sdk.parse_pubkey config.stablecoin_registry.usdc.mint)
    sweep_coin (sdk.parse_pubkey config.stablecoin_registry.usdt.mint)
    sweep_coin (sdk.parse_pubkey config.stablecoin_registry.pyusd.mint)
    mark_swept

  abbrev pub sweep_if : Result Bool → M Void
  sweep_if (err e) = pure tt
  sweep_if (ok swept) =
      choose swept (pure tt) (sweep_to (sdk.parse_pubkey config.treasury_sweep_dest))

  unfoldable pub sweep_treasury_excess : M Void
  sweep_treasury_excess = do time ← now; swept ← attempt (fetch (swept_today time)); sweep_if swept

  abbrev pub reference_key : Option ℕ → Option ℕ
  reference_key none = none
  reference_key (some reference) = sdk.parse_pubkey reference

  unfoldable pub reconcile_payment : Payment → M Void
  reconcile_payment p = reconcile_found p.id (reference_key p.token_reference_pubkey)

  unfoldable pub reconcile_late_payments : M Void
  reconcile_late_payments = do
    time ← now
    payments ← attempt (fetch (late_payments time))
    for_rows reconcile_payment payments

  -- Scans 4 to 7.
  unfoldable pub remaining_scans : WorkerStatus → M WorkerStatus
  remaining_scans status = do
    sweep_treasury_excess
    expire_timed_out_payments
    reconcile_late_payments
    cleanup_expired_auth_records
    pure status

  unfoldable pub scans : M WorkerStatus
  scans = do
    send_invitation_reminders
    expire_stale_invitations
    status ← check_hot_wallet_balances
    choose (is_disabled status) (pure status) (remaining_scans status)

  -- One turn of the loop of `run`.
  unfoldable pub run_cycle : WorkerStatus → M WorkerStatus
  run_cycle status = choose (is_disabled status) (pure status) scans

  unfoldable pub run_cycles : ℕ → WorkerStatus → M WorkerStatus
  run_cycles zero status = pure status
  run_cycles (suc n) status = run_cycle status >>= run_cycles n
