-- ===== src/Workers/Keeper/Tripped.antt =====
-- The circuit breaker of src/workers/keeper.rs.
use pactum_codex.Base.{ℕ, zero, suc, ◌<◌, ◌≡◌, ◌≢◌, refl, arith, some, List, [], ◌∷◌, false}
use pactum_codex.Config.{Config}
use pactum_codex.State.World.{
  World, M, Result, ok, err, ◌>>=◌, ◌>>◌, pure, choose, fetch, for_each, bind_ok,
}
use pactum_codex.State.Keeps.{Keeps, Keeps-fetch, Keeps-for_each}
use pactum_codex.Handlers.Auth.{SolanaSdk}
use pactum_codex.Services.Notification.{send_email}
use pactum_codex.Workers.Policy.{WorkerStatus, is_disabled}
use pactum_codex.Workers.Keeper.{
  due_reminders, count_reminder, send_reminder, for_rows, expire_stale_invitations,
  circuit_breaker_status, check_hot_wallet_balances, send_invitation_reminders, remaining_scans,
  scans, run_cycle, run_cycles,
}

module _ (w₀ : World) where
  -- The reminders and the expiry of invitations leave these alone.
  abbrev Before : World → Type 0
  Before w =
      (w.rpc ≡ w₀.rpc)
      × (w.db.agreement_payments ≡ w₀.db.agreement_payments)
      × (w.db.siws_nonces ≡ w₀.db.siws_nonces)
      × (w.db.refresh_tokens ≡ w₀.db.refresh_tokens)
      × (w.transfers ≡ w₀.transfers)

  send_reminder-Before : (id : ℕ) → Keeps Before (send_reminder id)
  unfolding send_reminder count_reminder send_email
  send_reminder-Before id w h = ground arith

  for_rows-Before : (r : Result (List ℕ)) → Keeps Before (for_rows send_reminder r)
  for_rows-Before (err e) = λ w h. h
  for_rows-Before (ok rows) = Keeps-for_each Before send_reminder send_reminder-Before rows

  expire-Before : Keeps Before expire_stale_invitations
  unfolding expire_stale_invitations
  expire-Before w h = ground arith

  module _ (sdk : SolanaSdk) (config : Config) where
    reminders-Before : Keeps Before (send_invitation_reminders sdk config)
    unfolding send_invitation_reminders
    reminders-Before w h =
        let q = due_reminders config.invite_reminder_after_seconds w.now in
        for_rows-Before (fetch q w).0 (fetch q w).1 (Keeps-fetch Before q (λ v fs p. p) w h)

-- The keeper is disabled and the process is not healthy; no payment has expired or has been
-- reconciled, no sign-in record has gone and nothing has been transferred.
abbrev pub Tripped : World → Result WorkerStatus × World → Type 0
Tripped w q =
    (q.0 ≡ ok WorkerStatus.disabled)
    × (q.1.process_health ≢ 0)
    × (q.1.db.agreement_payments ≡ w.db.agreement_payments)
    × (q.1.db.siws_nonces ≡ w.db.siws_nonces)
    × (q.1.db.refresh_tokens ≡ w.db.refresh_tokens)
    × (q.1.transfers ≡ w.transfers)

send_reminder-quiet : (id : ℕ) (w : World) → (send_reminder id w).0 ≡ ok tt
unfolding send_reminder count_reminder send_email
send_reminder-quiet id w = ground arith

for_rows-quiet : (r : Result (List ℕ)) (w : World) → (for_rows send_reminder r w).0 ≡ ok tt
for_rows-quiet (err e) w = refl
for_rows-quiet (ok []) w = refl
for_rows-quiet (ok (i ∷ is)) w =
    let w' = (send_reminder i w).1 in
    bind_ok (send_reminder i) (λ _. for_each send_reminder is) (λ q. q.0 ≡ ok tt) w {w' = w'}
      (λ j. (send_reminder-quiet i w j, w')) (for_rows-quiet (ok is) w')

module _ (sdk : SolanaSdk) (config : Config) where
  reminders-quiet : (w : World) → (send_invitation_reminders sdk config w).0 ≡ ok tt
  unfolding send_invitation_reminders
  reminders-quiet w =
      let q = due_reminders config.invite_reminder_after_seconds w.now in
      for_rows-quiet (fetch q w).0 (fetch q w).1

  expire-quiet : (w : World) → (expire_stale_invitations w).0 ≡ ok tt
  unfolding expire_stale_invitations
  expire-quiet w = refl

  check-Tripped :
      (w₀ w : World) (balance : ℕ)
      → Before w₀ w
      → w₀.rpc 0 ≡ some balance
      → balance < config.vault_min_sol_circuit_breaker
      → Tripped w₀ (check_hot_wallet_balances sdk config w)
  unfolding check_hot_wallet_balances circuit_breaker_status
  check-Tripped w₀ w balance h e low = ground arith

  scans-Tripped :
      (w : World) (balance : ℕ)
      → w.rpc 0 ≡ some balance
      → balance < config.vault_min_sol_circuit_breaker
      → Tripped w (scans sdk config w)
  unfolding scans
  scans-Tripped w balance e low =
      let w₁ = (send_invitation_reminders sdk config w).1 in
      let w₂ = (expire_stale_invitations w₁).1 in
      let check = check_hot_wallet_balances sdk config in
      let last : WorkerStatus → M WorkerStatus =
        λ status. choose (is_disabled status) (pure status) (remaining_scans sdk config status) in
      let h₁ = reminders-Before w sdk config w (refl, refl, refl, refl, refl) in
      let trip : Tripped w (check w₂) = check-Tripped w w₂ balance (expire-Before w w₁ h₁) e low in
      bind_ok (send_invitation_reminders sdk config)
        (λ _. expire_stale_invitations >> (check >>= last)) (Tripped w) w {w' = w₁}
        (λ i. (reminders-quiet w i, w₁))
        (bind_ok expire_stale_invitations (λ _. check >>= last) (Tripped w) w₁ {w' = w₂}
          (λ i. (expire-quiet w₁ i, w₂))
          (bind_ok check last (Tripped w) w₂ {w' = (check w₂).1} (λ i. (trip.0 i, (check w₂).1))
            (refl, trip.1, trip.2, trip.3, trip.4, trip.5)))

  disabled_rest :
      (n : ℕ) (w : World)
      → run_cycles sdk config n WorkerStatus.disabled w ≡ (ok WorkerStatus.disabled, w)
  unfolding run_cycles run_cycle
  disabled_rest zero w = refl
  disabled_rest (suc n) w = disabled_rest n w

  -- Once the balance of the vault that the node reports is below the threshold, the keeper is
  -- disabled for good: in that cycle and however many follow, whatever the balance is then, no
  -- payment expires or is reconciled, no sign-in record is cleaned up, and the process is not healthy.
  pub run_cycles-Tripped :
      (n : ℕ) (status : WorkerStatus) (w : World) (balance : ℕ)
      → is_disabled status ≡ false
      → w.rpc 0 ≡ some balance
      → balance < config.vault_min_sol_circuit_breaker
      → Tripped w (run_cycles sdk config (suc n) status w)
  unfolding run_cycles run_cycle
  run_cycles-Tripped n status w balance on e low =
      let trip = scans-Tripped w balance e low in
      let w' = (scans sdk config w).1 in
      rw on (
        bind_ok (scans sdk config) (run_cycles sdk config n) (Tripped w) w {w' = w'}
          (λ i. (trip.0 i, w'))
          (rw (disabled_rest n w') (refl, trip.1, trip.2, trip.3, trip.4, trip.5)))
