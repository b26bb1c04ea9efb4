-- ===== src/Workers/ExpiryWorker.antt =====
-- The worker that expires agreements: src/workers/expiry_worker.rs. The data of an account is read
-- as in Handlers/Agreement/Onchain; `id_of` gives the number that stands for 16 bytes.
pub mod Locked
mod Tests
use pactum_codex.Base.{
  ℕ, Bool, true, false, ◌&&◌, not, Option, none, some, List, [], ◌∷◌, ◌==◌, ltb, take, drop, length,
  select, map, exists, update_where, if◌then◌else◌,
}
use pactum_codex.Error.{AppError}
use pactum_codex.State.Rows.{Db, Party, PartyStatus}
use pactum_codex.State.World.{
  M, Void, Result, ok, err, ◌>>=◌, ◌>>◌, pure, attempt, choose, for_each, guard, ok_or, fetch,
  execute, execute_returning, call_rpc, now,
}
use pactum_codex.Handlers.Auth.{SolanaSdk}
use pactum_codex.Handlers.Agreement.Onchain.{AccountReader}
use pactum_codex.Services.Solana.{Seed, Transaction}
use pactum_codex.Services.Solana.Builders.{build_expire_agreement_tx}
use pactum_codex.Workers.Policy.{WorkerStatus, DegradationReason, is_disabled}
use pactum_codex.Workers.RefundWorker.{status_for_reason}
use pactum_codex.Workers.EventListener.{of_agreement, set_party_status}

-- `status = 'PendingSignatures'`, `status = 'expiring'`
abbrev pub is_unsigned : Party → Bool
is_unsigned a = elim (a.status) [ PartyStatus.pending_signatures ↦ true | _ ↦ false ]

abbrev pub is_expiring : Party → Bool
is_expiring a = elim (a.status) [ PartyStatus.expiring ↦ true | _ ↦ false ]

-- `status = 'PendingSignatures' AND expires_at < $1`
abbrev pub is_overdue : ℕ → Party → Bool
is_overdue time a = is_unsigned a && ltb a.expires_at time

-- `SELECT DISTINCT agreement_pda, creator_pubkey`
abbrev pub distinct : List (ℕ × ℕ) → List (ℕ × ℕ)
distinct [] = []
distinct ((pda, creator) ∷ rows) =
    let others = distinct rows in
    if exists (λ r. r.0 == pda && r.1 == creator) others then others else (pda, creator) ∷ others

unfoldable pub overdue_agreements : ℕ → Db → List (ℕ × ℕ)
overdue_agreements time db =
    distinct (
      map (λ a. (a.agreement_pda, a.creator_pubkey))
        (select (is_overdue time) db.agreement_parties))

abbrev pub locks : ℕ → Party → Bool
locks pda a = of_agreement pda a && is_unsigned a

abbrev pub unlocks : ℕ → Party → Bool
unlocks pda a = of_agreement pda a && is_expiring a

-- Whether a row has been changed.
unfoldable pub lock_agreement_for_expiry : ℕ → M Bool
lock_agreement_for_expiry pda =
    execute_returning (λ db. exists (locks pda) db.agreement_parties)
      (λ db. record db {
        agreement_parties =
            update_where (locks pda) (set_party_status PartyStatus.expiring) db.agreement_parties;
      })

unfoldable pub unlock_agreement_from_expiry : ℕ → M Void
unlock_agreement_from_expiry pda = execute (λ db. record db {
  agreement_parties =
      update_where (unlocks pda) (set_party_status PartyStatus.pending_signatures)
        db.agreement_parties;
})

-- `report_degraded(…, RetryBackoff, …)` with its status dropped
abbrev pub report_retry : M Void
report_retry = status_for_reason DegradationReason.retry_backoff >> pure tt

abbrev pub after_unlock : Result Void → M Void
after_unlock (ok done) = pure tt
after_unlock (err e) = report_retry

unfoldable pub after_submit : ℕ → Result ℕ → M Void
after_submit pda (ok signature) = pure tt
after_submit pda (err e) = do
  report_retry
  reverted ← attempt (unlock_agreement_from_expiry pda)
  after_unlock reverted

-- `data[32..48]`, where there are so many bytes
abbrev pub id_bytes : List ℕ → Option (List ℕ)
id_bytes data_ = if ltb (length data_) 48 then none else some (take 16 (drop 32 data_))

module _ (sdk : SolanaSdk) (reader : AccountReader) (id_of : List ℕ → ℕ)
    (find_program_address : List Seed → ℕ) (mpl_core_program_id : ℕ) (vault : ℕ) where
  -- The transaction is built, and the node replies to its submission with a signature.
  unfoldable pub submit_expire_transaction : ℕ → ℕ → M ℕ
  submit_expire_transaction agreement_pda creator_pubkey = do
    creator ← ok_or (sdk.parse_pubkey creator_pubkey) AppError.internal_error
    pda ← ok_or (sdk.parse_pubkey agreement_pda) AppError.internal_error
    reply ← call_rpc AppError.solana_rpc_error
    bytes ← ok_or (id_bytes (reader.data_of reply)) AppError.internal_error
    transaction ←
        build_expire_agreement_tx find_program_address mpl_core_program_id creator (id_of bytes)
          vault
    sent ← call_rpc AppError.solana_rpc_error
    ok_or (sdk.parse_signature sent) AppError.internal_error

  unfoldable pub after_lock : ℕ × ℕ → Result Bool → M Void
  after_lock (pda, creator) (err e) = report_retry
  after_lock (pda, creator) (ok false) = pure tt
  after_lock (pda, creator) (ok true) =
      attempt (submit_expire_transaction pda creator) >>= after_submit pda

  unfoldable pub expire_agreement : ℕ × ℕ → M Void
  expire_agreement (pda, creator) =
      attempt (lock_agreement_for_expiry pda) >>= after_lock (pda, creator)

  unfoldable pub expire_rows : Result (List (ℕ × ℕ)) → M WorkerStatus
  expire_rows (err e) = status_for_reason DegradationReason.rpc_unavailable
  expire_rows (ok rows) = for_each expire_agreement rows >> pure WorkerStatus.healthy

  unfoldable pub expire_due_agreements : M WorkerStatus
  expire_due_agreements = do
    time ← now
    rows ← attempt (fetch (overdue_agreements time))
    expire_rows rows

  -- One turn of the loop of `run`.
  unfoldable pub run_cycle : WorkerStatus → M WorkerStatus
  run_cycle status = choose (is_disabled status) (pure status) expire_due_agreements
