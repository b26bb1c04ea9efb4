-- ===== src/Workers/RefundWorker.antt =====
-- The worker that executes refunds: src/workers/refund_worker.rs. The empty text that
-- `unwrap_or_default` gives for a missing mint is 0, and rows with equal times of initiation are in
-- the table's order.
pub mod Settled
pub mod Paid
mod Tests
use pactum_codex.Base.{
  ℕ, Bool, true, false, Option, none, some, List, [], ◌∷◌, ◌++◌, ◌==◌, ◌&&◌, leb, take, select,
  is_value, update_where, unwrap_or, if◌then◌else◌,
}
use pactum_codex.Error.{AppError}
use pactum_codex.State.Health.{mark_degraded}
use pactum_codex.State.Rows.{Db, Payment, PaymentStatus, Party}
use pactum_codex.State.World.{
  M, Void, Result, ok, err, ◌>>=◌, ◌>>◌, pure, attempt, choose, fetch, execute, now,
}
use pactum_codex.Handlers.Auth.{SolanaSdk}
use pactum_codex.Services.SolanaPay.{has_status}
use pactum_codex.Services.Refund.{execute_refund}
use pactum_codex.Workers.Policy.{
  WorkerStatus, DegradationReason, suggested_status, is_disabled, is_degraded,
}

-- The columns that the query returns, and the one that it orders by.
pub record RefundRow : Type 0 where
  pub id : ℕ
  pub token_mint : Option ℕ
  pub refund_amount : Option ℕ
  pub creator_pubkey : ℕ
  pub refund_initiated_at : Option ℕ

abbrev pub refund_row : Payment → Party → RefundRow
refund_row p a = record {
  id = p.id;
  token_mint = p.token_mint;
  refund_amount = p.refund_amount;
  creator_pubkey = a.creator_pubkey;
  refund_initiated_at = p.refund_initiated_at;
}

-- `p.agreement_pda = a.agreement_pda`, which a missing address does not meet.
abbrev pub same_agreement : Payment → Party → Bool
same_agreement p a = is_value p.agreement_pda a.agreement_pda

abbrev pub parties_of : Payment → List Party → List RefundRow
parties_of p [] = []
parties_of p (a ∷ as_) =
    if same_agreement p a then refund_row p a ∷ parties_of p as_ else parties_of p as_

-- `JOIN agreement_parties … WHERE p.status = 'refund_pending'`
abbrev pub join_parties : List Payment → List Party → List RefundRow
join_parties [] as_ = []
join_parties (p ∷ ps) as_ =
    if has_status PaymentStatus.refund_pending p
    then parties_of p as_ ++ join_parties ps as_
    else join_parties ps as_

-- `ORDER BY refund_initiated_at ASC`, a missing time last.
abbrev pub initiated_before : Option ℕ → Option ℕ → Bool
initiated_before (some s) (some t) = leb s t
initiated_before (some s) none = true
initiated_before none (some t) = false
initiated_before none none = true

abbrev pub insert_refund : RefundRow → List RefundRow → List RefundRow
insert_refund r [] = r ∷ []
insert_refund r (q ∷ qs) =
    if initiated_before r.refund_initiated_at q.refund_initiated_at
    then r ∷ q ∷ qs
    else q ∷ insert_refund r qs

abbrev pub sort_refunds : List RefundRow → List RefundRow
sort_refunds [] = []
sort_refunds (r ∷ rs) = insert_refund r (sort_refunds rs)

unfoldable pub pending_refunds : Db → List RefundRow
pending_refunds db =
    take 10 (sort_refunds (join_parties db.agreement_payments db.agreement_parties))

unfoldable pub status_for_reason : DegradationReason → M WorkerStatus
status_for_reason reason w =
    let status = suggested_status reason in
    (
      ok status,
      if is_degraded status
          then record w { process_health = mark_degraded w.process_health }
          else w,
    )

-- `id = $3 AND status = 'refund_pending'`
abbrev pub owes : ℕ → Payment → Bool
owes id p = p.id == id && has_status PaymentStatus.refund_pending p

abbrev pub set_refunded : ℕ → ℕ → Payment → Payment
set_refunded signature time p = record p {
  status = PaymentStatus.refunded;
  refund_tx_signature = some signature;
  refund_completed_at = some time;
}

unfoldable pub mark_refunded : ℕ → ℕ → M Void
mark_refunded id signature = do
  time ← now
  execute (λ db. record db {
    agreement_payments = update_where (owes id) (set_refunded signature time) db.agreement_payments;
  })

-- An error is reported, and its status is dropped.
unfoldable pub report_error : {A : Type 0} → Result A → M Void
report_error (ok a) = pure tt
report_error (err e) = status_for_reason DegradationReason.retry_backoff >> pure tt

unfoldable pub settle_refund : ℕ → Result ℕ → M Void
settle_refund id (ok signature) = attempt (mark_refunded id signature) >>= report_error
settle_refund id (err e) = report_error {A = Void} (err e)

module _ (sdk : SolanaSdk) (associated_token_address : ℕ → ℕ → ℕ) where
  unfoldable pub process_refund : RefundRow → M Void
  process_refund row = choose (row.creator_pubkey == 0) (pure tt) (
      attempt (
        execute_refund sdk associated_token_address row.creator_pubkey (unwrap_or row.token_mint 0)
          (unwrap_or row.refund_amount 0))
      >>= settle_refund row.id)

  unfoldable pub process_refunds : List RefundRow → M Void
  process_refunds [] = pure tt
  process_refunds (r ∷ rs) = process_refund r >> process_refunds rs

  unfoldable pub process_rows : Result (List RefundRow) → M WorkerStatus
  process_rows (err e) = status_for_reason DegradationReason.rpc_unavailable
  process_rows (ok rows) = process_refunds rows >> pure WorkerStatus.healthy

  unfoldable pub process_pending_refunds : M WorkerStatus
  process_pending_refunds = attempt (fetch pending_refunds) >>= process_rows

  -- One turn of the loop of `run`.
  unfoldable pub run_cycle : WorkerStatus → M WorkerStatus
  run_cycle status = choose (is_disabled status) (pure status) process_pending_refunds
