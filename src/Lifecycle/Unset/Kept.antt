-- ===== src/Lifecycle/Unset/Kept.antt =====
-- The workers and the amounts of the refunds: src/workers/refund_worker.rs, keeper.rs and
-- event_listener.rs.
use pactum_codex.Base.{
  ℕ, ◌≡◌, exists, find, String, Option, none, some, List, [], ◌∷◌, All, All-update_where,
  update_where, inl, inr, ◌==◌,
}
use pactum_codex.Error.{AppError}
use pactum_codex.Config.{Config}
use pactum_codex.State.Rows.{Payment, PartyStatus}
use pactum_codex.State.Events.{WsEvent}
use pactum_codex.State.World.{World, Result, ok, err, fetch, call_rpc, call_rpc-world, pure, Finds}
use pactum_codex.State.Keeps.{Keeps, Keeps-fetch, Keeps-bind, Keeps-execute, Keeps-for_each}
use pactum_codex.Handlers.Auth.{SolanaSdk}
use pactum_codex.Services.SolanaPay.{awaits, set_confirmed, confirm_payment_atomic}
use pactum_codex.Services.ProgramLog.{ParsedEvent}
use pactum_codex.Workers.RefundWorker.{
  RefundRow, pending_refunds, process_rows, process_refunds, process_pending_refunds,
  process_refund, owes, set_refunded, status_for_reason,
}
use pactum_codex.Workers.EventListener.{
  has_payment_id, set_refund_pending, is_paid_for, handle_cancellation,
}
use pactum_codex.Workers.EventListener.Cancelled.{refund_started, handle_cancellation-Closed}
use pactum_codex.Workers.Keeper.{
  is_timed_out, set_payment_expired, expire_timed_out_payments, late_payments, set_refund_due,
  mark_late, after_lookup, reconcile_found, reference_key, reconcile_payment,
  reconcile_late_payments, for_rows,
}
use pactum_codex.Workers.Policy.{WorkerStatus}
use pactum_codex.Workers.RefundWorker.Settled.{NoAmountSet}
use pactum_codex.Workers.RefundWorker.Paid.{process_refund-Pays}

-- No payment has an amount to refund.
abbrev pub NoneSet : World → Type 0
NoneSet w = All NoAmountSet w.db.agreement_payments

pub confirm-NoneSet :
    (reference signature mint amount : ℕ)
    → Keeps NoneSet (confirm_payment_atomic reference signature mint amount)
unfolding confirm_payment_atomic
confirm-NoneSet reference signature mint amount w =
    Keeps-execute NoneSet (λ db. exists (awaits reference) db.agreement_payments)
      (λ db. record db {
        agreement_payments =
            update_where (awaits reference) (set_confirmed signature mint amount w.now)
              db.agreement_payments;
      })
      (λ v fs t. t)
      (λ v.
        All-update_where NoAmountSet (awaits reference) (set_confirmed signature mint amount w.now)
          (λ x e. e) v.db.agreement_payments)
      w

pub expire-NoneSet : Keeps NoneSet expire_timed_out_payments
unfolding expire_timed_out_payments
expire-NoneSet w =
    Keeps-execute NoneSet (λ _. tt)
      (λ db. record db {
        agreement_payments =
            update_where (is_timed_out w.now) set_payment_expired db.agreement_payments;
      })
      (λ v fs t. t)
      (λ v.
        All-update_where NoAmountSet (is_timed_out w.now) set_payment_expired (λ x e. e)
          v.db.agreement_payments)
      w

mark_late-NoneSet : (id : ℕ) → Keeps NoneSet (mark_late id)
unfolding mark_late
mark_late-NoneSet id w =
    Keeps-execute NoneSet (λ _. tt)
      (λ db. record db {
        agreement_payments =
            update_where (λ p. p.id == id) (set_refund_due w.now) db.agreement_payments;
      })
      (λ v fs t. t)
      (λ v.
        All-update_where NoAmountSet (λ p. p.id == id) (set_refund_due w.now) (λ x e. e)
          v.db.agreement_payments)
      w

after_lookup-NoneSet : (id : ℕ) (r : Result ℕ) → Keeps NoneSet (after_lookup id r)
after_lookup-NoneSet id (err e) = λ w h. h
after_lookup-NoneSet id (ok account) = λ w h. mark_late-NoneSet id w h

reconcile_found-NoneSet : (id : ℕ) (key : Option ℕ) → Keeps NoneSet (reconcile_found id key)
unfolding reconcile_found
reconcile_found-NoneSet id none w h = h
reconcile_found-NoneSet id (some key) w h =
    let (reply, w') = call_rpc AppError.solana_rpc_error w in
    after_lookup-NoneSet id reply w' (rw (call_rpc-world AppError.solana_rpc_error w) h)

for_rows-NoneSet :
    (sdk : SolanaSdk) (config : Config) (r : Result (List Payment))
    → Keeps NoneSet (for_rows (reconcile_payment sdk config) r)
unfolding reconcile_payment
for_rows-NoneSet sdk config (err e) = λ w h. h
for_rows-NoneSet sdk config (ok rows) =
    Keeps-for_each NoneSet (reconcile_payment sdk config)
      (λ p. reconcile_found-NoneSet p.id (reference_key sdk config p.token_reference_pubkey)) rows

pub reconcile-NoneSet :
    (sdk : SolanaSdk) (config : Config) → Keeps NoneSet (reconcile_late_payments sdk config)
unfolding reconcile_late_payments
reconcile-NoneSet sdk config w h =
    let q = late_payments w.now in
    for_rows-NoneSet sdk config (fetch q w).0 (fetch q w).1
      (Keeps-fetch NoneSet q (λ v fs s. s) w h)

started-NoneSet :
    (pda : ℕ) (w w' : World) (o : Option Payment)
    → w'.db.agreement_payments ≡ refund_started pda w o
    → NoneSet w
    → NoneSet w'
started-NoneSet pda w w' none e h = rw e h
started-NoneSet pda w w' (some p) e h = rw e (
    All-update_where NoAmountSet (has_payment_id p.id) (set_refund_pending w.now) (λ x e. e)
      w.db.agreement_payments h)

pub cancel-NoneSet :
    (status : PartyStatus) (event_type : String) (ws_event : ℕ → WsEvent) (event : ParsedEvent)
    → Keeps NoneSet (handle_cancellation status event_type ws_event event)
cancel-NoneSet status event_type ws_event event w h =
    let w' = (handle_cancellation status event_type ws_event event w).1 in
    let pda = event.agreement_pda in
    elim (handle_cancellation-Closed status event_type ws_event event w).1 [
      | inl same ↦ rw same h
      | inr started ↦
          started-NoneSet pda w w' (find (is_paid_for pda) w.db.agreement_payments) started h
    ]

recorded-NoneSet :
    (r : RefundRow) (w w' : World) (o : Option ℕ)
    → Finds o (λ signature. w'.db ≡ record w.db {
      agreement_payments =
          update_where (owes r.id) (set_refunded signature w.now) w.db.agreement_payments;
    })
    → NoneSet w
    → NoneSet w'
recorded-NoneSet r w w' none e h = elim e [ ]
recorded-NoneSet r w w' (some signature) e h = rw e (
    All-update_where NoAmountSet (owes r.id) (set_refunded signature w.now) (λ x a. a)
      w.db.agreement_payments h)

module _ (sdk : SolanaSdk) (ata : ℕ → ℕ → ℕ) where
  process_refund-NoneSet : (r : RefundRow) → Keeps NoneSet (process_refund sdk ata r)
  process_refund-NoneSet r w h = elim (process_refund-Pays sdk ata r w) [
    | inl nothing ↦ rw (nothing.1) h
    | inr (paid, inl lost) ↦ rw lost h
    | inr (paid, inr kept) ↦ recorded-NoneSet r w (process_refund sdk ata r w).1 (w.rpc 2) kept h
  ]

  process_refunds-NoneSet : (rs : List RefundRow) → Keeps NoneSet (process_refunds sdk ata rs)
  unfolding process_refunds
  process_refunds-NoneSet [] = λ w h. h
  process_refunds-NoneSet (r ∷ rs) =
      Keeps-bind NoneSet (process_refund sdk ata r) (λ _. process_refunds sdk ata rs)
        (process_refund-NoneSet r) (λ _. process_refunds-NoneSet rs)

  process_rows-NoneSet : (r : Result (List RefundRow)) → Keeps NoneSet (process_rows sdk ata r)
  unfolding process_rows status_for_reason
  process_rows-NoneSet (err e) = λ w h. h
  process_rows-NoneSet (ok rows) =
      Keeps-bind NoneSet (process_refunds sdk ata rows) (λ _. pure WorkerStatus.healthy)
        (process_refunds-NoneSet rows) (λ _ w h. h)

  pub process_pending_refunds-NoneSet : Keeps NoneSet (process_pending_refunds sdk ata)
  unfolding process_pending_refunds
  process_pending_refunds-NoneSet w h =
      process_rows-NoneSet (fetch pending_refunds w).0 (fetch pending_refunds w).1
        (Keeps-fetch NoneSet pending_refunds (λ v fs s. s) w h)
