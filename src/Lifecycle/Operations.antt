-- ===== src/Lifecycle/Operations.antt =====
-- Each operation of the program on payments keeps the ids a key and moves the payments along the
-- machine of Lifecycle: `initiate_payment` of src/handlers/payment.rs, `confirm_payment_atomic` of
-- src/services/solana_pay.rs, and what the workers of src/workers/ do.
use pactum_codex.Base.{
  ℕ, ◌≡◌, refl, arith, Bool, true, Option, none, some, String, List, [], ◌∷◌, exists, All, find,
  update_where, inl, inr,
}
use pactum_codex.State.Rows.{Payment, PaymentStatus, PartyStatus}
use pactum_codex.State.World.{World, Result, ok, err, pure, fetch, Finds}
use pactum_codex.State.Keeps.{Keeps, Keeps-bind, Keeps-fetch, Keeps-execute}
use pactum_codex.Handlers.Auth.{SolanaSdk}
use pactum_codex.Services.SolanaPay.{has_status, awaits, set_confirmed, confirm_payment_atomic}
use pactum_codex.Services.ProgramLog.{ParsedEvent}
use pactum_codex.State.Events.{WsEvent}
use pactum_codex.Workers.Policy.{WorkerStatus}
use pactum_codex.Workers.RefundWorker.{
  RefundRow, pending_refunds, owes, set_refunded, process_refund, process_refunds, process_rows,
  process_pending_refunds, status_for_reason,
}
use pactum_codex.Workers.RefundWorker.Paid.{process_refund-Pays}
use pactum_codex.Workers.EventListener.{is_paid_for, handle_cancellation}
use pactum_codex.Workers.EventListener.Cancelled.{refund_started, handle_cancellation-Closed}
use pactum_codex.Workers.Keeper.{
  is_timed_out, set_payment_expired, expire_timed_out_payments, is_late, set_refund_due,
}
use pactum_codex.Lifecycle.{
  Move, Reaches, here, move, Advances, Follows, Follows-trans, has_id, Distinct, Tracks,
}
use pactum_codex.Lifecycle.Updates.{
  Distinct-update_where, Follows-update_where, All-every, Refundable, find-Refundable,
}

has_status-eq : (s : PaymentStatus) (p : Payment) → has_status s p ≡ true → p.status ≡ s
has_status-eq s p h = ground arith

-- One statement that updates the table.
abbrev pub IsTracked : List Payment → List Payment → Type 0
IsTracked ps xs = Distinct xs × Follows ps xs

pub updated :
    (p : Payment → Bool) (f : Payment → Payment) (ps xs : List Payment)
    → ((x : Payment) → (f x).id ≡ x.id)
    → All (λ x. p x ≡ true → Advances x (f x)) xs
    → IsTracked ps xs
    → IsTracked ps (update_where p f xs)
updated p f ps xs same h t = (
  Distinct-update_where p f same xs t.0,
  Follows-trans ps xs (update_where p f xs) t.1 (Follows-update_where p f xs h),
)

-- One that sets the status of the rows with some status.
moved :
    (p : Payment → Bool) (f : Payment → Payment) (s t : PaymentStatus) (ps xs : List Payment)
    → ((x : Payment) → (f x).id ≡ x.id)
    → ((x : Payment) → (f x).status ≡ t)
    → ((x : Payment) → p x ≡ true → has_status s x ≡ true)
    → Move s t
    → IsTracked ps xs
    → IsTracked ps (update_where p f xs)
moved p f s t ps xs same to from m =
    updated p f ps xs same
      (All-every (λ x h. (same x, rw (to x, has_status-eq s x (from x h)) (move m here))) xs)

pub late-Reaches :
    (time : ℕ) (x : Payment) → is_late time x ≡ true → Reaches x.status PaymentStatus.refund_pending
late-Reaches time x h =
    rw (has_status-eq PaymentStatus.expired x (ground (arith, h))) (move Move.arrive_late here)

paid_for-Reaches :
    (pda : ℕ) (x : Payment)
    → is_paid_for pda x ≡ true
    → Reaches x.status PaymentStatus.refund_pending
paid_for-Reaches pda x h =
    rw (has_status-eq PaymentStatus.confirmed x (ground (arith, h))) (move Move.cancel here)

advance :
    (id time : ℕ) (xs : List Payment)
    → Refundable id xs
    → All (λ x. has_id id x ≡ true → Advances x (set_refund_due time x)) xs
advance id time [] h = tt
advance id time (x ∷ xs) h = (λ e. (refl, h.0 e), advance id time xs h.1)

module _ (ps : List Payment) where
  pub confirm_payment_atomic-Tracks :
      (reference signature mint amount : ℕ)
      → Keeps (Tracks ps) (confirm_payment_atomic reference signature mint amount)
  unfolding confirm_payment_atomic
  confirm_payment_atomic-Tracks reference signature mint amount w =
      Keeps-execute (Tracks ps) (λ db. exists (awaits reference) db.agreement_payments)
        (λ db. record db {
          agreement_payments =
              update_where (awaits reference) (set_confirmed signature mint amount w.now)
                db.agreement_payments;
        })
        (λ v fs t. t)
        (λ v.
          moved (awaits reference) (set_confirmed signature mint amount w.now) PaymentStatus.pending
            PaymentStatus.confirmed ps v.db.agreement_payments (λ x. refl) (λ x. refl)
            (λ x h. ground (arith, h)) Move.confirm)
        w

  pub expire_timed_out_payments-Tracks : Keeps (Tracks ps) expire_timed_out_payments
  unfolding expire_timed_out_payments
  expire_timed_out_payments-Tracks w =
      Keeps-execute (Tracks ps) (λ _. tt)
        (λ db. record db {
          agreement_payments =
              update_where (is_timed_out w.now) set_payment_expired db.agreement_payments;
        })
        (λ v fs t. t)
        (λ v.
          moved (is_timed_out w.now) set_payment_expired PaymentStatus.pending PaymentStatus.expired
            ps v.db.agreement_payments (λ x. refl) (λ x. refl) (λ x h. ground (arith, h))
            Move.time_out)
        w

  recorded-Tracks :
      (r : RefundRow) (w w' : World) (o : Option ℕ)
      → Finds o (λ signature. w'.db ≡ record w.db {
        agreement_payments =
            update_where (owes r.id) (set_refunded signature w.now) w.db.agreement_payments;
      })
      → Tracks ps w
      → Tracks ps w'
  recorded-Tracks r w w' none h t = elim h [ ]
  recorded-Tracks r w w' (some signature) h t = rw h (
      moved (owes r.id) (set_refunded signature w.now) PaymentStatus.refund_pending
        PaymentStatus.refunded ps w.db.agreement_payments (λ x. refl) (λ x. refl)
        (λ x e. ground (arith, e)) Move.pay_back t)

  process_refund-Tracks :
      (sdk : SolanaSdk) (ata : ℕ → ℕ → ℕ) (r : RefundRow)
      → Keeps (Tracks ps) (process_refund sdk ata r)
  process_refund-Tracks sdk ata r w t = elim (process_refund-Pays sdk ata r w) [
    | inl nothing ↦ rw (nothing.1) t
    | inr (paid, inl lost) ↦ rw lost t
    | inr (paid, inr kept) ↦ recorded-Tracks r w (process_refund sdk ata r w).1 (w.rpc 2) kept t
  ]

  process_refunds-Tracks :
      (sdk : SolanaSdk) (ata : ℕ → ℕ → ℕ) (rs : List RefundRow)
      → Keeps (Tracks ps) (process_refunds sdk ata rs)
  unfolding process_refunds
  process_refunds-Tracks sdk ata [] = λ w t. t
  process_refunds-Tracks sdk ata (r ∷ rs) =
      Keeps-bind (Tracks ps) (process_refund sdk ata r) (λ _. process_refunds sdk ata rs)
        (process_refund-Tracks sdk ata r) (λ _. process_refunds-Tracks sdk ata rs)

  process_rows-Tracks :
      (sdk : SolanaSdk) (ata : ℕ → ℕ → ℕ) (r : Result (List RefundRow))
      → Keeps (Tracks ps) (process_rows sdk ata r)
  unfolding process_rows status_for_reason
  process_rows-Tracks sdk ata (err e) = λ w t. t
  process_rows-Tracks sdk ata (ok rows) =
      Keeps-bind (Tracks ps) (process_refunds sdk ata rows) (λ _. pure WorkerStatus.healthy)
        (process_refunds-Tracks sdk ata rows) (λ _ w t. t)

  pub process_pending_refunds-Tracks :
      (sdk : SolanaSdk) (ata : ℕ → ℕ → ℕ) → Keeps (Tracks ps) (process_pending_refunds sdk ata)
  unfolding process_pending_refunds
  process_pending_refunds-Tracks sdk ata w t =
      process_rows-Tracks sdk ata (fetch pending_refunds w).0 (fetch pending_refunds w).1
        (Keeps-fetch (Tracks ps) pending_refunds (λ v fs s. s) w t)

  -- A refund that starts for a payment which may come to it.
  pub refund-Tracks :
      (id time : ℕ) (xs : List Payment)
      → Refundable id xs
      → IsTracked ps xs
      → IsTracked ps (update_where (has_id id) (set_refund_due time) xs)
  refund-Tracks id time xs h =
      updated (has_id id) (set_refund_due time) ps xs (λ x. refl) (advance id time xs h)

  started-Tracks :
      (pda : ℕ) (w w' : World) (o : Option Payment)
      → find (is_paid_for pda) w.db.agreement_payments ≡ o
      → w'.db.agreement_payments ≡ refund_started pda w o
      → Tracks ps w
      → Tracks ps w'
  started-Tracks pda w w' none e h t = rw h t
  started-Tracks pda w w' (some p) e h t = rw h (
      refund-Tracks p.id w.now w.db.agreement_payments
        (find-Refundable (is_paid_for pda) (paid_for-Reaches pda) w.db.agreement_payments p t.0 e)
        t)

  pub handle_cancellation-Tracks :
      (status : PartyStatus) (event_type : String) (ws_event : ℕ → WsEvent) (event : ParsedEvent)
      → Keeps (Tracks ps) (handle_cancellation status event_type ws_event event)
  handle_cancellation-Tracks status event_type ws_event event w t =
      let w' = (handle_cancellation status event_type ws_event event w).1 in
      let pda = event.agreement_pda in
      elim (handle_cancellation-Closed status event_type ws_event event w).1 [
        | inl same ↦ rw same t
        | inr started ↦
            started-Tracks pda w w' (find (is_paid_for pda) w.db.agreement_payments) refl started t
      ]
