-- ===== src/Workers/RefundWorker/Settled.antt =====
-- What a cycle of src/workers/refund_worker.rs pays: `process_pending_refunds`.
use pactum_codex.Base.{
  ℕ, ◌≡◌, none, List, [], ◌∷◌, All, All-append, All-take, All-update_where, head, ◌==◌, unwrap_or,
  arith, Bool-cases, inl, inr,
}
use pactum_codex.State.Rows.{Db, Payment, PaymentStatus, Party}
use pactum_codex.State.World.{
  World, Transfer, Result, ok, err, pure, fetch, OnOk, bind_lem, fetch-world, fetch-OnOk,
}
use pactum_codex.Handlers.Auth.{SolanaSdk}
use pactum_codex.Services.SolanaPay.{has_status}
use pactum_codex.Services.Refund.{execute_refund, send_transaction}
use pactum_codex.Workers.Policy.{WorkerStatus, is_disabled}
use pactum_codex.Workers.RefundWorker.{
  RefundRow, same_agreement, parties_of, join_parties, initiated_before, insert_refund,
  sort_refunds, pending_refunds, status_for_reason, owes, set_refunded, mark_refunded, report_error,
  settle_refund, process_refund, process_refunds, process_rows, process_pending_refunds, run_cycle,
}

abbrev pub OfNothing : Transfer → Type 0
OfNothing t = t.amount ≡ 0

abbrev pub NoAmount : RefundRow → Type 0
NoAmount r = r.refund_amount ≡ none

abbrev pub NoAmountSet : Payment → Type 0
NoAmountSet p = p.refund_amount ≡ none

-- No payment has an amount to refund, and every submission is of nothing.
abbrev pub Unset : World → Type 0
Unset w = All NoAmountSet w.db.agreement_payments × All OfNothing w.transfers

settle_refund-Unset : (id : ℕ) (r : Result ℕ) (w : World) → Unset w → Unset (settle_refund id r w).1
unfolding settle_refund report_error mark_refunded status_for_reason
settle_refund-Unset id (err e) w h = h
settle_refund-Unset id (ok s) w h = elim (Bool-cases (head w.faults)) [
  | inl fails ↦ rw fails h
  | inr fine ↦ rw fine (
    All-update_where NoAmountSet (owes id) (set_refunded s w.now) (λ x e. e) w.db.agreement_payments
        h.0,
    h.1,
  )
]

parties_of-NoAmount :
    (p : Payment) (as_ : List Party) → NoAmountSet p → All NoAmount (parties_of p as_)
parties_of-NoAmount p [] e = tt
parties_of-NoAmount p (a ∷ as_) e = elim (Bool-cases (same_agreement p a)) [
  | inl holds ↦ rw holds (e, parties_of-NoAmount p as_ e)
  | inr fails ↦ rw fails (parties_of-NoAmount p as_ e)
]

join_parties-NoAmount :
    (ps : List Payment) (as_ : List Party) → All NoAmountSet ps → All NoAmount (join_parties ps as_)
join_parties-NoAmount [] as_ h = tt
join_parties-NoAmount (p ∷ ps) as_ h =
    elim (Bool-cases (has_status PaymentStatus.refund_pending p)) [
      | inl holds ↦ rw holds (
          All-append NoAmount (parties_of p as_) (join_parties ps as_)
            (parties_of-NoAmount p as_ h.0) (join_parties-NoAmount ps as_ h.1))
      | inr fails ↦ rw fails (join_parties-NoAmount ps as_ h.1)
    ]

insert_refund-NoAmount :
    (r : RefundRow) (rs : List RefundRow)
    → NoAmount r
    → All NoAmount rs
    → All NoAmount (insert_refund r rs)
insert_refund-NoAmount r [] e h = (e, tt)
insert_refund-NoAmount r (q ∷ qs) e h =
    elim (Bool-cases (initiated_before r.refund_initiated_at q.refund_initiated_at)) [
      | inl holds ↦ rw holds (e, h)
      | inr fails ↦ rw fails (h.0, insert_refund-NoAmount r qs e h.1)
    ]

sort_refunds-NoAmount : (rs : List RefundRow) → All NoAmount rs → All NoAmount (sort_refunds rs)
sort_refunds-NoAmount [] h = tt
sort_refunds-NoAmount (r ∷ rs) h =
    insert_refund-NoAmount r (sort_refunds rs) h.0 (sort_refunds-NoAmount rs h.1)

pending_refunds-NoAmount :
    (db : Db) → All NoAmountSet db.agreement_payments → All NoAmount (pending_refunds db)
unfolding pending_refunds
pending_refunds-NoAmount db h =
    All-take NoAmount 10 (sort_refunds (join_parties db.agreement_payments db.agreement_parties)) (
      sort_refunds-NoAmount (join_parties db.agreement_payments db.agreement_parties)
        (join_parties-NoAmount db.agreement_payments db.agreement_parties h))

module _ (sdk : SolanaSdk) (ata : ℕ → ℕ → ℕ) where
  execute_refund-Unset : (c m : ℕ) (w : World) → Unset w → Unset (execute_refund sdk ata c m 0 w).1
  unfolding execute_refund send_transaction
  execute_refund-Unset c m w h = ground arith

  process_refund-Unset :
      (r : RefundRow) (w : World) → NoAmount r → Unset w → Unset (process_refund sdk ata r w).1
  unfolding process_refund
  process_refund-Unset r w e h =
      let run = execute_refund sdk ata r.creator_pubkey (unwrap_or r.token_mint 0) 0 w in
      elim (Bool-cases (r.creator_pubkey == 0)) [
        | inl absent ↦ rw absent h
        | inr given ↦
            rw (given, e)
              (settle_refund-Unset r.id run.0 run.1
                (execute_refund-Unset r.creator_pubkey (unwrap_or r.token_mint 0) w h))
      ]

  process_refunds-Unset :
      (rs : List RefundRow) (w : World)
      → All NoAmount rs
      → Unset w
      → Unset (process_refunds sdk ata rs w).1
  unfolding process_refunds
  process_refunds-Unset [] w e h = h
  process_refunds-Unset (r ∷ rs) w e h =
      let w' = (process_refund sdk ata r w).1 in
      let done : Unset w' = process_refund-Unset r w e.0 h in
      bind_lem (process_refund sdk ata r) (λ _. process_refunds sdk ata rs) (λ q. Unset q.1) w
        (λ _ _. process_refunds-Unset rs w' e.1 done) (λ _ _. done)

  process_rows-Unset :
      (r : Result (List RefundRow)) (w : World)
      → OnOk r (All NoAmount)
      → Unset w
      → Unset (process_rows sdk ata r w).1
  unfolding process_rows status_for_reason
  process_rows-Unset (err e) w k h = h
  process_rows-Unset (ok rs) w k h =
      bind_lem (process_refunds sdk ata rs) (λ _. pure WorkerStatus.healthy) (λ q. Unset q.1) w
        (λ _ _. process_refunds-Unset rs w k h) (λ _ _. process_refunds-Unset rs w k h)

  pub process_pending_refunds-Unset :
      (w : World) → Unset w → Unset (process_pending_refunds sdk ata w).1
  unfolding process_pending_refunds
  process_pending_refunds-Unset w h =
      let (r, w') = fetch pending_refunds w in
      process_rows-Unset r w'
        (fetch-OnOk pending_refunds (All NoAmount) w (pending_refunds-NoAmount w.db h.0))
        (rw (fetch-world pending_refunds w) h)

  -- As long as no payment has an amount to refund, no payment has one after a cycle either, and every
  -- transfer that has been submitted is of nothing.
  pub run_cycle-Unset :
      (status : WorkerStatus) (w : World) → Unset w → Unset (run_cycle sdk ata status w).1
  unfolding run_cycle
  run_cycle-Unset status w h = elim (Bool-cases (is_disabled status)) [
    | inl off ↦ rw off h
    | inr on ↦ rw on (process_pending_refunds-Unset w h)
  ]
