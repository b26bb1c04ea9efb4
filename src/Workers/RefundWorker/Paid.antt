-- ===== src/Workers/RefundWorker/Paid.antt =====
-- One refund of src/workers/refund_worker.rs and its record, and how many a cycle submits.
use pactum_codex.Base.{
  ℕ, ◌+◌, ◌≤◌, ◌≡◌, sym, ap, List, [], ◌∷◌, unwrap_or, arith, ◌⊎◌, length, length-take,
  update_where,
}
use pactum_codex.State.World.{
  World, Result, ok, err, pure, fetch, OnOk, bind_lem, fetch-world, fetch-OnOk, Finds,
}
use pactum_codex.Handlers.Auth.{SolanaSdk}
use pactum_codex.Services.Refund.{execute_refund, send_transaction}
use pactum_codex.Workers.Policy.{WorkerStatus}
use pactum_codex.Workers.RefundWorker.{
  RefundRow, join_parties, sort_refunds, pending_refunds, status_for_reason, owes, set_refunded,
  mark_refunded, report_error, settle_refund, process_refund, process_refunds, process_rows,
  process_pending_refunds,
}

-- The node has accepted a transfer of the row's amount, to the account of the row's creator in its
-- mint, under the blockhash that it gave.
abbrev pub Submitted : SolanaSdk → (ℕ → ℕ → ℕ) → RefundRow → World → World → Type 0
Submitted sdk ata r w w' = Finds (sdk.parse_pubkey r.creator_pubkey) (λ c.
    Finds (sdk.parse_pubkey (unwrap_or r.token_mint 0)) (λ m. Finds (w.rpc 1) (λ blockhash.
      w'.transfers
      ≡ record {
        to = ata c m;
        mint = m;
        amount = unwrap_or r.refund_amount 0;
        recent_blockhash = blockhash;
      }
        ∷ w.transfers)))

-- The payment of the row is recorded as refunded, if it still waits for its refund.
abbrev pub Recorded : RefundRow → World → World → Type 0
Recorded r w w' = Finds (w.rpc 2) (λ signature. w'.db ≡ record w.db {
  agreement_payments =
      update_where (owes r.id) (set_refunded signature w.now) w.db.agreement_payments;
})

-- What one row leaves: nothing done, a submission that no table records, or one with its record.
abbrev pub Pays : SolanaSdk → (ℕ → ℕ → ℕ) → RefundRow → World → World → Type 0
Pays sdk ata r w w' =
    ((w'.transfers ≡ w.transfers) × (w'.db ≡ w.db))
    ⊎ (Submitted sdk ata r w w' × ((w'.db ≡ w.db) ⊎ Recorded r w w'))

module _ (sdk : SolanaSdk) (ata : ℕ → ℕ → ℕ) where
  -- A row of the query leaves one of three things: nothing; one transaction that the node accepted,
  -- which transfers the row's amount to its creator, and the row's payment as it was; or that
  -- transaction and the payment recorded as refunded with its signature. No payment is recorded as
  -- refunded without a submission that the node accepted; whether the chain confirmed it is not said.
  pub process_refund-Pays :
      (r : RefundRow) (w : World) → Pays sdk ata r w (process_refund sdk ata r w).1
  unfolding process_refund settle_refund report_error mark_refunded status_for_reason execute_refund
      send_transaction
  process_refund-Pays r w = ground arith

  process_refund-length :
      (r : RefundRow) (w : World)
      → length (process_refund sdk ata r w).1.transfers ≤ length w.transfers + 1
  unfolding process_refund settle_refund report_error mark_refunded status_for_reason execute_refund
      send_transaction
  process_refund-length r w = ground arith

  process_refunds-length :
      (rs : List RefundRow) (w : World)
      → length (process_refunds sdk ata rs w).1.transfers ≤ length w.transfers + length rs
  unfolding process_refunds
  process_refunds-length [] w = ground arith
  process_refunds-length (r ∷ rs) w =
      let w' = (process_refund sdk ata r w).1 in
      bind_lem (process_refund sdk ata r) (λ _. process_refunds sdk ata rs)
        (λ q. length q.1.transfers ≤ length w.transfers + length (r ∷ rs)) w
        (λ _ _. ground (arith, process_refund-length r w, process_refunds-length rs w'))
        (λ _ _. ground (arith, process_refund-length r w))

  process_rows-length :
      (r : Result (List RefundRow)) (w : World)
      → OnOk r (λ rs. length rs ≤ 10)
      → length (process_rows sdk ata r w).1.transfers ≤ length w.transfers + 10
  unfolding process_rows status_for_reason
  process_rows-length (err e) w k = ground arith
  process_rows-length (ok rs) w k =
      bind_lem (process_refunds sdk ata rs) (λ _. pure WorkerStatus.healthy)
        (λ q. length q.1.transfers ≤ length w.transfers + 10) w
        (λ _ _. ground (arith, process_refunds-length rs w))
        (λ _ _. ground (arith, process_refunds-length rs w))

  pending_refunds-length : (w : World) → length (pending_refunds w.db) ≤ 10
  unfolding pending_refunds
  pending_refunds-length w =
      length-take 10 (sort_refunds (join_parties w.db.agreement_payments w.db.agreement_parties))

  -- A cycle submits at most ten transactions.
  pub process_pending_refunds-length :
      (w : World) → length (process_pending_refunds sdk ata w).1.transfers ≤ length w.transfers + 10
  unfolding process_pending_refunds
  process_pending_refunds-length w =
      let (r, w') = fetch pending_refunds w in
      rw (sym (ap (λ v. length v.transfers) (fetch-world pending_refunds w))) (
        process_rows-length r w'
          (fetch-OnOk pending_refunds (λ rs. length rs ≤ 10) w (pending_refunds-length w)))
