-- ===== src/Lifecycle/Unset.antt =====
-- The column `refund_amount` of the payments in the runs of Lifecycle/Running: what the refund worker
-- of src/workers/refund_worker.rs reads as 0 where it is missing.
mod Kept
mod Tests
pub use Kept.*
use pactum_codex.Base.{
  ℕ, ◌≡◌, refl, ap, exists, find, ◌∙◌, arith, String, Option, none, some, List, [], ◌∷◌, All,
  All-append, All-update_where, update_where, Bool-cases, Option-cases, inl, inr, ◌==◌, head, rest,
  not, ◌||◌, ◌&&◌,
}
use pactum_codex.Error.{AppError}
use pactum_codex.Config.{Config, resolve}
use pactum_codex.State.Rows.{Db, Payment, PaymentStatus, PartyStatus, Party}
use pactum_codex.State.Events.{WsEvent}
use pactum_codex.State.World.{
  World, Finds, Result, ok, err, fetch, execute_if, call_rpc, call_rpc-world, OnOk, fetch-world,
  fetch-OnOk,
}
use pactum_codex.State.Keeps.{Keeps, Keeps-fetch, Keeps-execute, Keeps-for_each}
use pactum_codex.Handlers.Auth.{AuthUserWithWallet, SolanaSdk}
use pactum_codex.Handlers.Payment.{
  payment_fits, insert_payment, new_payment, cents_to_token_units, use_free_tier, ask_payment,
  initiate_payment,
}
use pactum_codex.Services.SolanaPay.{awaits, set_confirmed, confirm_payment_atomic}
use pactum_codex.Services.ProgramLog.{ParsedEvent}
use pactum_codex.Workers.RefundWorker.{
  RefundRow, parties_of, join_parties, pending_refunds, process_rows, process_refunds,
  process_pending_refunds, status_for_reason,
}
use pactum_codex.Workers.EventListener.{
  has_payment_id, set_refund_pending, is_paid_for, handle_cancellation,
}
use pactum_codex.Workers.EventListener.Cancelled.{refund_started, handle_cancellation-Closed}
use pactum_codex.Workers.Keeper.{
  is_timed_out, set_payment_expired, expire_timed_out_payments, late_payments, set_refund_due,
  mark_late, after_lookup, reconcile_found, reference_key, reconcile_payment,
  reconcile_late_payments, for_rows,
}
use pactum_codex.Handlers.Draft.Submit.{SubmitDraftRequest, submit_draft}
use pactum_codex.Services.Solana.{Seed, derive_agreement_pda}
use pactum_codex.Services.SolanaPay.{has_status}
use pactum_codex.Workers.RefundWorker.Settled.{
  NoAmountSet, OfNothing, process_pending_refunds-Unset,
}
use pactum_codex.Lifecycle.Submitted.{linked_payments, submit_draft_lem}
use pactum_codex.Lifecycle.Running.{
  Linked, Step, initiated, confirmed, submitted, closed, timed_out, reconciled, refunded, elsewhere,
  Run, done, next,
}

insert_payment-NoneSet :
    (p : Payment) (reference : ℕ) → NoAmountSet p → Keeps NoneSet (insert_payment p reference)
insert_payment-NoneSet p reference e w h =
    elim (Bool-cases (head w.faults || not (payment_fits p reference w))) [
      | inl fails ↦ rw (fails, execute_if) h
      | inr fine ↦
          rw (fine, execute_if) (All-append NoAmountSet w.db.agreement_payments (p ∷ []) h (e, tt))
    ]

use_free_tier-NoneSet : (user draft : ℕ) → Keeps NoneSet (use_free_tier user draft)
unfolding use_free_tier
use_free_tier-NoneSet user draft w h = ground arith

module _ (show : ℕ → List ℕ) (config : Config) where
  ask_payment-NoneSet :
      (draft : ℕ) (method : String) → Keeps NoneSet (ask_payment show config draft method)
  unfolding ask_payment
  ask_payment-NoneSet draft method w h =
      elim (Option-cases (resolve config.stablecoin_registry method)) [
        | inl unknown ↦ ground (arith, unknown)
        | inr (token, known) ↦
            elim (Option-cases
              (cents_to_token_units config.platform_fee_usd_cents token.decimals)) [
                | inl over ↦ ground (arith, known, over)
                | inr (amount, fits) ↦
                    let p =
                      new_payment (w.supply 1) draft method token.mint amount (w.supply 0) w.now in
                    let w' : World = record w { supply = rest (rest w.supply) } in
                    ground (arith, known, fits, insert_payment-NoneSet p (w.supply 0) refl w' h)
              ]
      ]

  initiate-NoneSet :
      (auth : AuthUserWithWallet) (draft : ℕ) (method : String)
      → Keeps NoneSet (initiate_payment show config auth draft method)
  unfolding initiate_payment
  initiate-NoneSet auth draft method w h =
      let w₂ : World = record w { faults = rest (rest w.faults) } in
      ground (
        arith,
        use_free_tier-NoneSet auth.user_id draft w₂ h,
        ask_payment-NoneSet draft method w₂ h,
      )

written-NoneSet :
    (draft : ℕ) (w w' : World) (pda : ℕ → ℕ) (o : Option ℕ)
    → Finds o (λ creator.
      w'.db.agreement_payments ≡ linked_payments draft (pda creator) w.db.agreement_payments)
    → NoneSet w
    → NoneSet w'
written-NoneSet draft w w' pda none e h = elim e [ ]
written-NoneSet draft w w' pda (some c) e h = rw e (
    All-update_where NoAmountSet (λ p. p.draft_id == draft && has_status PaymentStatus.confirmed p)
      (λ p. record p { agreement_pda = some (pda c) }) (λ x a. a) w.db.agreement_payments h)

submit-NoneSet :
    (sdk : SolanaSdk) (find_program_address : List Seed → ℕ) (hex_decode : List ℕ → Option (List ℕ))
    (vault : ℕ) (auth : AuthUserWithWallet) (draft : ℕ) (req : SubmitDraftRequest)
    → Keeps NoneSet (submit_draft sdk find_program_address hex_decode vault auth draft req)
submit-NoneSet sdk address hex_decode vault auth draft req w h =
    elim (submit_draft_lem sdk address hex_decode vault auth draft req w) [
      | inl same ↦ rw same h
      | inr written ↦
          written-NoneSet draft w (submit_draft sdk address hex_decode vault auth draft req w).1
            (λ c. derive_agreement_pda address c (head w.supply)) (sdk.parse_pubkey auth.pubkey)
            written h
    ]

module _ (l : Linked) where
  Step-NoneSet : {w w' : World} → Step l w w' → NoneSet w → NoneSet w'
  Step-NoneSet (initiated auth draft method w) h =
      initiate-NoneSet l.show l.config auth draft method w h
  Step-NoneSet (confirmed reference signature mint amount w) h =
      confirm-NoneSet reference signature mint amount w h
  Step-NoneSet (submitted auth draft req w) h =
      submit-NoneSet l.sdk l.find_program_address l.hex_decode l.vault auth draft req w h
  Step-NoneSet (closed status event_type ws_event event w) h =
      cancel-NoneSet status event_type ws_event event w h
  Step-NoneSet (timed_out w) h = expire-NoneSet w h
  Step-NoneSet (reconciled w) h = reconcile-NoneSet l.sdk l.config w h
  Step-NoneSet (refunded w) h = process_pending_refunds-NoneSet l.sdk l.associated_token_address w h
  Step-NoneSet (elsewhere w w' e) h = rw e h

  run-NoneSet : {w w' : World} → Run l w w' → NoneSet w → NoneSet w'
  run-NoneSet done h = h
  run-NoneSet (next s r) h = run-NoneSet r (Step-NoneSet s h)

  -- Where no payment has an amount to refund, as in an empty table, none has one after any run: and
  -- where all that has been submitted so far is of nothing, so is all that the refund worker submits
  -- then.
  pub Run-OfNothing :
      {w w' : World} (sdk : SolanaSdk) (ata : ℕ → ℕ → ℕ)
      → Run l w w'
      → NoneSet w
      → All OfNothing w'.transfers
      → NoneSet w' × All OfNothing (process_pending_refunds sdk ata w').1.transfers
  Run-OfNothing {w} {w'} sdk ata r h t =
      let kept : NoneSet w' = run-NoneSet r h in
      (kept, (process_pending_refunds-Unset sdk ata w' (kept, t)).1)
