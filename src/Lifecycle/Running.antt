-- ===== src/Lifecycle/Running.antt =====
-- Runs of the program, on the table of payments: any sequence of the seven parts of it that write to
-- this table (`initiate_payment`, `submit_draft` and the confirmation of a payment of src/handlers/
-- and src/services/, and the statements of the event listener, the keeper and the refund worker of
-- src/workers/), with any step in between that leaves the table as it is.
use pactum_codex.Base.{
  ℕ, ◌≡◌, arith, String, Option, some, List, [], ◌∷◌, find, Bool-cases, inl, inr, true, false, ◌==◌,
}
use mathlib.Core.Path.{subst}
use pactum_codex.Config.{Config}
use pactum_codex.State.Rows.{Payment, PaymentStatus, PartyStatus}
use pactum_codex.State.Events.{WsEvent}
use pactum_codex.State.World.{World, Finds, Finds-map}
use pactum_codex.Handlers.Auth.{SolanaSdk, AuthUserWithWallet}
use pactum_codex.Handlers.Payment.{initiate_payment}
use pactum_codex.Handlers.Draft.Submit.{SubmitDraftRequest, submit_draft}
use pactum_codex.Services.Solana.{Seed}
use pactum_codex.Services.SolanaPay.{confirm_payment_atomic}
use pactum_codex.Services.ProgramLog.{ParsedEvent}
use pactum_codex.Workers.RefundWorker.{process_pending_refunds}
use pactum_codex.Workers.EventListener.{handle_cancellation}
use pactum_codex.Workers.Keeper.{expire_timed_out_payments, reconcile_late_payments}
use pactum_codex.Lifecycle.{
  Move, Reaches, here, move, Advances, Follows, Follows-refl, has_id, Distinct, Tracks,
}
use pactum_codex.Lifecycle.Operations.{
  confirm_payment_atomic-Tracks, expire_timed_out_payments-Tracks, process_pending_refunds-Tracks,
  handle_cancellation-Tracks,
}
use pactum_codex.Lifecycle.Late.{reconcile_late_payments-Tracks}
use pactum_codex.Lifecycle.Opened.{initiate_payment-Tracks}
use pactum_codex.Lifecycle.Submitted.{submit_draft-Tracks}

-- What the code is linked with: the SDK, the derivation of token accounts and of the program's
-- addresses, the `hex` crate, the text of an identifier, the configuration, and the vault's key.
pub record Linked : Type 0 where
  pub sdk : SolanaSdk
  pub associated_token_address : ℕ → ℕ → ℕ
  pub show : ℕ → List ℕ
  pub config : Config
  pub find_program_address : List Seed → ℕ
  pub hex_decode : List ℕ → Option (List ℕ)
  pub vault : ℕ

pub data Step (l : Linked) : World → World → Type 0 where
  initiated :
      (auth : AuthUserWithWallet) (draft : ℕ) (method : String) (w : World)
      → Step l w (initiate_payment l.show l.config auth draft method w).1
  confirmed :
      (reference signature mint amount : ℕ) (w : World)
      → Step l w (confirm_payment_atomic reference signature mint amount w).1
  submitted :
      (auth : AuthUserWithWallet) (draft : ℕ) (req : SubmitDraftRequest) (w : World)
      → Step l w (submit_draft l.sdk l.find_program_address l.hex_decode l.vault auth draft req w).1
  closed :
      (status : PartyStatus) (event_type : String) (ws_event : ℕ → WsEvent) (event : ParsedEvent)
      (w : World)
      → Step l w (handle_cancellation status event_type ws_event event w).1
  timed_out : (w : World) → Step l w (expire_timed_out_payments w).1
  reconciled : (w : World) → Step l w (reconcile_late_payments l.sdk l.config w).1
  refunded : (w : World) → Step l w (process_pending_refunds l.sdk l.associated_token_address w).1
  elsewhere : (w w' : World) → w'.db.agreement_payments ≡ w.db.agreement_payments → Step l w w'

pub data Run (l : Linked) : World → World → Type 0 where
  done : {w : World} → Run l w w
  next : {w v w' : World} → Step l w v → Run l v w' → Run l w w'

module _ (l : Linked) where
  Step-Tracks : (ps : List Payment) {w w' : World} → Step l w w' → Tracks ps w → Tracks ps w'
  Step-Tracks ps (initiated auth draft method w) t =
      initiate_payment-Tracks ps l.show l.config auth draft method w t
  Step-Tracks ps (confirmed reference signature mint amount w) t =
      confirm_payment_atomic-Tracks ps reference signature mint amount w t
  Step-Tracks ps (submitted auth draft req w) t =
      submit_draft-Tracks l.sdk l.find_program_address l.hex_decode l.vault ps auth draft req w t
  Step-Tracks ps (closed status event_type ws_event event w) t =
      handle_cancellation-Tracks ps status event_type ws_event event w t
  Step-Tracks ps (timed_out w) t = expire_timed_out_payments-Tracks ps w t
  Step-Tracks ps (reconciled w) t = reconcile_late_payments-Tracks ps l.sdk l.config w t
  Step-Tracks ps (refunded w) t =
      process_pending_refunds-Tracks ps l.sdk l.associated_token_address w t
  Step-Tracks ps (elsewhere w w' e) t = rw e t

  run_from : (ps : List Payment) {w w' : World} → Run l w w' → Tracks ps w → Tracks ps w'
  run_from ps done t = t
  run_from ps (next s r) t = run_from ps r (Step-Tracks ps s t)

  -- Where the ids of the payments are a key, they stay one in every run, and the table of the
  -- program refines the abstract machine: each payment is in its place, with a status that the
  -- machine reaches from its own, and the payments that have come began as pending.
  pub Run-Tracks :
      {w w' : World}
      → Run l w w'
      → Distinct w.db.agreement_payments
      → Tracks w.db.agreement_payments w'
  Run-Tracks {w} r d = run_from w.db.agreement_payments r (d, Follows-refl w.db.agreement_payments)

  find-Follows :
      (id : ℕ) (ps qs : List Payment) (p : Payment)
      → Follows ps qs
      → find (has_id id) ps ≡ some p
      → Finds (find (has_id id) qs) (λ q. Advances p q)
  find-Follows id [] qs p f e = cc
  find-Follows id (x ∷ ps) [] p f e = elim f [ ]
  find-Follows id (x ∷ ps) (y ∷ qs) p f e = elim (Bool-cases (x.id == id)) [
    | inl holds ↦
        let same : x ≡ p = ground (arith, holds, e) in
        let found : (y.id == id) ≡ true = rw (f.0.0) holds in
        subst (λ v. Finds (find (has_id id) (y ∷ qs)) (λ q. Advances v q)) same (rw found (f.0))
    | inr fails ↦
        let missed : (y.id == id) ≡ false = rw (f.0.0) fails in
        rw missed (find-Follows id ps qs p f.1 (ground (arith, fails, e)))
  ]

  last_status :
      {s t : PaymentStatus} → s ≡ PaymentStatus.refunded → Reaches s t → t ≡ PaymentStatus.refunded
  last_status e here = e
  last_status e (move Move.confirm r) = ground (arith, e)
  last_status e (move Move.time_out r) = ground (arith, e)
  last_status e (move Move.cancel r) = ground (arith, e)
  last_status e (move Move.arrive_late r) = ground (arith, e)
  last_status e (move Move.pay_back r) = ground (arith, e)

  -- Whatever runs, a payment that has been refunded is there, and is refunded: it is never paid back
  -- from another status again.
  pub Run-refunded :
      {w w' : World} (id : ℕ) (p : Payment)
      → Run l w w'
      → Distinct w.db.agreement_payments
      → find (has_id id) w.db.agreement_payments ≡ some p
      → p.status ≡ PaymentStatus.refunded
      → Finds (find (has_id id) w'.db.agreement_payments) (λ q. q.status ≡ PaymentStatus.refunded)
  Run-refunded {w} {w'} id p r d e s =
      Finds-map (find (has_id id) w'.db.agreement_payments) (λ q a. last_status s a.1)
        (find-Follows id w.db.agreement_payments w'.db.agreement_payments p (Run-Tracks r d).1 e)
