-- ===== src/Handlers/Payment/Paid.antt =====
-- The branch of `initiate_payment` of src/handlers/payment.rs that asks for a payment.
use pactum_codex.Base.{ℕ, ◌≡◌, ◌≢◌, false, String, List, arith, rest}
use pactum_codex.Config.{Config}
use pactum_codex.State.Rows.{accepts_insert}
use pactum_codex.State.Sample.{migrations}
use pactum_codex.State.World.{World, ok}
use pactum_codex.Handlers.Auth.{AuthUserWithWallet}
use pactum_codex.Handlers.Payment.{
  InitiatePaymentResponse, PendingPayment, pending, payment_columns, use_free_tier, ask_payment,
  initiate_payment,
}

module _ (show : ℕ → List ℕ) (config : Config) where
  ask_payment_refused :
      (id : ℕ) (method : String) (w : World)
      → accepts_insert w.schema.agreement_payments payment_columns ≡ false
      → let (r, w') = ask_payment show config id method w in
        ((x : InitiatePaymentResponse) → r ≢ ok x) × (w'.db ≡ w.db)
  unfolding ask_payment
  ask_payment_refused id method w h = (λ x. ground arith, ground arith)

  use_free_tier_not_pending :
      (u id : ℕ) (w : World) (p : PendingPayment) → (use_free_tier u id w).0 ≢ ok (pending p)
  unfolding use_free_tier
  use_free_tier_not_pending u id w p = ground arith

  use_free_tier-payments :
      (u id : ℕ) (w : World)
      → (use_free_tier u id w).1.db.agreement_payments ≡ w.db.agreement_payments
  unfolding use_free_tier
  use_free_tier-payments u id w = ground arith

  -- Against the tables of the migrations no payment can ever be asked for: the INSERT names columns
  -- that `agreement_payments` lacks and leaves out required ones. So, for every caller, draft and
  -- method, the answer is never `Pending`, and no row of `agreement_payments` is added or changed.
  pub initiate_payment_never_pending :
      (auth : AuthUserWithWallet) (id : ℕ) (method : String) (w : World)
      → w.schema ≡ migrations
      → let (r, w') = initiate_payment show config auth id method w in
        ((p : PendingPayment) → r ≢ ok (pending p))
        × (w'.db.agreement_payments ≡ w.db.agreement_payments)
  unfolding initiate_payment
  initiate_payment_never_pending auth id method w e =
      let w₂ : World = record w { faults = rest (rest w.faults) } in
      let refused = ask_payment_refused id method w₂ (rw e) in
      (
        λ p. ground (arith, use_free_tier_not_pending auth.user_id id w₂ p, refused.0 (pending p)),
        ground (arith, use_free_tier-payments auth.user_id id w₂, refused.1),
      )
