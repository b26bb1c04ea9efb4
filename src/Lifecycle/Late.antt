-- ===== src/Lifecycle/Late.antt =====
-- The reconciliation of late payments (src/workers/keeper.rs) along the machine of Lifecycle.
use pactum_codex.Base.{
  ℕ, refl, sym, Option, none, some, List, [], ◌∷◌, All, update_where, head, inl, inr, Bool-cases,
}
use mathlib.Core.Path.{subst}
use pactum_codex.Error.{AppError}
use pactum_codex.Config.{Config}
use pactum_codex.State.Rows.{Payment}
use pactum_codex.State.World.{
  World, Result, ok, err, fetch, for_each, OnOk, bind_lem, fetch-world, fetch-OnOk, call_rpc,
  call_rpc-world,
}
use pactum_codex.State.Keeps.{Keeps, Keeps-fetch}
use pactum_codex.Handlers.Auth.{SolanaSdk}
use pactum_codex.Workers.Keeper.{
  is_late, late_payments, set_refund_due, mark_late, after_lookup, reconcile_found, reference_key,
  reconcile_payment, reconcile_late_payments, for_rows,
}
use pactum_codex.Lifecycle.{has_id, Tracks}
use pactum_codex.Lifecycle.Updates.{Refundable, Refundable-update, select-Refundable}
use pactum_codex.Lifecycle.Operations.{refund-Tracks, late-Reaches}

still_late :
    (id time : ℕ) (rows xs : List Payment)
    → All (λ q. Refundable q.id xs) rows
    → All (λ q. Refundable q.id (update_where (has_id id) (set_refund_due time) xs)) rows
still_late id time [] xs h = tt
still_late id time (q ∷ rows) xs h = (
  Refundable-update (set_refund_due time) id q.id (λ x. refl) (λ x. refl) xs h.0,
  still_late id time rows xs h.1,
)

module _ (ps : List Payment) where
  -- The rows that the scan has read, all of which may still come to a refund.
  abbrev IsLate : List Payment → World → Type 0
  IsLate rows w = All (λ q. Refundable q.id w.db.agreement_payments) rows

  mark_late-IsLate :
      (id : ℕ) (rows : List Payment) (w : World)
      → IsLate rows w
      → Tracks ps w
      → Refundable id w.db.agreement_payments
      → IsLate rows (mark_late id w).1 × Tracks ps (mark_late id w).1
  unfolding mark_late
  mark_late-IsLate id rows w h t r = elim (Bool-cases (head w.faults)) [
    | inl fails ↦ rw fails (h, t)
    | inr fine ↦ rw fine (
      still_late id w.now rows w.db.agreement_payments h,
      refund-Tracks ps id w.now w.db.agreement_payments r t,
    )
  ]

  after_lookup-IsLate :
      (id : ℕ) (reply : Result ℕ) (rows : List Payment) (w : World)
      → IsLate rows w
      → Tracks ps w
      → Refundable id w.db.agreement_payments
      → let w' = (after_lookup id reply w).1 in IsLate rows w' × Tracks ps w'
  after_lookup-IsLate id (err e) rows w h t r = (h, t)
  after_lookup-IsLate id (ok account) rows w h t r = mark_late-IsLate id rows w h t r

  reconcile_found-IsLate :
      (id : ℕ) (key : Option ℕ) (rows : List Payment) (w : World)
      → IsLate rows w
      → Tracks ps w
      → Refundable id w.db.agreement_payments
      → let w' = (reconcile_found id key w).1 in IsLate rows w' × Tracks ps w'
  unfolding reconcile_found
  reconcile_found-IsLate id none rows w h t r = (h, t)
  reconcile_found-IsLate id (some key) rows w h t r =
      let (reply, w') = call_rpc AppError.solana_rpc_error w in
      after_lookup-IsLate id reply rows w' (rw (call_rpc-world AppError.solana_rpc_error w) h)
        (rw (call_rpc-world AppError.solana_rpc_error w) t)
        (rw (call_rpc-world AppError.solana_rpc_error w) r)

  module _ (sdk : SolanaSdk) (config : Config) where
    reconcile_all-Tracks :
        (rows : List Payment) (w : World)
        → IsLate rows w
        → Tracks ps w
        → Tracks ps (for_each (reconcile_payment sdk config) rows w).1
    unfolding reconcile_payment
    reconcile_all-Tracks [] w h t = t
    reconcile_all-Tracks (q ∷ rows) w h t =
        let m = reconcile_payment sdk config q in
        let key = reference_key sdk config q.token_reference_pubkey in
        let next = reconcile_found-IsLate q.id key rows w h.1 t h.0 in
        bind_lem m (λ _. for_each (reconcile_payment sdk config) rows) (λ r. Tracks ps r.1) w
          (λ _ _. reconcile_all-Tracks rows (m w).1 next.0 next.1) (λ _ _. next.1)

    for_rows-Tracks :
        (r : Result (List Payment)) (w : World)
        → OnOk r (λ rows. IsLate rows w)
        → Tracks ps w
        → Tracks ps (for_rows (reconcile_payment sdk config) r w).1
    for_rows-Tracks (err e) w h t = t
    for_rows-Tracks (ok rows) w h t = reconcile_all-Tracks rows w h t

    pub reconcile_late_payments-Tracks : Keeps (Tracks ps) (reconcile_late_payments sdk config)
    unfolding reconcile_late_payments
    reconcile_late_payments-Tracks w t =
        let q = late_payments w.now in
        let rows : OnOk (fetch q w).0 (λ rows. IsLate rows w) =
          fetch-OnOk q (λ rows. IsLate rows w) w
            (select-Refundable (is_late w.now) (late-Reaches w.now) w.db.agreement_payments t.0) in
        for_rows-Tracks (fetch q w).0 (fetch q w).1
          (subst (λ v. OnOk (fetch q w).0 (λ rows. IsLate rows v)) (sym (fetch-world q w)) rows)
          (Keeps-fetch (Tracks ps) q (λ v fs s. s) w t)
