-- ===== src/Services/SolanaPay/Confirm.antt =====
-- `confirm_payment_atomic` of src/services/solana_pay.rs confirms a reference once.
use pactum_codex.Base.{
  ℕ, ◌≡◌, refl, Bool, true, false, List, [], ◌∷◌, arith, head, exists, update_where, Bool-cases,
  inl, inr,
}
use pactum_codex.State.Rows.{Payment}
use pactum_codex.State.World.{World, ok}
use pactum_codex.Services.SolanaPay.{awaits, set_confirmed, confirm_payment_atomic}

exists-update_where-awaits :
    (reference sig mint amount time : ℕ) (ps : List Payment)
    → exists
        (awaits reference)
        (update_where (awaits reference) (set_confirmed sig mint amount time) ps)
      ≡ false
exists-update_where-awaits reference sig mint amount time [] = refl
exists-update_where-awaits reference sig mint amount time (p ∷ ps) =
    ground (arith, exists-update_where-awaits reference sig mint amount time ps)

update_where_none :
    (p : Payment → Bool) (f : Payment → Payment) (ps : List Payment)
    → exists p ps ≡ false
    → update_where p f ps ≡ ps
update_where_none p f [] h = refl
update_where_none p f (x ∷ ps) h = ground (arith, update_where_none p f ps)

confirm_ok :
    (reference sig mint amount : ℕ) (w : World)
    → (confirm_payment_atomic reference sig mint amount w).0 ≡ ok true
    → (confirm_payment_atomic reference sig mint amount w).1.db.agreement_payments
      ≡ update_where
          (awaits reference)
          (set_confirmed sig mint amount w.now)
          w.db.agreement_payments
unfolding confirm_payment_atomic
confirm_ok reference sig mint amount w h = elim (Bool-cases (head w.faults)) [
  | inl failed ↦ absurd (ground arith)
  | inr fine ↦ rw fine
]

-- Once a reference has been confirmed, confirming it again, at any later time and with any
-- transaction, answers `false` and leaves every payment as it was.
pub confirm_payment_atomic_once :
    (reference sig mint amount sig' mint' amount' : ℕ) (w w' : World)
    → (confirm_payment_atomic reference sig mint amount w).0 ≡ ok true
    → w'.db.agreement_payments
      ≡ (confirm_payment_atomic reference sig mint amount w).1.db.agreement_payments
    → head w'.faults ≡ false
    → let (r, w'') = confirm_payment_atomic reference sig' mint' amount' w' in
      (r ≡ ok false) × (w''.db.agreement_payments ≡ w'.db.agreement_payments)
unfolding confirm_payment_atomic
confirm_payment_atomic_once reference sig mint amount sig' mint' amount' w w' h e fine =
    let gone : exists (awaits reference) w'.db.agreement_payments ≡ false =
      rw (e, confirm_ok reference sig mint amount w h)
        (exists-update_where-awaits reference sig mint amount w.now w.db.agreement_payments) in
    rw (fine, gone) (refl, update_where_none (awaits reference) _ w'.db.agreement_payments gone)
