-- ===== src/Lifecycle/Opened.antt =====
-- A payment that is asked for (`initiate_payment` of src/handlers/payment.rs) along the machine of
-- Lifecycle.
use pactum_codex.Base.{
  ℕ, ◌≡◌, refl, arith, Bool, false, String, List, [], ◌∷◌, ◌++◌, ◌||◌, not, is_value, exists, head,
  rest, inl, inr, Bool-cases, Option-cases,
}
use pactum_codex.Config.{Config, resolve}
use pactum_codex.State.Rows.{Payment, PaymentStatus}
use pactum_codex.State.World.{World, execute_if}
use pactum_codex.State.Keeps.{Keeps}
use pactum_codex.Handlers.Auth.{AuthUserWithWallet}
use pactum_codex.Handlers.Payment.{
  payment_fits, insert_payment, new_payment, cents_to_token_units, use_free_tier, ask_payment,
  initiate_payment,
}
use pactum_codex.Lifecycle.{here, Follows, Follows-trans, has_id, Distinct, Tracks}

exists-or :
    (p q : Payment → Bool) (xs : List Payment)
    → exists (λ x. p x || q x) xs ≡ false
    → exists p xs ≡ false
exists-or p q [] h = refl
exists-or p q (x ∷ xs) h = ground (arith, exists-or p q xs)

exists-append_other :
    (k : ℕ) (xs : List Payment) (y : Payment)
    → exists (has_id k) xs ≡ false
    → has_id k y ≡ false
    → exists (has_id k) (xs ++ y ∷ []) ≡ false
exists-append_other k [] y h e = ground arith
exists-append_other k (x ∷ xs) y h e = ground (arith, exists-append_other k xs y)

Distinct-append :
    (xs : List Payment) (y : Payment)
    → exists (has_id y.id) xs ≡ false
    → Distinct xs
    → Distinct (xs ++ y ∷ [])
Distinct-append [] y h d = (refl, tt)
Distinct-append (x ∷ xs) y h d = (
  exists-append_other x.id xs y d.0 (ground (arith, h)),
  Distinct-append xs y (ground (arith, h)) d.1,
)

Follows-append :
    (xs : List Payment) (y : Payment) → y.status ≡ PaymentStatus.pending → Follows xs (xs ++ y ∷ [])
Follows-append [] y e = (rw e here, tt)
Follows-append (x ∷ xs) y e = ((refl, here), Follows-append xs y e)

module _ (ps : List Payment) where
  insert_payment-Tracks :
      (p : Payment) (reference : ℕ)
      → p.status ≡ PaymentStatus.pending
      → Keeps (Tracks ps) (insert_payment p reference)
  insert_payment-Tracks p reference e w t =
      elim (Bool-cases (head w.faults || not (payment_fits p reference w))) [
        | inl fails ↦ rw (fails, execute_if) t
        | inr fine ↦
            let new : exists (has_id p.id) w.db.agreement_payments ≡ false =
              exists-or (has_id p.id) (λ q. is_value q.token_reference_pubkey reference)
                w.db.agreement_payments (ground (arith, fine)) in
            rw (fine, execute_if)
              (
                Distinct-append w.db.agreement_payments p new t.0,
                Follows-trans ps w.db.agreement_payments (w.db.agreement_payments ++ p ∷ []) t.1
                    (Follows-append w.db.agreement_payments p e),
              )
      ]

  use_free_tier-Tracks : (user draft : ℕ) → Keeps (Tracks ps) (use_free_tier user draft)
  unfolding use_free_tier
  use_free_tier-Tracks user draft w t = ground arith

  module _ (show : ℕ → List ℕ) (config : Config) where
    ask_payment-Tracks :
        (draft : ℕ) (method : String) → Keeps (Tracks ps) (ask_payment show config draft method)
    unfolding ask_payment
    ask_payment-Tracks draft method w t =
        elim (Option-cases (resolve config.stablecoin_registry method)) [
          | inl unknown ↦ ground (arith, unknown)
          | inr (token, known) ↦
              elim (Option-cases
                (cents_to_token_units config.platform_fee_usd_cents token.decimals)) [
                  | inl over ↦ ground (arith, known, over)
                  | inr (amount, fits) ↦
                      let p =
                        new_payment (w.supply 1) draft method token.mint amount (w.supply 0)
                          w.now in
                      let w' : World = record w { supply = rest (rest w.supply) } in
                      ground (arith, known, fits, insert_payment-Tracks p (w.supply 0) refl w' t)
                ]
        ]

    pub initiate_payment-Tracks :
        (auth : AuthUserWithWallet) (draft : ℕ) (method : String)
        → Keeps (Tracks ps) (initiate_payment show config auth draft method)
    unfolding initiate_payment
    initiate_payment-Tracks auth draft method w t =
        let w₂ : World = record w { faults = rest (rest w.faults) } in
        ground (
          arith,
          use_free_tier-Tracks auth.user_id draft w₂ t,
          ask_payment-Tracks draft method w₂ t,
        )
