-- ===== src/Handlers/Payment/FreeTier.antt =====
-- The free tier: what `initiate_payment` of src/handlers/payment.rs grants, and how often.
use pactum_codex.Base.{
  ℕ, ◌+◌, ◌≤◌, ◌<◌, ◌≡◌, ◌≢◌, ◌⊎◌, true, false, String, some, List, [], ◌∷◌, arith, rest, ◌==◌,
  find, update_where, unwrap_or, if◌then◌else◌,
}
use mathlib.Core.Option
use pactum_codex.Error.{AppError}
use pactum_codex.Config.{Config}
use pactum_codex.State.Rows.{AgreementCount}
use pactum_codex.State.World.{World, ok, err, OnOk}
use pactum_codex.Handlers.Auth.{AuthUserWithWallet}
use pactum_codex.Handlers.Payment.{
  free, within_free_tier, has_draft_id, draft_creator, counts_user, free_used_by, bump_count,
  use_free_tier, ask_payment, initiate_payment,
}

abbrev used_in : ℕ → List AgreementCount → ℕ
used_in user cs = unwrap_or (Option.map (λ c. c.free_used) (find (counts_user user) cs)) 0

used_in-bump_count :
    (u v : ℕ) (cs : List AgreementCount)
    → used_in v (bump_count u cs) ≡ (if u == v then used_in v cs + 1 else used_in v cs)
used_in-bump_count u v [] = ground arith
used_in-bump_count u v (c ∷ cs) = ground (arith, used_in-bump_count u v cs)

use_free_tier-frame :
    (u id v : ℕ) (w : World)
    → let w' = (use_free_tier u id w).1 in
      (w'.db.agreement_payments ≡ w.db.agreement_payments)
      × ((free_used_by v w'.db ≡ free_used_by v w.db)
          ⊎ ((v ≡ u) × (free_used_by v w'.db ≡ free_used_by v w.db + 1)))
unfolding use_free_tier
use_free_tier-frame u id v w =
    let bumped = used_in-bump_count u v w.db.user_agreement_counts in (ground arith, ground arith)

use_free_tier_ok :
    (u id : ℕ) (w : World)
    → let (r, w') = use_free_tier u id w in
      OnOk r (λ x.
        (x ≡ free)
        × (w'.db.agreement_drafts
            ≡ update_where (has_draft_id id) (λ d. record d { paid = true }) w.db.agreement_drafts)
        × (free_used_by u w'.db ≡ free_used_by u w.db + 1))
unfolding use_free_tier
use_free_tier_ok u id w = ground (arith, used_in-bump_count u u w.db.user_agreement_counts)

module _ (show : ℕ → List ℕ) (config : Config) where
  ask_payment-frame :
      (id v : ℕ) (method : String) (w : World)
      → let (r, w') = ask_payment show config id method w in
        (free_used_by v w'.db ≡ free_used_by v w.db)
        × (w'.db.agreement_drafts ≡ w.db.agreement_drafts)
        × (r ≢ ok free)
  unfolding ask_payment
  ask_payment-frame id v method w = (ground arith, ground arith, ground arith)

  -- No user gets more free agreements than the tier allows: a count within the tier stays within it,
  -- whoever calls `initiate_payment` and however the call ends.
  pub initiate_payment-free_tier :
      (auth : AuthUserWithWallet) (id v : ℕ) (method : String) (w : World)
      → free_used_by v w.db ≤ config.platform_fee_free_tier
      → free_used_by v (initiate_payment show config auth id method w).1.db
        ≤ config.platform_fee_free_tier
  unfolding initiate_payment
  initiate_payment-free_tier auth id v method w h =
      let w₂ : World = record w { faults = rest (rest w.faults) } in
      ground (arith, use_free_tier-frame auth.user_id id v w₂, ask_payment-frame id v method w₂)

  -- The answer `Free` is given only to the draft's creator with a use of the tier left; then every
  -- draft of that id is marked as paid, no other draft changes, and one use is counted.
  pub initiate_payment-free :
      (auth : AuthUserWithWallet) (id : ℕ) (method : String) (w : World)
      → (initiate_payment show config auth id method w).0 ≡ ok free
      → let db' = (initiate_payment show config auth id method w).1.db in
        (draft_creator id w.db ≡ some auth.pubkey)
        × (free_used_by auth.user_id w.db < config.platform_fee_free_tier)
        × (db'.agreement_drafts
            ≡ update_where (has_draft_id id) (λ d. record d { paid = true }) w.db.agreement_drafts)
        × (free_used_by auth.user_id db' ≡ free_used_by auth.user_id w.db + 1)
  unfolding initiate_payment
  initiate_payment-free auth id method w h =
      let w₂ : World = record w { faults = rest (rest w.faults) } in
      ground
        (arith, use_free_tier_ok auth.user_id id w₂, ask_payment-frame id auth.user_id method w₂)

  -- The two statements of the free tier are no transaction. Where the draft's creator has a use left
  -- and only the statement that counts it fails, the handler answers with an internal error, every
  -- draft of the id is marked as paid, and no use is counted.
  pub initiate_payment_uncounted :
      (auth : AuthUserWithWallet) (id : ℕ) (method : String) (w : World)
      → draft_creator id w.db ≡ some auth.pubkey
      → within_free_tier (free_used_by auth.user_id w.db) config.platform_fee_free_tier ≡ true
      → w.faults 0 ≡ false
      → w.faults 1 ≡ false
      → w.faults 2 ≡ false
      → w.faults 3 ≡ true
      → let (r, w') = initiate_payment show config auth id method w in
        (r ≡ err AppError.internal_error)
        × (w'.db.agreement_drafts
            ≡ update_where (has_draft_id id) (λ d. record d { paid = true }) w.db.agreement_drafts)
        × (w'.db.user_agreement_counts ≡ w.db.user_agreement_counts)
  unfolding initiate_payment use_free_tier
  initiate_payment_uncounted auth id method w c t f0 f1 f2 f3 = ground arith
