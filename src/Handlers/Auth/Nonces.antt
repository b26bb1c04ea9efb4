-- ===== src/Handlers/Auth/Nonces.antt =====
-- A challenge nonce admits one sign-in: `verify` and `link_wallet` of src/handlers/auth.rs consume it
-- before anything else is checked.
use pactum_codex.Base.{
  ℕ, ◌≤◌, ◌≡◌, refl, true, false, Option, none, some, arith, head, find, delete_where,
  find-delete_where,
}
use pactum_codex.Error.{AppError}
use pactum_codex.Config.{Config}
use pactum_codex.State.Rows.{Nonce}
use pactum_codex.State.World.{World, err}
use pactum_codex.Services.Jwt.{TokenLibrary, issue_access_token, issue_and_store_refresh_token}
use pactum_codex.Handlers.Auth.{
  SolanaSdk, VerifyRequest, AuthUser, is_live_nonce, consume_nonce, create_account, check_signature,
  issue_tokens, resolve_user, verify, link_wallet,
}

-- A nonce that is live at a later time was live before.
is_live_nonce_earlier :
    (n n' t t' : ℕ)
    → n' ≡ n
    → t ≤ t'
    → (r : Nonce) → is_live_nonce n' t' r ≡ true
    → is_live_nonce n t r ≡ true
is_live_nonce_earlier n n' t t' e le r h = ground arith

module _ (sdk : SolanaSdk) (lib : TokenLibrary) (config : Config) where
  issue_access_token-db :
      (u : ℕ) (p : Option ℕ) (w : World) → (issue_access_token lib config u p w).1.db ≡ w.db
  unfolding issue_access_token
  issue_access_token-db u p w = ground arith

  store-siws_nonces :
      (u : ℕ) (w : World)
      → (issue_and_store_refresh_token lib u w).1.db.siws_nonces ≡ w.db.siws_nonces
  unfolding issue_and_store_refresh_token
  store-siws_nonces u w = ground arith

  issue_tokens-siws_nonces :
      (u : ℕ) (p : Option ℕ) (w : World)
      → (issue_tokens sdk lib config u p w).1.db.siws_nonces ≡ w.db.siws_nonces
  unfolding issue_tokens
  issue_tokens-siws_nonces u p w = grind (arith, issue_access_token-db, store-siws_nonces)

  resolve_user-siws_nonces :
      (p : ℕ) (o : Option ℕ) (w : World)
      → (resolve_user sdk lib p o w).1.db.siws_nonces ≡ w.db.siws_nonces
  unfolding resolve_user create_account
  resolve_user-siws_nonces p none w = ground arith
  resolve_user-siws_nonces p (some u) w = refl

  check_signature-siws_nonces :
      (b : VerifyRequest) (w : World)
      → head w.faults ≡ false
      → (check_signature sdk lib b w).1.db.siws_nonces
        ≡ delete_where (is_live_nonce b.nonce w.now) w.db.siws_nonces
  unfolding check_signature consume_nonce
  check_signature-siws_nonces b w h = ground arith

  verify-siws_nonces :
      (b : VerifyRequest) (w : World)
      → head w.faults ≡ false
      → (verify sdk lib config b w).1.db.siws_nonces
        ≡ delete_where (is_live_nonce b.nonce w.now) w.db.siws_nonces
  unfolding verify
  verify-siws_nonces b w h =
      grind (arith, check_signature-siws_nonces, resolve_user-siws_nonces, issue_tokens-siws_nonces)

  link_wallet-siws_nonces :
      (u : AuthUser) (b : VerifyRequest) (w : World)
      → u.pubkey ≡ none
      → head w.faults ≡ false
      → (link_wallet sdk lib config u b w).1.db.siws_nonces
        ≡ delete_where (is_live_nonce b.nonce w.now) w.db.siws_nonces
  unfolding link_wallet
  link_wallet-siws_nonces u b w e h =
      grind (arith, check_signature-siws_nonces, issue_tokens-siws_nonces)

  check_signature_dead :
      (b : VerifyRequest) (w : World)
      → head w.faults ≡ false
      → find (is_live_nonce b.nonce w.now) w.db.siws_nonces ≡ none
      → (check_signature sdk lib b w).0 ≡ err AppError.invalid_or_expired_nonce
  unfolding check_signature consume_nonce
  check_signature_dead b w h e = ground arith

  verify_dead :
      (b : VerifyRequest) (w : World)
      → head w.faults ≡ false
      → find (is_live_nonce b.nonce w.now) w.db.siws_nonces ≡ none
      → (verify sdk lib config b w).0 ≡ err AppError.invalid_or_expired_nonce
  unfolding verify
  verify_dead b w h e = ground (arith, check_signature_dead b w)

  link_wallet_dead :
      (u : AuthUser) (b : VerifyRequest) (w : World)
      → u.pubkey ≡ none
      → head w.faults ≡ false
      → find (is_live_nonce b.nonce w.now) w.db.siws_nonces ≡ none
      → (link_wallet sdk lib config u b w).0 ≡ err AppError.invalid_or_expired_nonce
  unfolding link_wallet
  link_wallet_dead u b w n h e = ground (arith, check_signature_dead b w)

  -- Replay protection. After `verify` has reached the database, whatever its result was, a second
  -- `verify` with the same nonce, at the same or a later time and on the nonces that the first one
  -- left, is refused with `InvalidOrExpiredNonce`, whatever key and signature it brings; so is a
  -- `link_wallet` of a user with no wallet.
  pub verify_replay :
      (b b' : VerifyRequest) (u : AuthUser) (w w' : World)
      → head w.faults ≡ false
      → head w'.faults ≡ false
      → w.now ≤ w'.now
      → w'.db.siws_nonces ≡ (verify sdk lib config b w).1.db.siws_nonces
      → b'.nonce ≡ b.nonce
      → u.pubkey ≡ none
      → ((verify sdk lib config b' w').0 ≡ err AppError.invalid_or_expired_nonce)
        × ((link_wallet sdk lib config u b' w').0 ≡ err AppError.invalid_or_expired_nonce)
  verify_replay b b' u w w' h h' le e n p =
      let gone : find (is_live_nonce b'.nonce w'.now) w'.db.siws_nonces ≡ none =
        rw (e, verify-siws_nonces b w h)
          (find-delete_where (is_live_nonce b.nonce w.now) (is_live_nonce b'.nonce w'.now)
            (is_live_nonce_earlier b.nonce b'.nonce w.now w'.now n le) w.db.siws_nonces) in
      (verify_dead b' w' h' gone, link_wallet_dead u b' w' p h' gone)

  -- The same after `link_wallet`: its nonce is spent for it and for `verify`.
  pub link_wallet_replay :
      (b b' : VerifyRequest) (u u' : AuthUser) (w w' : World)
      → head w.faults ≡ false
      → head w'.faults ≡ false
      → w.now ≤ w'.now
      → w'.db.siws_nonces ≡ (link_wallet sdk lib config u b w).1.db.siws_nonces
      → b'.nonce ≡ b.nonce
      → u.pubkey ≡ none
      → u'.pubkey ≡ none
      → ((verify sdk lib config b' w').0 ≡ err AppError.invalid_or_expired_nonce)
        × ((link_wallet sdk lib config u' b' w').0 ≡ err AppError.invalid_or_expired_nonce)
  link_wallet_replay b b' u u' w w' h h' le e n p p' =
      let gone : find (is_live_nonce b'.nonce w'.now) w'.db.siws_nonces ≡ none =
        rw (e, link_wallet-siws_nonces u b w p h)
          (find-delete_where (is_live_nonce b.nonce w.now) (is_live_nonce b'.nonce w'.now)
            (is_live_nonce_earlier b.nonce b'.nonce w.now w'.now n le) w.db.siws_nonces) in
      (verify_dead b' w' h' gone, link_wallet_dead u' b' w' p' h' gone)
