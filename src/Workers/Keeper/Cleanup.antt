-- ===== src/Workers/Keeper/Cleanup.antt =====
-- What the clean-up of src/workers/keeper.rs leaves for the sign-in.
use pactum_codex.Base.{ℕ, ◌≡◌, arith, true, false, find, find-delete_other}
use pactum_codex.State.Rows.{Nonce, RefreshToken}
use pactum_codex.State.World.{World}
use pactum_codex.Handlers.Auth.{is_live_nonce, is_live_token}
use pactum_codex.Workers.Keeper.{is_old_nonce, is_expired_token, cleanup_expired_auth_records}

live_nonce : (n time : ℕ) (x : Nonce) → is_live_nonce n time x ≡ true → is_old_nonce time x ≡ false
live_nonce n time x h = ground arith

live_token :
    (t time : ℕ) (x : RefreshToken)
    → is_live_token t time x ≡ true
    → is_expired_token time x ≡ false
live_token t time x h = ground arith

-- The clean-up is not seen by the sign-in: whichever of its statements fail, the live nonce and the
-- live refresh token that a handler looks for are found, or not, as before.
pub cleanup_expired_auth_records_lem :
    (nonce token : ℕ) (w : World)
    → let w' = (cleanup_expired_auth_records w).1 in
      (find (is_live_nonce nonce w'.now) w'.db.siws_nonces
        ≡ find (is_live_nonce nonce w.now) w.db.siws_nonces)
      × (find (is_live_token token w'.now) w'.db.refresh_tokens
          ≡ find (is_live_token token w.now) w.db.refresh_tokens)
unfolding cleanup_expired_auth_records
cleanup_expired_auth_records_lem nonce token w =
    let nonces =
      find-delete_other (is_old_nonce w.now) (is_live_nonce nonce w.now) (live_nonce nonce w.now)
        w.db.siws_nonces in
    let tokens =
      find-delete_other (is_expired_token w.now) (is_live_token token w.now)
        (live_token token w.now) w.db.refresh_tokens in
    (ground (arith, nonces), ground (arith, tokens))
