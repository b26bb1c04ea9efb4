-- ===== src/Handlers/Auth.antt =====
-- Sign-in: the handlers of src/handlers/auth.rs for wallets and refresh tokens, and the extractors
-- of src/middleware/. `Pubkey::from_str`, `Signature::from_str` and `Signature::verify` are those of
-- the Solana SDK, and a parameter.
pub mod Nonces
pub mod Sessions
pub mod Tests
use pactum_codex.Base.{
  ℕ, ◌+◌, Bool, true, false, Option, none, some, ◌∷◌, ◌==◌, ◌&&◌, ltb, not, is_some, find, exists,
  delete_where, Option-cases,
}
use mathlib.Core.Option
use pactum_codex.Error.{AppError}
use pactum_codex.Config.{Config}
use pactum_codex.State.Rows.{Db, Nonce, RefreshToken, Wallet}
use pactum_codex.State.World.{
  M, Void, Result, ok, err, ◌>>=◌, ◌>>◌, pure, throw, ok_or, guard, fresh, now, fetch,
  execute_returning, execute, insert_unique, lift,
}
use pactum_codex.Services.Jwt.{
  TokenLibrary, Claims, issue_access_token, issue_and_store_refresh_token, decode_access_token,
}

pub record SolanaSdk : Type 0 where
  pub parse_pubkey : ℕ → Option ℕ
  pub parse_signature : ℕ → Option ℕ
  pub verify : ℕ → ℕ → ℕ → Bool

-- `VerifyRequest`, and `LinkWalletRequest` with the same fields.
pub record VerifyRequest : Type 0 where
  pub pubkey : ℕ
  pub signature : ℕ
  pub nonce : ℕ

pub record AuthResponse : Type 0 where
  pub access_token : ℕ
  pub refresh_token : ℕ

-- `AuthUser` of the middleware.
pub record AuthUser : Type 0 where
  pub user_id : ℕ
  pub pubkey : Option ℕ

-- `AuthUserWithWallet`
pub record AuthUserWithWallet : Type 0 where
  pub user_id : ℕ
  pub pubkey : ℕ

-- `nonce = $1 AND created_at > now - 300`
abbrev pub is_live_nonce : ℕ → ℕ → Nonce → Bool
is_live_nonce nonce time row = row.nonce == nonce && ltb time (row.created_at + 300)

-- `token_hash = $1 AND expires_at > now`
abbrev pub is_live_token : ℕ → ℕ → RefreshToken → Bool
is_live_token hash time row = row.token_hash == hash && ltb time row.expires_at

abbrev pub has_pubkey : ℕ → Wallet → Bool
has_pubkey pubkey row = row.pubkey == pubkey

abbrev pub wallet_owner : ℕ → Db → Option ℕ
wallet_owner pubkey db = Option.map (λ row. row.user_id) (find (has_pubkey pubkey) db.auth_wallet)

abbrev pub user_wallet : ℕ → Db → Option ℕ
user_wallet user db =
    Option.map (λ row. row.pubkey) (find (λ row. row.user_id == user) db.auth_wallet)

-- `challenge`
unfoldable pub challenge : M ℕ
challenge = do
  nonce ← fresh
  time ← now
  insert_unique (λ db. exists (λ row. row.nonce == nonce) db.siws_nonces)
      (λ db. record db {
        siws_nonces = record { nonce = nonce; created_at = time } ∷ db.siws_nonces;
      })
  pure nonce

-- `DELETE … RETURNING nonce`
unfoldable pub consume_nonce : ℕ → M (Option Nonce)
consume_nonce nonce = do
  time ← now
  execute_returning (λ db. find (is_live_nonce nonce time) db.siws_nonces)
      (λ db. record db { siws_nonces = delete_where (is_live_nonce nonce time) db.siws_nonces })

abbrev pub add_wallet : ℕ → ℕ → M Void
add_wallet user pubkey =
    insert_unique (λ db. exists (has_pubkey pubkey) db.auth_wallet)
      (λ db. record db {
        auth_wallet = record { user_id = user; pubkey = pubkey } ∷ db.auth_wallet;
      })

-- The account of a wallet that has none yet.
unfoldable pub create_account : ℕ → M ℕ
create_account pubkey = do
  user ← fresh
  execute (λ db. record db {
    user_accounts = record { id = user; display_name = none } ∷ db.user_accounts;
  })
  add_wallet user pubkey
  pure user

module _ (sdk : SolanaSdk) (lib : TokenLibrary) where
  -- The steps that `verify` and `link_wallet` share: the nonce is consumed, then the signature is
  -- checked over it.
  unfoldable pub check_signature : VerifyRequest → M Void
  check_signature body = do
    row ← consume_nonce body.nonce
    guard (is_some row) AppError.invalid_or_expired_nonce
    pubkey ← ok_or (sdk.parse_pubkey body.pubkey) AppError.unauthorized
    signature ← ok_or (sdk.parse_signature body.signature) AppError.unauthorized
    guard (sdk.verify signature pubkey body.nonce) AppError.unauthorized

  -- Steps 4 and 5 of the handlers: new tokens for a user.
  unfoldable pub issue_tokens : Config → ℕ → Option ℕ → M AuthResponse
  issue_tokens config user pubkey = do
    access_token ← issue_access_token lib config user pubkey
    refresh_token ← issue_and_store_refresh_token lib user
    pure (record { access_token = access_token; refresh_token = refresh_token })

  -- `match existing_user_id`
  unfoldable pub resolve_user : ℕ → Option ℕ → M ℕ
  resolve_user pubkey none = create_account pubkey
  resolve_user pubkey (some user) = pure user

  unfoldable pub verify : Config → VerifyRequest → M AuthResponse
  verify config body = do
    check_signature body
    existing ← fetch (wallet_owner body.pubkey)
    user ← resolve_user body.pubkey existing
    issue_tokens config user (some body.pubkey)

  unfoldable pub link_wallet : Config → AuthUser → VerifyRequest → M AuthResponse
  link_wallet config auth body = do
    guard (not (is_some auth.pubkey)) AppError.wallet_already_linked
    check_signature body
    existing ← fetch (wallet_owner body.pubkey)
    guard (not (is_some existing)) AppError.wallet_already_linked
    add_wallet auth.user_id body.pubkey
    issue_tokens config auth.user_id (some body.pubkey)

  -- `DELETE FROM refresh_tokens … RETURNING user_id`
  unfoldable pub consume_refresh_token : ℕ → M (Option RefreshToken)
  consume_refresh_token raw = do
    time ← now
    execute_returning (λ db. find (is_live_token (lib.sha256_hex raw) time) db.refresh_tokens)
        (λ db. record db {
          refresh_tokens = delete_where (is_live_token (lib.sha256_hex raw) time) db.refresh_tokens;
        })

  unfoldable pub refresh : Config → ℕ → M AuthResponse
  refresh config raw = do
    row ← consume_refresh_token raw
    token ← ok_or row AppError.invalid_refresh_token
    pubkey ← fetch (user_wallet token.user_id)
    issue_tokens config token.user_id pubkey

  unfoldable pub logout : ℕ → M Void
  logout raw = execute (λ db. record db {
    refresh_tokens = delete_where (λ row. row.token_hash == lib.sha256_hex raw) db.refresh_tokens;
  })

  -- `AuthUser::from_request_parts`, from the bearer token of the header, if there is one.
  unfoldable pub auth_user : Config → Option ℕ → M AuthUser
  auth_user config header = do
    token ← ok_or header AppError.unauthorized
    time ← now
    claims ← lift (decode_access_token lib config time token)
    pure (record { user_id = claims.sub; pubkey = claims.pubkey })

  -- `AuthUserWithWallet::from_request_parts`
  unfoldable pub auth_user_with_wallet : Config → Option ℕ → M AuthUserWithWallet
  auth_user_with_wallet config header = do
    auth ← auth_user config header
    pubkey ← ok_or auth.pubkey AppError.wallet_required
    pure (record { user_id = auth.user_id; pubkey = pubkey })
