-- ===== src/Services/Jwt.antt =====
-- Access tokens and refresh tokens: src/services/jwt.rs. The JWT and SHA-256 libraries are a
-- parameter; a token, a hash and a key are numbers.
use pactum_codex.Base.{ℕ, ◌+◌, ◌<◌, ◌≤◌, ◌≡◌, Bool, Option, none, some, ◌∷◌, ◌==◌, exists}
use pactum_codex.Error.{AppError}
use pactum_codex.Config.{Config}
use pactum_codex.State.Rows.{RefreshToken}
use pactum_codex.State.World.{
  M, Result, ok, err, ◌>>=◌, ◌>>◌, pure, ok_or, fresh, now, insert_unique,
}

pub record Claims : Type 0 where
  pub sub : ℕ
  pub pubkey : Option ℕ
  pub exp : ℕ
  pub iat : ℕ
  pub jti : ℕ

-- `jsonwebtoken` and `sha2`. The laws are those of `encode` and of `decode` with `validate_exp` and
-- no leeway: what a secret has signed it reads back until it has expired.
pub record TokenLibrary : Type 0 where
  pub encode : ℕ → Claims → Option ℕ
  pub decode : ℕ → ℕ → ℕ → Option Claims
  pub sha256_hex : ℕ → ℕ
  pub decode-encode :
      (secret time token : ℕ) (c : Claims)
      → encode secret c ≡ some token
      → time ≤ c.exp
      → decode secret time token ≡ some c
  pub decode_expired :
      (secret time token : ℕ) (c : Claims)
      → encode secret c ≡ some token
      → c.exp < time
      → decode secret time token ≡ none

module _ (lib : TokenLibrary) where
  -- Seven days, whatever the configuration says.
  abbrev pub refresh_lifetime : ℕ
  refresh_lifetime = 604800

  abbrev pub claims_at : Config → ℕ → Option ℕ → ℕ → ℕ → Claims
  claims_at config user_id pubkey time jti = record {
    sub = user_id;
    pubkey = pubkey;
    exp = time + config.jwt_access_expiry_seconds;
    iat = time;
    jti = jti;
  }

  unfoldable pub issue_access_token : Config → ℕ → Option ℕ → M ℕ
  issue_access_token config user_id pubkey = do
    time ← now
    jti ← fresh
    ok_or (lib.encode config.jwt_secret (claims_at config user_id pubkey time jti))
        AppError.internal_error

  unfoldable pub decode_access_token : Config → ℕ → ℕ → Result Claims
  decode_access_token config time token = elim (lib.decode config.jwt_secret time token) [
    | none ↦ err AppError.unauthorized
    | some claims ↦ ok claims
  ]

  abbrev pub token_row : ℕ → ℕ → ℕ → RefreshToken
  token_row user_id raw time = record {
    token_hash = lib.sha256_hex raw;
    user_id = user_id;
    created_at = time;
    expires_at = time + refresh_lifetime;
  }

  abbrev pub has_hash : ℕ → RefreshToken → Bool
  has_hash h row = row.token_hash == h

  -- The raw token is returned, and only its hash is stored.
  unfoldable pub issue_and_store_refresh_token : ℕ → M ℕ
  issue_and_store_refresh_token user_id = do
    raw_token ← fresh
    time ← now
    insert_unique (λ db. exists (has_hash (lib.sha256_hex raw_token)) db.refresh_tokens)
        (λ db. record db { refresh_tokens = token_row user_id raw_token time ∷ db.refresh_tokens })
    pure raw_token
