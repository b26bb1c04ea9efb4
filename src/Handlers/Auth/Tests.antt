-- ===== src/Handlers/Auth/Tests.antt =====
-- Sign-ins on a small world.
use pactum_codex.Base.{
  ℕ, ◌+◌, ◌<◌, ◌≤◌, ◌≡◌, refl, true, Bool, Option, is_value, leb, some, none, [], ◌∷◌, arith, ◌==◌,
  ◌&&◌, inl, is_some, find, if◌then◌else◌,
}
use pactum_codex.Error.{AppError}
use pactum_codex.State.World.{World, ok, err}
use pactum_codex.State.Sample.{calm, empty_db, config}
use pactum_codex.Services.Jwt.{
  TokenLibrary, Claims, claims_at, token_row, issue_access_token, issue_and_store_refresh_token,
}
use pactum_codex.Handlers.Auth.{
  SolanaSdk, VerifyRequest, AuthUser, is_live_nonce, wallet_owner, check_signature, consume_nonce,
  create_account, resolve_user, issue_tokens, verify, link_wallet, refresh,
}
use pactum_codex.Handlers.Auth.Nonces.{verify_replay}
use pactum_codex.Handlers.Auth.Sessions.{is_signed, verify_sound, refresh_replay}

abbrev pub sdk : SolanaSdk
sdk = record {
  parse_pubkey = λ t. some t;
  parse_signature = λ t. some t;
  verify = λ s k m. s == k + m;
}

-- The claims of the sign-in below; the library of these tests signs no others.
abbrev signed_claims : Claims
signed_claims = record { sub = 7001; pubkey = some 5; exp = 1000900; iat = 1000000; jti = 7002 }

abbrev is_signed_claims : Claims → Bool
is_signed_claims c =
    c.sub == 7001 && is_value c.pubkey 5 && c.exp == 1000900 && c.iat == 1000000 && c.jti == 7002

abbrev pub encode_one : ℕ → Claims → Option ℕ
encode_one secret c = if is_signed_claims c then some 42 else none

abbrev pub decode_one : ℕ → ℕ → ℕ → Option Claims
decode_one secret time token = if token == 42 && leb time 1000900 then some signed_claims else none

pub decode-encode_one :
    (secret time token : ℕ) (c : Claims)
    → encode_one secret c ≡ some token
    → time ≤ c.exp
    → decode_one secret time token ≡ some c
decode-encode_one secret time token c e l = ground arith

pub decode_one_expired :
    (secret time token : ℕ) (c : Claims)
    → encode_one secret c ≡ some token
    → c.exp < time
    → decode_one secret time token ≡ none
decode_one_expired secret time token c e l = ground arith

abbrev pub library : TokenLibrary
library = record {
  encode = encode_one;
  decode = decode_one;
  sha256_hex = λ t. t + 1;
  decode-encode = decode-encode_one;
  decode_expired = decode_one_expired;
}

-- A nonce has been issued, and the wallet 5 signs it.
abbrev challenged : World
challenged = record calm {
  db = record empty_db { siws_nonces = record { nonce = 7000; created_at = 999900 } ∷ [] };
  supply = λ n. n + 7001;
}

abbrev request : VerifyRequest
request = record { pubkey = 5; signature = 7005; nonce = 7000 }

abbrev forged : VerifyRequest
forged = record { pubkey = 5; signature = 1; nonce = 7000 }

abbrev guest : AuthUser
guest = record { user_id = 8; pubkey = none }

verify_succeeds :
    (verify sdk library config request challenged).0
    ≡ ok (record { access_token = 42; refresh_token = 7003 })
unfolding verify check_signature consume_nonce resolve_user create_account issue_tokens
    issue_access_token issue_and_store_refresh_token
verify_succeeds = refl

verify_sound_example :
    let db' = (verify sdk library config request challenged).1.db in
    (is_some (find (is_live_nonce 7000 1000000) challenged.db.siws_nonces) ≡ true)
    × (is_signed sdk request ≡ true)
    × ((u : ℕ) × (jti : ℕ) × (wallet_owner 5 db' ≡ some u)
        × (encode_one 1 (claims_at library config u (some 5) 1000000 jti) ≡ some 42)
        × (db'.refresh_tokens ≡ token_row library u 7003 1000000 ∷ []))
verify_sound_example =
    verify_sound sdk library config request challenged
      (record { access_token = 42; refresh_token = 7003 }) verify_succeeds

-- A forged signature spends the nonce, so the wallet's own request is then refused.
verify_replay_example :
    let w' = record calm { db = (verify sdk library config forged challenged).1.db } in
    ((verify sdk library config request w').0 ≡ err AppError.invalid_or_expired_nonce)
    × ((link_wallet sdk library config guest request w').0 ≡ err AppError.invalid_or_expired_nonce)
verify_replay_example =
    verify_replay sdk library config forged request guest challenged
      (record calm { db = (verify sdk library config forged challenged).1.db }) refl refl
      (omega arith) refl refl refl

abbrev signed_in : World
signed_in = record calm {
  db = record empty_db {
    refresh_tokens =
        record { token_hash = 51; user_id = 8; created_at = 999000; expires_at = 1603800 } ∷ [];
  };
}

refresh_replay_example :
    let w' = record calm { db = (refresh sdk library config 50 signed_in).1.db } in
    (refresh sdk library config 50 w').0 ≡ err AppError.invalid_refresh_token
refresh_replay_example =
    refresh_replay sdk library config 50 signed_in
      (record calm { db = (refresh sdk library config 50 signed_in).1.db }) refl refl (omega arith)
      (omega arith) (inl refl)
