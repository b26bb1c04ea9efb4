-- ===== src/Handlers/Auth/Sessions.antt =====
-- What a successful sign-in and a token rotation of src/handlers/auth.rs leave behind.
use pactum_codex.Base.{
  ℕ, ◌≤◌, ◌≡◌, Bool, true, false, Option, none, some, ◌∷◌, arith, head, rest, ◌==◌, is_some, ◌≢◌,
  ◌⊎◌, find, delete_where, find-delete_where, Option-cases, inl, inr,
}
use pactum_codex.Error.{AppError}
use pactum_codex.Config.{Config}
use pactum_codex.State.World.{World, ok, err, OnOk, Result-cases}
use pactum_codex.Services.Jwt.{
  TokenLibrary, claims_at, token_row, issue_access_token, issue_and_store_refresh_token,
}
use pactum_codex.Handlers.Auth.{
  SolanaSdk, VerifyRequest, AuthResponse, is_live_nonce, is_live_token, wallet_owner, consume_nonce,
  create_account, check_signature, issue_tokens, resolve_user, verify, refresh, logout,
  consume_refresh_token,
}

-- Both texts of the request parse, and the signature is the key's signature of the nonce.
abbrev pub is_signed : SolanaSdk → VerifyRequest → Bool
is_signed sdk b = elim (sdk.parse_pubkey b.pubkey) [
  | none ↦ false
  | some key ↦ elim (sdk.parse_signature b.signature) [
    | none ↦ false
    | some signature ↦ sdk.verify signature key b.nonce
  ]
]

module _ (sdk : SolanaSdk) (lib : TokenLibrary) (config : Config) where
  issue_access_token_ok :
      (u : ℕ) (p : Option ℕ) (w : World)
      → let (r, w') = issue_access_token lib config u p w in
        OnOk r (λ t.
          (lib.encode config.jwt_secret (claims_at lib config u p w.now (head w.supply)) ≡ some t)
          × (w'.db ≡ w.db)
          × (w'.now ≡ w.now))
  unfolding issue_access_token
  issue_access_token_ok u p w = ground arith

  store_ok :
      (u : ℕ) (w : World)
      → let (r, w') = issue_and_store_refresh_token lib u w in
        OnOk r (λ t.
          w'.db ≡ record (w.db) { refresh_tokens = token_row lib u t w.now ∷ w.db.refresh_tokens })
  unfolding issue_and_store_refresh_token
  store_ok u w = ground arith

  issue_tokens_ok :
      (u : ℕ) (p : Option ℕ) (w : World)
      → let (r, w') = issue_tokens sdk lib config u p w in
        OnOk r (λ a.
          (lib.encode config.jwt_secret (claims_at lib config u p w.now (head w.supply))
            ≡ some a.access_token)
          × (w'.db ≡ record (w.db) {
            refresh_tokens = token_row lib u a.refresh_token w.now ∷ w.db.refresh_tokens;
          }))
  unfolding issue_tokens
  issue_tokens_ok u p w =
      ground
        (arith, issue_access_token_ok u p w, store_ok u (issue_access_token lib config u p w).1)

  check_signature_ok :
      (b : VerifyRequest) (w : World)
      → let (r, w') = check_signature sdk lib b w in
        OnOk r (λ _.
          (is_some (find (is_live_nonce b.nonce w.now) w.db.siws_nonces) ≡ true)
          × (is_signed sdk b ≡ true)
          × (w'.db.auth_wallet ≡ w.db.auth_wallet)
          × (w'.db.refresh_tokens ≡ w.db.refresh_tokens)
          × (w'.now ≡ w.now))
  unfolding check_signature consume_nonce
  check_signature_ok b w = ground arith

  resolve_user_ok :
      (p : ℕ) (w : World)
      → let (r, w') = resolve_user sdk lib p (wallet_owner p w.db) w in
        OnOk r (λ u.
          (wallet_owner p w'.db ≡ some u)
          × (w'.db.refresh_tokens ≡ w.db.refresh_tokens)
          × (w'.now ≡ w.now))
  resolve_user_ok p w = elim (Option-cases (wallet_owner p w.db)) [
    | inl new ↦ unfold resolve_user create_account in ground arith
    | inr (u, old) ↦ unfold resolve_user in ground arith
  ]

  -- A sign-in that succeeds was for a nonce that was issued less than 300 seconds before, signed by
  -- the wallet. It leaves the wallet with an owner, answers with an access token for that owner and
  -- wallet that expires after the configured time, and stores the hash of the refresh token it
  -- answers with, for that owner and for 604800 seconds, ahead of the tokens that were there.
  pub verify_sound :
      (b : VerifyRequest) (w : World) (a : AuthResponse)
      → (verify sdk lib config b w).0 ≡ ok a
      → let db' = (verify sdk lib config b w).1.db in
        (is_some (find (is_live_nonce b.nonce w.now) w.db.siws_nonces) ≡ true)
        × (is_signed sdk b ≡ true)
        × ((u : ℕ) × (jti : ℕ) × (wallet_owner b.pubkey db' ≡ some u)
            × (lib.encode config.jwt_secret (claims_at lib config u (some b.pubkey) w.now jti)
                ≡ some a.access_token)
            × (db'.refresh_tokens ≡ token_row lib u a.refresh_token w.now ∷ w.db.refresh_tokens))
  unfolding verify
  verify_sound b w a h =
      let w₁ : World = (check_signature sdk lib b w).1 in
      let w₁' : World = record w₁ { faults = rest w₁.faults } in
      let resolved = resolve_user sdk lib b.pubkey (wallet_owner b.pubkey w₁.db) w₁' in
      let signed = check_signature_ok b w in
      let owned = resolve_user_ok b.pubkey w₁' in
      elim (Result-cases resolved.0) [
        | inl (u, e) ↦
            let issued = issue_tokens_ok u (some b.pubkey) resolved.1 in
            (
              ground arith,
              ground arith,
              (u, head resolved.1.supply, ground arith, ground arith, ground arith),
            )
        | inr (x, e) ↦ absurd (ground arith)
      ]

  issue_access_token-frame :
      (u : ℕ) (p : Option ℕ) (w : World)
      → let w' = (issue_access_token lib config u p w).1 in
        (w'.db ≡ w.db) × (w'.supply ≡ rest w.supply)
  unfolding issue_access_token
  issue_access_token-frame u p w = ground arith

  -- A new refresh token does not answer to another hash.
  store_find :
      (u hash time : ℕ) (w : World)
      → lib.sha256_hex (head w.supply) ≢ hash
      → find (is_live_token hash time) (issue_and_store_refresh_token lib u w).1.db.refresh_tokens
        ≡ find (is_live_token hash time) w.db.refresh_tokens
  unfolding issue_and_store_refresh_token
  store_find u hash time w h = ground arith

  find-issue_tokens :
      (u : ℕ) (p : Option ℕ) (hash time : ℕ) (w : World)
      → lib.sha256_hex (w.supply 1) ≢ hash
      → find (is_live_token hash time) (issue_tokens sdk lib config u p w).1.db.refresh_tokens
        ≡ find (is_live_token hash time) w.db.refresh_tokens
  unfolding issue_tokens
  find-issue_tokens u p hash time w h =
      let w' : World = (issue_access_token lib config u p w).1 in
      let kept = issue_access_token-frame u p w in
      let other : lib.sha256_hex (head w'.supply) ≢ hash =
        rw (issue_access_token-frame u p w).1 h in
      ground (arith, store_find u hash time w' other)

  consume_refresh_token_lem :
      (raw : ℕ) (w : World)
      → head w.faults ≡ false
      → consume_refresh_token sdk lib raw w ≡ (
        ok (find (is_live_token (lib.sha256_hex raw) w.now) w.db.refresh_tokens),
        record w {
          faults = rest w.faults;
          db = record (w.db) {
            refresh_tokens =
                delete_where (is_live_token (lib.sha256_hex raw) w.now) w.db.refresh_tokens;
          };
        },
      )
  unfolding consume_refresh_token
  consume_refresh_token_lem raw w h = rw h

  logout_lem :
      (raw : ℕ) (w : World)
      → head w.faults ≡ false
      → (logout sdk lib raw w).1.db.refresh_tokens
        ≡ delete_where (λ row. row.token_hash == lib.sha256_hex raw) w.db.refresh_tokens
  unfolding logout
  logout_lem raw w h = ground arith

  refresh_dead :
      (raw : ℕ) (w : World)
      → head w.faults ≡ false
      → find (is_live_token (lib.sha256_hex raw) w.now) w.db.refresh_tokens ≡ none
      → (refresh sdk lib config raw w).0 ≡ err AppError.invalid_refresh_token
  unfolding refresh consume_refresh_token
  refresh_dead raw w h e = rw (consume_refresh_token_lem raw w h, e)

  find-refresh :
      (raw time : ℕ) (w : World)
      → head w.faults ≡ false
      → w.now ≤ time
      → lib.sha256_hex (w.supply 1) ≢ lib.sha256_hex raw
      → find
          (is_live_token (lib.sha256_hex raw) time)
          (refresh sdk lib config raw w).1.db.refresh_tokens
        ≡ none
  unfolding refresh
  find-refresh raw time w h le ne =
      let deleted =
        find-delete_where (is_live_token (lib.sha256_hex raw) w.now)
          (is_live_token (lib.sha256_hex raw) time) (λ r e. ground arith) w.db.refresh_tokens in
      let used = consume_refresh_token_lem raw w h in grind (arith, find-issue_tokens)

  -- A refresh token is spent by its first use and by `logout`. After `refresh` has reached the
  -- database, whatever its result was, and where the token it drew has another hash, or after a
  -- `logout` that succeeded, a later `refresh` of the same token on the tokens that were left is
  -- refused with `InvalidRefreshToken`.
  pub refresh_replay :
      (raw : ℕ) (w w' : World)
      → head w.faults ≡ false
      → head w'.faults ≡ false
      → w.now ≤ w'.now
      → lib.sha256_hex (w.supply 1) ≢ lib.sha256_hex raw
      → (w'.db.refresh_tokens ≡ (refresh sdk lib config raw w).1.db.refresh_tokens)
        ⊎ (w'.db.refresh_tokens ≡ (logout sdk lib raw w).1.db.refresh_tokens)
      → (refresh sdk lib config raw w').0 ≡ err AppError.invalid_refresh_token
  refresh_replay raw w w' h h' le ne (inl e) =
      refresh_dead raw w' h' (rw e (find-refresh raw w'.now w h le ne))
  refresh_replay raw w w' h h' le ne (inr e) = refresh_dead raw w' h' (
      rw (e, logout_lem raw w h)
        (find-delete_where _ (is_live_token (lib.sha256_hex raw) w'.now) (λ r q. ground arith)
          w.db.refresh_tokens))
