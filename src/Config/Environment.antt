-- ===== src/Config/Environment.antt =====
-- The settings from the environment: `Config::from_env` and `inject_password_into_url` of
-- src/config.rs, where `none` is a panic. A text is the list of its characters. `name` gives the
-- number that stands for a text that is only compared; `parse_sol` reads a float, in lamports;
-- `files` is `fs::read_to_string`.
use pactum_codex.Base.{
  ℕ, ◌+◌, ◌-◌, ◌*◌, String, Bool, Option, none, some, List, [], ◌∷◌, ◌++◌, ◌==◌, ◌&&◌, leb,
  unwrap_or, if◌then◌else◌,
}
use pactum_codex.Config.{Config, StablecoinInfo, StablecoinRegistry}
use pactum_codex.Services.SolanaPay.{codes}
use pactum_codex.Services.ProgramLog.{strip_prefix, trim}

infixl 5 ◌>>=◌
abbrev pub ◌>>=◌ : {A B : Type 0} → Option A → (A → Option B) → Option B
none >>= f = none
some a >>= f = f a

abbrev pub Environment : Type 0
Environment = String → Option (List ℕ)

abbrev pub is_digit : ℕ → Bool
is_digit c = leb b'0' c && leb c b'9'

-- The digits after `n`, as long as the value fits.
unfoldable pub scan : ℕ → List ℕ → ℕ → Option ℕ
scan max [] n = some n
scan max (c ∷ cs) n =
    let rest = scan max cs (n * 10 + (c - b'0')) in
    if is_digit c && leb (n * 10 + (c - b'0')) max then rest else none

-- `str::parse` for an unsigned integer: one or more digits, after a plus sign or none.
unfoldable pub parse_uint : ℕ → List ℕ → Option ℕ
parse_uint max [] = none
parse_uint max (c ∷ []) = scan max (c ∷ []) 0
parse_uint max (c ∷ d ∷ cs) = if c == b'+' then scan max (d ∷ cs) 0 else scan max (c ∷ d ∷ cs) 0

-- The text in front of the first `@`, and the text from it on.
abbrev pub cons_user : ℕ → Option (List ℕ × List ℕ) → Option (List ℕ × List ℕ)
cons_user c none = none
cons_user c (some (user, after)) = some (c ∷ user, after)

unfoldable pub split_user : List ℕ → Option (List ℕ × List ℕ)
split_user [] = none
split_user (c ∷ cs) =
    let later = cons_user c (split_user cs) in if c == b'@' then some ([], c ∷ cs) else later

-- The text up to and with the first `://`, and the text after it.
unfoldable pub split_scheme : List ℕ → Option (List ℕ × List ℕ)
split_scheme [] = none
split_scheme (c ∷ cs) = elim (strip_prefix (codes "://") (c ∷ cs)) [
  | some after ↦ some (codes "://", after)
  | none ↦ cons_user c (split_scheme cs)
]

unfoldable pub inject_password_into_url : List ℕ → List ℕ → Option (List ℕ)
inject_password_into_url url password = do
  (scheme, after_scheme) ← split_scheme url
  (user, after_at) ← split_user after_scheme
  some (scheme ++ (user ++ (codes ":" ++ (password ++ after_at))))

abbrev pub u16_max : ℕ
u16_max = 65535

abbrev pub u32_max : ℕ
u32_max = 4294967295

abbrev pub u64_max : ℕ
u64_max = 18446744073709551615

module _ (name : List ℕ → ℕ) (parse_sol : List ℕ → Option ℕ) (files : List ℕ → Option (List ℕ))
    (env : Environment) where
  abbrev pub var_or : String → String → List ℕ
  var_or variable default = unwrap_or (env variable) (codes default)

  -- `.unwrap_or_else(…).parse().expect(…)`
  abbrev pub number : ℕ → String → String → Option ℕ
  number max variable default = parse_uint max (var_or variable default)

  unfoldable pub database_url : Option (List ℕ)
  database_url = env "DATABASE_URL" >>= λ base_url. elim (env "PGPASSWORD_FILE") [
    | none ↦ some base_url
    | some pw_file ↦ files pw_file >>= λ password. inject_password_into_url base_url (trim password)
  ]

  unfoldable pub stablecoin : String → String → String → String → Option StablecoinInfo
  stablecoin symbol mint_variable mint ata_variable = env ata_variable >>= λ ata. some (record {
    symbol = symbol;
    mint = name (var_or mint_variable mint);
    ata = name ata;
    decimals = 6;
  })

  unfoldable pub stablecoin_registry : Option StablecoinRegistry
  stablecoin_registry = do
    usdc ←
        stablecoin "usdc" "STABLECOIN_USDC_MINT" "EPjFWdd5AufqSSqeM2qN1xzybapC8G4wEGGkZwyTDt1v"
          "STABLECOIN_USDC_ATA"
    usdt ←
        stablecoin "usdt" "STABLECOIN_USDT_MINT" "Es9vMFrzaCERmJfrF4H2FYD4KCoNkY11McCe8BenwNYB"
          "STABLECOIN_USDT_ATA"
    pyusd ←
        stablecoin "pyusd" "STABLECOIN_PYUSD_MINT" "2b1kV6DkPAnxd5ixfnxCpjxmKwqjjaYmCZfHsFu24GXo"
          "STABLECOIN_PYUSD_ATA"
    some (record { usdc = usdc; usdt = usdt; pyusd = pyusd })

  -- What the start-up insists on, by the sections of the source.
  abbrev pub solana_settings : Option (List ℕ × List ℕ × List ℕ)
  solana_settings = do
    solana_rpc_url ← env "SOLANA_RPC_URL"
    solana_ws_url ← env "SOLANA_WS_URL"
    program_id ← env "PROGRAM_ID"
    some (solana_rpc_url, solana_ws_url, program_id)

  abbrev pub jwt_settings : Option (List ℕ × ℕ × ℕ)
  jwt_settings = do
    jwt_secret ← env "JWT_SECRET"
    jwt_access_expiry_seconds ← number u64_max "JWT_ACCESS_EXPIRY_SECONDS" "900"
    jwt_refresh_expiry_seconds ← number u64_max "JWT_REFRESH_EXPIRY_SECONDS" "604800"
    some (jwt_secret, jwt_access_expiry_seconds, jwt_refresh_expiry_seconds)

  abbrev pub encryption_settings : Option (List ℕ × List ℕ)
  encryption_settings = do
    encryption_key ← env "ENCRYPTION_KEY"
    encryption_index_key ← env "ENCRYPTION_INDEX_KEY"
    some (encryption_key, encryption_index_key)

  abbrev pub oauth_settings : Option (List ℕ × List ℕ × List ℕ × List ℕ)
  oauth_settings = do
    google_client_id ← env "GOOGLE_CLIENT_ID"
    google_client_secret ← env "GOOGLE_CLIENT_SECRET"
    microsoft_client_id ← env "MICROSOFT_CLIENT_ID"
    microsoft_client_secret ← env "MICROSOFT_CLIENT_SECRET"
    some (google_client_id, google_client_secret, microsoft_client_id, microsoft_client_secret)

  abbrev pub email_settings : Option (List ℕ × ℕ × ℕ)
  email_settings = do
    resend_api_key ← env "RESEND_API_KEY"
    invite_expiry_seconds ← number u64_max "INVITE_EXPIRY_SECONDS" "604800"
    invite_reminder_after_seconds ← number u64_max "INVITE_REMINDER_AFTER_SECONDS" "259200"
    some (resend_api_key, invite_expiry_seconds, invite_reminder_after_seconds)

  abbrev pub payment_settings : Option (ℕ × ℕ × ℕ)
  payment_settings = do
    platform_fee_usd_cents ← number u32_max "PLATFORM_FEE_USD_CENTS" "199"
    platform_fee_free_tier ← number u32_max "PLATFORM_FEE_FREE_TIER" "3"
    platform_nonrefundable_fee_cents ← number u32_max "PLATFORM_NONREFUNDABLE_FEE_CENTS" "10"
    some (platform_fee_usd_cents, platform_fee_free_tier, platform_nonrefundable_fee_cents)

  abbrev pub keypair_settings : Option (List ℕ × List ℕ × List ℕ × List ℕ)
  keypair_settings = do
    platform_vault_pubkey ← env "PLATFORM_VAULT_PUBKEY"
    platform_vault_keypair_path ← env "PLATFORM_VAULT_KEYPAIR_PATH"
    platform_treasury_pubkey ← env "PLATFORM_TREASURY_PUBKEY"
    platform_treasury_keypair_path ← env "PLATFORM_TREASURY_KEYPAIR_PATH"
    some (
      platform_vault_pubkey, platform_vault_keypair_path, platform_treasury_pubkey,
      platform_treasury_keypair_path,
    )

  abbrev pub threshold_settings : Option (ℕ × ℕ × ℕ × ℕ × ℕ × List ℕ)
  threshold_settings = do
    vault_min_sol_alert ← parse_sol (var_or "VAULT_MIN_SOL_ALERT" "0.5")
    vault_min_sol_circuit_breaker ← parse_sol (var_or "VAULT_MIN_SOL_CIRCUIT_BREAKER" "0.1")
    vault_funding_rate_limit_per_hour ← number u32_max "VAULT_FUNDING_RATE_LIMIT_PER_HOUR" "50"
    treasury_min_usdc_alert ← number u64_max "TREASURY_MIN_USDC_ALERT" "20000000"
    treasury_float_per_token ← number u64_max "TREASURY_FLOAT_PER_TOKEN" "50000000"
    treasury_sweep_dest ← env "TREASURY_SWEEP_DEST"
    some (
      vault_min_sol_alert, vault_min_sol_circuit_breaker, vault_funding_rate_limit_per_hour,
      treasury_min_usdc_alert, treasury_float_per_token, treasury_sweep_dest,
    )

  unfoldable pub from_env : Option Config
  from_env = do
    url ← database_url
    (solana_rpc_url, solana_ws_url, program_id) ← solana_settings
    (jwt_secret, jwt_access_expiry_seconds, jwt_refresh_expiry_seconds) ← jwt_settings
    (encryption_key, encryption_index_key) ← encryption_settings
    (google_client_id, google_client_secret, microsoft_client_id, microsoft_client_secret) ←
        oauth_settings
    (resend_api_key, invite_expiry_seconds, invite_reminder_after_seconds) ← email_settings
    (platform_fee_usd_cents, platform_fee_free_tier, platform_nonrefundable_fee_cents) ←
        payment_settings
    (
      platform_vault_pubkey, platform_vault_keypair_path, platform_treasury_pubkey,
      platform_treasury_keypair_path,
    ) ←
        keypair_settings
    (
      vault_min_sol_alert, vault_min_sol_circuit_breaker, vault_funding_rate_limit_per_hour,
      treasury_min_usdc_alert, treasury_float_per_token, treasury_sweep_dest,
    ) ←
        threshold_settings
    registry ← stablecoin_registry
    pinata_jwt ← env "PINATA_JWT"
    server_port ← number u16_max "SERVER_PORT" "8080"
    some (record {
      database_url = url;
      solana_rpc_url = solana_rpc_url;
      solana_ws_url = solana_ws_url;
      program_id = program_id;
      jwt_secret = name jwt_secret;
      jwt_access_expiry_seconds = jwt_access_expiry_seconds;
      jwt_refresh_expiry_seconds = jwt_refresh_expiry_seconds;
      encryption_key = name encryption_key;
      encryption_index_key = name encryption_index_key;
      google_client_id = google_client_id;
      google_client_secret = google_client_secret;
      google_redirect_uri =
          var_or "GOOGLE_REDIRECT_URI" "https://api.pactum.app/auth/oauth/google/callback";
      microsoft_client_id = microsoft_client_id;
      microsoft_client_secret = microsoft_client_secret;
      microsoft_redirect_uri =
          var_or "MICROSOFT_REDIRECT_URI" "https://api.pactum.app/auth/oauth/microsoft/callback";
      microsoft_tenant = var_or "MICROSOFT_TENANT" "common";
      resend_api_key = resend_api_key;
      email_from = var_or "EMAIL_FROM" "noreply@pactum.app";
      invite_base_url = var_or "INVITE_BASE_URL" "https://app.pactum.app/invite";
      invite_expiry_seconds = invite_expiry_seconds;
      invite_reminder_after_seconds = invite_reminder_after_seconds;
      platform_fee_usd_cents = platform_fee_usd_cents;
      platform_fee_free_tier = platform_fee_free_tier;
      platform_nonrefundable_fee_cents = platform_nonrefundable_fee_cents;
      platform_vault_pubkey = platform_vault_pubkey;
      platform_vault_keypair_path = platform_vault_keypair_path;
      platform_treasury_pubkey = platform_treasury_pubkey;
      platform_treasury_keypair_path = platform_treasury_keypair_path;
      vault_min_sol_alert = vault_min_sol_alert;
      vault_min_sol_circuit_breaker = vault_min_sol_circuit_breaker;
      vault_funding_rate_limit_per_hour = vault_funding_rate_limit_per_hour;
      treasury_min_usdc_alert = treasury_min_usdc_alert;
      treasury_float_per_token = treasury_float_per_token;
      treasury_sweep_dest = name treasury_sweep_dest;
      stablecoin_registry = registry;
      pinata_jwt = pinata_jwt;
      pinata_gateway_domain = var_or "PINATA_GATEWAY_DOMAIN" "gateway.pinata.cloud";
      arweave_wallet_path = var_or "ARWEAVE_WALLET_PATH" "./arweave-wallet.json";
      server_port = server_port;
      server_host = var_or "SERVER_HOST" "0.0.0.0";
    })
