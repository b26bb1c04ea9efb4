-- ===== src/Config.antt =====
-- The settings of the process: src/config.rs. Thresholds in SOL, which the source
-- holds as floats, are in lamports. A key in hexadecimal text is a number, and its decoding a
-- parameter of the code that decodes it.
pub mod Environment
pub mod Sections
pub mod Started
pub mod Password
pub mod Tests
use pactum_codex.Base.{ℕ, String, List, Option, none, some, if◌then◌else◌}
use text.Mathlib.Text.{◌==◌ as str_eq}

pub record StablecoinInfo : Type 0 where
  pub symbol : String
  pub mint : ℕ
  pub ata : ℕ
  pub decimals : ℕ

pub record StablecoinRegistry : Type 0 where
  pub usdc : StablecoinInfo
  pub usdt : StablecoinInfo
  pub pyusd : StablecoinInfo

-- `StablecoinRegistry::resolve`
unfoldable pub resolve : StablecoinRegistry → String → Option StablecoinInfo
resolve r method =
    if str_eq method "usdc"
    then some r.usdc
    else if str_eq method "usdt"
    then some r.usdt
    else if str_eq method "pyusd"
    then some r.pyusd
    else none

-- A text that the model only compares and copies is a number; the others are lists of characters.
pub record Config : Type 0 where
  pub database_url : List ℕ
  pub solana_rpc_url : List ℕ
  pub solana_ws_url : List ℕ
  pub program_id : List ℕ
  pub jwt_secret : ℕ
  pub jwt_access_expiry_seconds : ℕ
  pub jwt_refresh_expiry_seconds : ℕ
  pub encryption_key : ℕ
  pub encryption_index_key : ℕ
  pub google_client_id : List ℕ
  pub google_client_secret : List ℕ
  pub google_redirect_uri : List ℕ
  pub microsoft_client_id : List ℕ
  pub microsoft_client_secret : List ℕ
  pub microsoft_redirect_uri : List ℕ
  pub microsoft_tenant : List ℕ
  pub resend_api_key : List ℕ
  pub email_from : List ℕ
  pub invite_base_url : List ℕ
  pub invite_expiry_seconds : ℕ
  pub invite_reminder_after_seconds : ℕ
  pub platform_fee_usd_cents : ℕ
  pub platform_fee_free_tier : ℕ
  pub platform_nonrefundable_fee_cents : ℕ
  pub platform_vault_pubkey : List ℕ
  pub platform_vault_keypair_path : List ℕ
  pub platform_treasury_pubkey : List ℕ
  pub platform_treasury_keypair_path : List ℕ
  pub vault_min_sol_alert : ℕ
  pub vault_min_sol_circuit_breaker : ℕ
  pub vault_funding_rate_limit_per_hour : ℕ
  pub treasury_min_usdc_alert : ℕ
  pub treasury_float_per_token : ℕ
  pub treasury_sweep_dest : ℕ
  pub stablecoin_registry : StablecoinRegistry
  pub pinata_jwt : List ℕ
  pub pinata_gateway_domain : List ℕ
  pub arweave_wallet_path : List ℕ
  pub server_port : ℕ
  pub server_host : List ℕ
