-- ===== src/State/Sample.antt =====
-- A small world on which the tests of the other modules run: no table has a row, every call
-- succeeds, and the schema is that of migrations/.
use pactum_codex.Base.{String, ◌+◌, true, false, some, [], ◌∷◌}
use pactum_codex.Config.{Config, StablecoinInfo}
use pactum_codex.State.Rows.{Db, Schema}
use pactum_codex.State.World.{World}

-- The columns of `agreement_payments` and `notification_queue`, and those NOT NULL with no default.
abbrev pub migrations : Schema
migrations = record {
  agreement_payments = record {
    columns =
        "id" ∷ "draft_id" ∷ "user_id" ∷ "method" ∷ "status" ∷ "usd_amount_cents"
        ∷ "token_reference_pubkey" ∷ "token_mint" ∷ "token_amount" ∷ "token_tx_signature"
        ∷ "token_source_ata" ∷ "refund_amount" ∷ "refund_usd_cents" ∷ "refund_tx_signature"
        ∷ "refund_initiated_at" ∷ "refund_completed_at" ∷ "created_at" ∷ "confirmed_at"
        ∷ "agreement_pda" ∷ [];
    required = "draft_id" ∷ "user_id" ∷ "method" ∷ "usd_amount_cents" ∷ [];
  };
  notification_queue = record {
    columns =
        "id" ∷ "event_type" ∷ "agreement_pda" ∷ "recipient_pubkey" ∷ "status" ∷ "attempts"
        ∷ "created_at" ∷ "scheduled_at" ∷ [];
    required = "event_type" ∷ "agreement_pda" ∷ "recipient_pubkey" ∷ [];
  };
}

abbrev pub empty_db : Db
empty_db = record {
  user_accounts = [];
  siws_nonces = [];
  refresh_tokens = [];
  auth_wallet = [];
  auth_oauth = [];
  user_contacts = [];
  agreement_drafts = [];
  party_invitations = [];
  agreement_payments = [];
  user_agreement_counts = [];
  agreement_parties = [];
  notification_queue = [];
  last_sweep_at = 0;
}

abbrev pub calm : World
calm = record {
  db = empty_db;
  schema = migrations;
  now = 1000000;
  faults = λ n. false;
  supply = λ n. n + 7000;
  rpc = λ n. some (n + 1);
  mail = λ n. true;
  process_health = 0;
  ws_channels = [];
  pushed = [];
  transfers = [];
  mailed = [];
}

abbrev pub coin : String → StablecoinInfo
coin name = record { symbol = name; mint = 11; ata = 12; decimals = 6 }

abbrev pub config : Config
config = record {
  database_url = [];
  solana_rpc_url = [];
  solana_ws_url = [];
  program_id = [];
  jwt_secret = 1;
  jwt_access_expiry_seconds = 900;
  jwt_refresh_expiry_seconds = 604800;
  encryption_key = 2;
  encryption_index_key = 3;
  google_client_id = [];
  google_client_secret = [];
  google_redirect_uri = [];
  microsoft_client_id = [];
  microsoft_client_secret = [];
  microsoft_redirect_uri = [];
  microsoft_tenant = [];
  resend_api_key = [];
  email_from = [];
  invite_base_url = [];
  invite_expiry_seconds = 604800;
  invite_reminder_after_seconds = 259200;
  platform_fee_usd_cents = 199;
  platform_fee_free_tier = 3;
  platform_nonrefundable_fee_cents = 10;
  platform_vault_pubkey = [];
  platform_vault_keypair_path = [];
  platform_treasury_pubkey = [];
  platform_treasury_keypair_path = [];
  vault_min_sol_alert = 500000000;
  vault_min_sol_circuit_breaker = 100000000;
  vault_funding_rate_limit_per_hour = 50;
  treasury_min_usdc_alert = 20000000;
  treasury_float_per_token = 50000000;
  treasury_sweep_dest = 99;
  stablecoin_registry = record { usdc = coin "usdc"; usdt = coin "usdt"; pyusd = coin "pyusd" };
  pinata_jwt = [];
  pinata_gateway_domain = [];
  arweave_wallet_path = [];
  server_port = 8080;
  server_host = [];
}
