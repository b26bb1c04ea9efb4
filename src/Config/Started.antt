-- ===== src/Config/Started.antt =====
-- What a process that has started was given: `Config::from_env` of src/config.rs.
use pactum_codex.Base.{ℕ, ◌≤◌, ◌≡◌, ap, String, true, Option, List, [], ◌∷◌, is_some, All}
use pactum_codex.Config.{Config}
use pactum_codex.Config.Environment.{
  Environment, u16_max, u32_max, u64_max, database_url, stablecoin_registry, from_env,
  solana_settings, jwt_settings, encryption_settings, oauth_settings, email_settings,
  payment_settings, keypair_settings, threshold_settings,
}
use pactum_codex.Config.Sections.{
  OnSome, OnSome-bind, parse_uint-le, read_as, num, database_url-set, stablecoin_registry-set,
  solana_settings-set, jwt_settings-set, encryption_settings-set, oauth_settings-set,
  email_settings-set, payment_settings-set, keypair_settings-set, threshold_settings-set,
}

-- The variables that have no default.
abbrev pub required_variables : List String
required_variables =
    "DATABASE_URL" ∷ "SOLANA_RPC_URL" ∷ "SOLANA_WS_URL" ∷ "PROGRAM_ID" ∷ "JWT_SECRET"
    ∷ "ENCRYPTION_KEY" ∷ "ENCRYPTION_INDEX_KEY" ∷ "GOOGLE_CLIENT_ID" ∷ "GOOGLE_CLIENT_SECRET"
    ∷ "MICROSOFT_CLIENT_ID" ∷ "MICROSOFT_CLIENT_SECRET" ∷ "RESEND_API_KEY" ∷ "PLATFORM_VAULT_PUBKEY"
    ∷ "PLATFORM_VAULT_KEYPAIR_PATH" ∷ "PLATFORM_TREASURY_PUBKEY" ∷ "PLATFORM_TREASURY_KEYPAIR_PATH"
    ∷ "TREASURY_SWEEP_DEST" ∷ "STABLECOIN_USDC_ATA" ∷ "STABLECOIN_USDT_ATA" ∷ "STABLECOIN_PYUSD_ATA"
    ∷ "PINATA_JWT" ∷ []

-- What the settings of a process are sure of: the required variables are set, and the numbers fit
-- the types of the source.
pub record IsStarted (env : Environment) (c : Config) : Type 0 where
  pub required : All (λ v. is_some (env v) ≡ true) required_variables
  pub lifetimes : (c.jwt_access_expiry_seconds ≤ u64_max) × (c.invite_expiry_seconds ≤ u64_max)
  pub fees :
      (c.platform_fee_usd_cents ≤ u32_max)
      × (c.platform_fee_free_tier ≤ u32_max)
      × (c.platform_nonrefundable_fee_cents ≤ u32_max)
  pub float : c.treasury_float_per_token ≤ u64_max
  pub port : c.server_port ≤ u16_max

-- A conjunction, written without brackets.
infixr 4 ◌⨾◌
abbrev ◌⨾◌ : {A B : Type 0} → A → B → A × B
a ⨾ b = (a, b)

module _ (name : List ℕ → ℕ) (parse_sol : List ℕ → Option ℕ) (files : List ℕ → Option (List ℕ))
    (env : Environment) where
  -- A process whose settings were read has every required variable set, and every number in the
  -- range of its type: a variable that is missing, or that is no number in range, ends the start-up.
  pub from_env-IsStarted : OnSome (from_env name parse_sol files env) (IsStarted env)
  unfolding from_env
  from_env-IsStarted = OnSome-bind (database_url name parse_sol files env) _ _ λ url e.
      OnSome-bind (solana_settings name parse_sol files env) _ _ λ sol_t sol_e.
        OnSome-bind (jwt_settings name parse_sol files env) _ _ λ jwt_t jwt_e.
          OnSome-bind (encryption_settings name parse_sol files env) _ _ λ enc_t enc_e.
            OnSome-bind (oauth_settings name parse_sol files env) _ _ λ oau_t oau_e.
              OnSome-bind (email_settings name parse_sol files env) _ _ λ ema_t ema_e.
                OnSome-bind (payment_settings name parse_sol files env) _ _ λ pay_t pay_e.
                  OnSome-bind (keypair_settings name parse_sol files env) _ _ λ key_t key_e.
                    OnSome-bind (threshold_settings name parse_sol files env) _ _ λ thr_t thr_e.
                      OnSome-bind (stablecoin_registry name parse_sol files env) _ _
                        λ coins coins_e. OnSome-bind (env "PINATA_JWT") _ _ λ pinata pinata_e.
                          OnSome-bind (num name parse_sol files env u16_max "SERVER_PORT" "8080") _
                            _
                            λ port port_e.
                              let sol =
                                read_as _ _ sol_t (solana_settings-set name parse_sol files env)
                                  sol_e in
                              let jwt =
                                read_as _ _ jwt_t (jwt_settings-set name parse_sol files env)
                                  jwt_e in
                              let enc =
                                read_as _ _ enc_t (encryption_settings-set name parse_sol files env)
                                  enc_e in
                              let oau =
                                read_as _ _ oau_t (oauth_settings-set name parse_sol files env)
                                  oau_e in
                              let ema =
                                read_as _ _ ema_t (email_settings-set name parse_sol files env)
                                  ema_e in
                              let pay =
                                read_as _ _ pay_t (payment_settings-set name parse_sol files env)
                                  pay_e in
                              let key =
                                read_as _ _ key_t (keypair_settings-set name parse_sol files env)
                                  key_e in
                              let thr =
                                read_as _ _ thr_t (threshold_settings-set name parse_sol files env)
                                  thr_e in
                              let coin =
                                stablecoin_registry-set name parse_sol files env coins coins_e in
                              record {
                                required =
                                    database_url-set name parse_sol files env url e
                                    ⨾ sol.0
                                    ⨾ sol.1
                                    ⨾ sol.2
                                    ⨾ jwt.0
                                    ⨾ enc.0
                                    ⨾ enc.1
                                    ⨾ oau.0
                                    ⨾ oau.1
                                    ⨾ oau.2
                                    ⨾ oau.3
                                    ⨾ ema.0
                                    ⨾ key.0
                                    ⨾ key.1
                                    ⨾ key.2
                                    ⨾ key.3
                                    ⨾ thr.3
                                    ⨾ coin.0
                                    ⨾ coin.1
                                    ⨾ coin.2
                                    ⨾ ap is_some pinata_e
                                    ⨾ tt;
                                lifetimes = (jwt.1, ema.1);
                                fees = (pay.0, pay.1, pay.2);
                                float = thr.2;
                                port = parse_uint-le u16_max _ port port_e;
                              }
