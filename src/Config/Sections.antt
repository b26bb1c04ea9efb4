-- ===== src/Config/Sections.antt =====
-- What each section of the settings is sure of once it was read: src/config.rs.
use mathlib.Core.Path.{subst, sym}
use pactum_codex.Base.{
  ℕ, ◌+◌, ◌-◌, ◌*◌, ◌≤◌, ◌≡◌, ◌∙◌, refl, ap, arith, String, true, Option, none, some, List, [], ◌∷◌,
  ◌==◌, is_some, All, if◌then◌else◌, Bool-cases, Option-cases, inl, inr,
}
use mathlib.Core.List.{foldl}
use pactum_codex.Config.{StablecoinInfo, StablecoinRegistry}
use pactum_codex.Config.Environment.{
  Environment, ◌>>=◌, is_digit, scan, parse_uint, u32_max, u64_max, number, var_or, database_url,
  stablecoin, stablecoin_registry, solana_settings, jwt_settings, encryption_settings,
  oauth_settings, email_settings, payment_settings, keypair_settings, threshold_settings,
}

-- The property of a value that is there.
abbrev pub OnSome : {A : Type 0} → Option A → (A → Type 0) → Type 0
OnSome none P = Unit
OnSome (some a) P = P a

pub OnSome-bind :
    {A B : Type 0} (m : Option A) (f : A → Option B) (P : B → Type 0)
    → ((a : A) → m ≡ some a → OnSome (f a) P)
    → OnSome (m >>= f) P
OnSome-bind none f P h = tt
OnSome-bind (some a) f P h = h a refl

IsGiven : Option (List ℕ) → Type 0
IsGiven o = is_some o ≡ true

-- The number that digits spell after `n`.
abbrev pub value : ℕ → List ℕ → ℕ
value = foldl (λ n c. n * 10 + (c - b'0'))

scan_sound :
    (max : ℕ) (s : List ℕ) (n r : ℕ)
    → n ≤ max
    → scan max s n ≡ some r
    → All (λ c. is_digit c ≡ true) s × (r ≡ value n s) × (r ≤ max)
unfolding scan
scan_sound max [] n r fits h = ground arith
scan_sound max (c ∷ s) n r fits h = ground (arith, scan_sound max s (n * 10 + (c - b'0')) r)

pub parse_uint-le : (max : ℕ) (s : List ℕ) (n : ℕ) → parse_uint max s ≡ some n → n ≤ max
unfolding parse_uint
parse_uint-le max [] n h = cc
parse_uint-le max (c ∷ []) n h = (scan_sound max (c ∷ []) 0 n (omega arith) h).2
parse_uint-le max (c ∷ d ∷ cs) n h = elim (Bool-cases (c == b'+')) [
  | inl plus ↦
      (scan_sound max (d ∷ cs) 0 n (omega arith)
        (sym (ap (λ b. if b then scan max (d ∷ cs) 0 else scan max (c ∷ d ∷ cs) 0) plus) ∙ h)).2
  | inr digit ↦
      (scan_sound max (c ∷ d ∷ cs) 0 n (omega arith)
        (sym (ap (λ b. if b then scan max (d ∷ cs) 0 else scan max (c ∷ d ∷ cs) 0) digit) ∙ h)).2
]

pub read_as : {A : Type 0} (m : Option A) (P : A → Type 0) (a : A) → OnSome m P → m ≡ some a → P a
read_as m P a h e = subst (λ o. OnSome o P) e h

module _ (name : List ℕ → ℕ) (parse_sol : List ℕ → Option ℕ) (files : List ℕ → Option (List ℕ))
    (env : Environment) where
  pub database_url-set :
      (url : List ℕ)
      → database_url name parse_sol files env ≡ some url
      → is_some (env "DATABASE_URL") ≡ true
  unfolding database_url
  database_url-set url e = elim (Option-cases (env "DATABASE_URL")) [
    | inl absent ↦ absurd (ground arith)
    | inr (base_url, there) ↦ ap is_some there
  ]

  stablecoin-set :
      (symbol mint_variable mint ata_variable : String) (c : StablecoinInfo)
      → stablecoin name parse_sol files env symbol mint_variable mint ata_variable ≡ some c
      → is_some (env ata_variable) ≡ true
  unfolding stablecoin
  stablecoin-set symbol mint_variable mint ata_variable c e =
      elim (Option-cases (env ata_variable)) [
        | inl absent ↦ absurd (ground arith)
        | inr (ata, there) ↦ ap is_some there
      ]

  some-bind :
      {A B : Type 0} (m : Option A) (f : A → Option B) (b : B)
      → (m >>= f) ≡ some b
      → (a : A) × (m ≡ some a) × (f a ≡ some b)
  some-bind none f b e = cc
  some-bind (some a) f b e = (a, refl, e)

  pub stablecoin_registry-set :
      (r : StablecoinRegistry)
      → stablecoin_registry name parse_sol files env ≡ some r
      → (is_some (env "STABLECOIN_USDC_ATA") ≡ true)
        × (is_some (env "STABLECOIN_USDT_ATA") ≡ true)
        × (is_some (env "STABLECOIN_PYUSD_ATA") ≡ true)
  unfolding stablecoin_registry
  stablecoin_registry-set r e =
      let (usdc, e₁, rest₁) = some-bind _ _ r e in
      let (usdt, e₂, rest₂) = some-bind _ _ r rest₁ in
      let (pyusd, e₃, rest₃) = some-bind _ _ r rest₂ in
      (
        stablecoin-set _ _ _ _ usdc e₁,
        stablecoin-set _ _ _ _ usdt e₂,
        stablecoin-set _ _ _ _ pyusd e₃,
      )

  abbrev pub num : ℕ → String → String → Option ℕ
  num = number name parse_sol files env

  abbrev pub IsThere : String → Type 0
  IsThere v = is_some (env v) ≡ true

  pub solana_settings-set :
      OnSome
        (solana_settings name parse_sol files env)
        (λ t. IsThere "SOLANA_RPC_URL" × IsThere "SOLANA_WS_URL" × IsThere "PROGRAM_ID")
  solana_settings-set = OnSome-bind (env "SOLANA_RPC_URL") _ _ λ a0 e0.
      OnSome-bind (env "SOLANA_WS_URL") _ _ λ a1 e1.
        OnSome-bind (env "PROGRAM_ID") _ _ λ a2 e2. (ap is_some e0, ap is_some e1, ap is_some e2)

  pub jwt_settings-set :
      OnSome
        (jwt_settings name parse_sol files env)
        (λ t. IsThere "JWT_SECRET" × (t.1 ≤ u64_max) × (t.2 ≤ u64_max))
  jwt_settings-set = OnSome-bind (env "JWT_SECRET") _ _ λ a0 e0.
      OnSome-bind (num u64_max "JWT_ACCESS_EXPIRY_SECONDS" "900") _ _ λ a1 e1.
        OnSome-bind (num u64_max "JWT_REFRESH_EXPIRY_SECONDS" "604800") _ _
          λ a2 e2. (ap is_some e0, parse_uint-le u64_max _ a1 e1, parse_uint-le u64_max _ a2 e2)

  pub encryption_settings-set :
      OnSome
        (encryption_settings name parse_sol files env)
        (λ t. IsThere "ENCRYPTION_KEY" × IsThere "ENCRYPTION_INDEX_KEY")
  encryption_settings-set =
      OnSome-bind (env "ENCRYPTION_KEY") _ _ λ a0 e0.
        OnSome-bind (env "ENCRYPTION_INDEX_KEY") _ _ λ a1 e1. (ap is_some e0, ap is_some e1)

  pub oauth_settings-set : OnSome (oauth_settings name parse_sol files env) (λ t.
      IsThere "GOOGLE_CLIENT_ID"
      × IsThere "GOOGLE_CLIENT_SECRET"
      × IsThere "MICROSOFT_CLIENT_ID"
      × IsThere "MICROSOFT_CLIENT_SECRET")
  oauth_settings-set = OnSome-bind (env "GOOGLE_CLIENT_ID") _ _ λ a0 e0.
      OnSome-bind (env "GOOGLE_CLIENT_SECRET") _ _ λ a1 e1.
        OnSome-bind (env "MICROSOFT_CLIENT_ID") _ _ λ a2 e2.
          OnSome-bind (env "MICROSOFT_CLIENT_SECRET") _ _
            λ a3 e3. (ap is_some e0, ap is_some e1, ap is_some e2, ap is_some e3)

  pub email_settings-set :
      OnSome
        (email_settings name parse_sol files env)
        (λ t. IsThere "RESEND_API_KEY" × (t.1 ≤ u64_max) × (t.2 ≤ u64_max))
  email_settings-set = OnSome-bind (env "RESEND_API_KEY") _ _ λ a0 e0.
      OnSome-bind (num u64_max "INVITE_EXPIRY_SECONDS" "604800") _ _ λ a1 e1.
        OnSome-bind (num u64_max "INVITE_REMINDER_AFTER_SECONDS" "259200") _ _
          λ a2 e2. (ap is_some e0, parse_uint-le u64_max _ a1 e1, parse_uint-le u64_max _ a2 e2)

  pub payment_settings-set :
      OnSome
        (payment_settings name parse_sol files env)
        (λ t. (t.0 ≤ u32_max) × (t.1 ≤ u32_max) × (t.2 ≤ u32_max))
  payment_settings-set = OnSome-bind (num u32_max "PLATFORM_FEE_USD_CENTS" "199") _ _ λ a0 e0.
      OnSome-bind (num u32_max "PLATFORM_FEE_FREE_TIER" "3") _ _ λ a1 e1.
        OnSome-bind (num u32_max "PLATFORM_NONREFUNDABLE_FEE_CENTS" "10") _ _ λ a2 e2. (
          parse_uint-le u32_max _ a0 e0,
          parse_uint-le u32_max _ a1 e1,
          parse_uint-le u32_max _ a2 e2,
        )

  pub keypair_settings-set : OnSome (keypair_settings name parse_sol files env) (λ t.
      IsThere "PLATFORM_VAULT_PUBKEY"
      × IsThere "PLATFORM_VAULT_KEYPAIR_PATH"
      × IsThere "PLATFORM_TREASURY_PUBKEY"
      × IsThere "PLATFORM_TREASURY_KEYPAIR_PATH")
  keypair_settings-set = OnSome-bind (env "PLATFORM_VAULT_PUBKEY") _ _ λ a0 e0.
      OnSome-bind (env "PLATFORM_VAULT_KEYPAIR_PATH") _ _ λ a1 e1.
        OnSome-bind (env "PLATFORM_TREASURY_PUBKEY") _ _ λ a2 e2.
          OnSome-bind (env "PLATFORM_TREASURY_KEYPAIR_PATH") _ _
            λ a3 e3. (ap is_some e0, ap is_some e1, ap is_some e2, ap is_some e3)

  pub threshold_settings-set :
      OnSome
        (threshold_settings name parse_sol files env)
        (λ t. (t.2 ≤ u32_max) × (t.3 ≤ u64_max) × (t.4 ≤ u64_max) × IsThere "TREASURY_SWEEP_DEST")
  threshold_settings-set =
      OnSome-bind (parse_sol (var_or name parse_sol files env "VAULT_MIN_SOL_ALERT" "0.5")) _ _
        λ a0 e0.
          OnSome-bind
            (parse_sol (var_or name parse_sol files env "VAULT_MIN_SOL_CIRCUIT_BREAKER" "0.1")) _ _
            λ a1 e1. OnSome-bind (num u32_max "VAULT_FUNDING_RATE_LIMIT_PER_HOUR" "50") _ _ λ a2 e2.
              OnSome-bind (num u64_max "TREASURY_MIN_USDC_ALERT" "20000000") _ _ λ a3 e3.
                OnSome-bind (num u64_max "TREASURY_FLOAT_PER_TOKEN" "50000000") _ _ λ a4 e4.
                  OnSome-bind (env "TREASURY_SWEEP_DEST") _ _ λ a5 e5. (
                    parse_uint-le u32_max _ a2 e2,
                    parse_uint-le u64_max _ a3 e3,
                    parse_uint-le u64_max _ a4 e4,
                    ap is_some e5,
                  )
