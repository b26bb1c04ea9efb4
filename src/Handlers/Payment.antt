-- ===== src/Handlers/Payment.antt =====
-- Paying for a draft: src/handlers/payment.rs. The dollar amount, which the source gives as a float,
-- is in cents; `show` is the text of an identifier.
pub mod Amounts
pub mod FreeTier
pub mod Paid
mod Tests
use pactum_codex.Base.{
  ℕ, ◌+◌, ◌-◌, ◌*◌, ◌/◌, ◌^◌, Bool, true, false, ◌&&◌, ◌||◌, not, String, Option, none, some, List,
  [], ◌∷◌, ◌++◌, ◌==◌, ltb, leb, if◌then◌else◌, find, exists, update_where, unwrap_or, is_value,
  pos,
}
use mathlib.Core.Option
use pactum_codex.Error.{AppError}
use pactum_codex.Config.{Config, StablecoinInfo, resolve}
use pactum_codex.State.Rows.{
  Db, Draft, Payment, PaymentStatus, AgreementCount, Schema, accepts_insert,
}
use pactum_codex.State.World.{
  World, M, Void, ◌>>=◌, ◌>>◌, pure, throw, ok_or, guard, fresh, now, fetch, execute, execute_if,
  choose,
}
use pactum_codex.Handlers.Auth.{AuthUser, AuthUserWithWallet}
use pactum_codex.Services.SolanaPay.{codes, build_solana_pay_url}

pub record PendingPayment : Type 0 where
  pub method : String
  pub token_mint : ℕ
  pub treasury_ata : ℕ
  pub amount_units : ℕ
  pub usd_equivalent_cents : ℕ
  pub reference_pubkey : ℕ
  pub solana_pay_url : List ℕ

pub data InitiatePaymentResponse : Type 0 where
  free : InitiatePaymentResponse
  pending : PendingPayment → InitiatePaymentResponse

pub record PaymentStatusResponse : Type 0 where
  pub status : PaymentStatus
  pub method : String
  pub confirmed_at : Option ℕ

-- An `i64` product that overflows (a panic in a debug build, a wrapped value in a release build) is
-- none.
abbrev pub checked_i64 : ℕ → Option ℕ
checked_i64 n = if ltb n (2 ^ 63) then some n else none

unfoldable pub cents_to_token_units : ℕ → ℕ → Option ℕ
cents_to_token_units cents decimals = elim (checked_i64 (10 ^ decimals)) [
  | none ↦ none
  | some factor ↦ Option.map (λ product. product / 100) (checked_i64 (cents * factor))
]

-- `free_used < platform_fee_free_tier as i32`: from 2^31 on the cast is negative.
abbrev pub within_free_tier : ℕ → ℕ → Bool
within_free_tier free_used tier = ltb tier (2 ^ 31) && ltb free_used tier

abbrev pub has_draft_id : ℕ → Draft → Bool
has_draft_id id d = d.id == id

-- `SELECT creator_pubkey FROM agreement_drafts WHERE id = $1`
abbrev pub draft_creator : ℕ → Db → Option ℕ
draft_creator id db =
    Option.map (λ d. d.creator_pubkey) (find (has_draft_id id) db.agreement_drafts)

abbrev pub counts_user : ℕ → AgreementCount → Bool
counts_user user c = c.user_id == user

abbrev pub free_used_by : ℕ → Db → ℕ
free_used_by user db =
    unwrap_or (Option.map (λ c. c.free_used) (find (counts_user user) db.user_agreement_counts)) 0

-- `INSERT … (user_id, 1) ON CONFLICT (user_id) DO UPDATE SET free_used = free_used + 1`
abbrev pub bump_count : ℕ → List AgreementCount → List AgreementCount
bump_count user [] = record { user_id = user; free_used = 1 } ∷ []
bump_count user (c ∷ cs) =
    if counts_user user c
    then record c { free_used = c.free_used + 1 } ∷ cs
    else c ∷ bump_count user cs

-- The columns that the INSERT of a payment names.
abbrev pub payment_columns : List String
payment_columns =
    "id" ∷ "draft_id" ∷ "method" ∷ "creator_pubkey" ∷ "token_mint" ∷ "token_amount"
    ∷ "token_reference_pubkey" ∷ "treasury_ata" ∷ "status" ∷ []

-- The row that the INSERT is for. With the columns of the migrations the statement fails, and no row
-- is added.
abbrev pub new_payment : ℕ → ℕ → String → ℕ → ℕ → ℕ → ℕ → Payment
new_payment id draft_id method mint amount reference time = record {
  id = id;
  draft_id = draft_id;
  method = method;
  status = PaymentStatus.pending;
  token_reference_pubkey = some reference;
  token_mint = some mint;
  token_amount = some amount;
  token_tx_signature = none;
  refund_amount = none;
  refund_tx_signature = none;
  refund_initiated_at = none;
  refund_completed_at = none;
  created_at = time;
  confirmed_at = none;
  agreement_pda = none;
}

-- The row fits the columns of its table, and its id and its reference are not taken.
abbrev pub payment_fits : Payment → ℕ → World → Bool
payment_fits p reference w =
    accepts_insert w.schema.agreement_payments payment_columns
    && not (
        exists (λ q. q.id == p.id || is_value q.token_reference_pubkey reference)
          w.db.agreement_payments)

abbrev pub insert_payment : Payment → ℕ → M Void
insert_payment p reference =
    execute_if (payment_fits p reference)
      (λ db. record db { agreement_payments = db.agreement_payments ++ p ∷ [] })

-- The branch of the free tier: two statements, not in a transaction.
unfoldable pub use_free_tier : ℕ → ℕ → M InitiatePaymentResponse
use_free_tier user draft_id = do
  execute (λ db. record db {
    agreement_drafts =
        update_where (has_draft_id draft_id) (λ d. record d { paid = true }) db.agreement_drafts;
  })
  execute (λ db. record db { user_agreement_counts = bump_count user db.user_agreement_counts })
  pure free

module _ (show : ℕ → List ℕ) (config : Config) where
  -- The branch that asks for a payment. Where the amount overflows, the model answers with an error.
  unfoldable pub ask_payment : ℕ → String → M InitiatePaymentResponse
  ask_payment draft_id method = do
    token ← ok_or (resolve config.stablecoin_registry method) AppError.payment_method_unsupported
    reference ← fresh
    amount ←
        ok_or (cents_to_token_units config.platform_fee_usd_cents token.decimals)
          AppError.internal_error
    id ← fresh
    time ← now
    insert_payment (new_payment id draft_id method token.mint amount reference time) reference
    pure (
        pending (record {
          method = method;
          token_mint = token.mint;
          treasury_ata = token.ata;
          amount_units = amount;
          usd_equivalent_cents = config.platform_fee_usd_cents;
          reference_pubkey = reference;
          solana_pay_url =
              build_solana_pay_url (show token.ata) (pos amount) (show token.mint) (show reference)
                (codes "Pactum Pro") (show draft_id ++ codes "/1");
        }))

  unfoldable pub initiate_payment : AuthUserWithWallet → ℕ → String → M InitiatePaymentResponse
  initiate_payment auth draft_id method = do
    found ← fetch (draft_creator draft_id)
    creator ← ok_or found AppError.not_found
    guard (creator == auth.pubkey) AppError.unauthorized
    free_used ← fetch (free_used_by auth.user_id)
    choose (within_free_tier free_used config.platform_fee_free_tier)
        (use_free_tier auth.user_id draft_id) (ask_payment draft_id method)

-- `WHERE draft_id = $1 ORDER BY created_at DESC LIMIT 1`; among equals the first row.
abbrev pub newer : Payment → Option Payment → Option Payment
newer p none = some p
newer p (some q) = if leb q.created_at p.created_at then some p else some q

abbrev pub newest_for : ℕ → List Payment → Option Payment
newest_for draft_id [] = none
newest_for draft_id (p ∷ ps) =
    let later = newest_for draft_id ps in if p.draft_id == draft_id then newer p later else later

unfoldable pub payment_status : AuthUser → ℕ → M PaymentStatusResponse
payment_status auth draft_id = do
  found ← fetch (λ db. newest_for draft_id db.agreement_payments)
  p ← ok_or found AppError.not_found
  pure (record { status = p.status; method = p.method; confirmed_at = p.confirmed_at })
