-- ===== src/Services/Refund.antt =====
-- Refunds: src/services/refund.rs. The associated token account of an owner and a mint is derived by
-- the SPL library, and a parameter; the reply 0 to the check of an account says that there is none.
pub mod Executed
pub mod Amount
mod Tests
use pactum_codex.Base.{
  ℕ, ◌-◌, ◌*◌, ◌/◌, ◌%◌, ◌^◌, ◌||◌, not, ◌∷◌, ◌==◌, Option, none, some, head, rest, if◌then◌else◌,
}
use pactum_codex.Error.{AppError}
use pactum_codex.State.World.{
  World, Transfer, M, ok, err, ◌>>=◌, ◌>>◌, pure, ok_or, guard, call_rpc,
}
use pactum_codex.Handlers.Auth.{SolanaSdk}

-- The product of `u64`s wraps in a release build.
unfoldable pub calculate_refund_amount : ℕ → ℕ → ℕ → ℕ
calculate_refund_amount paid_units nonrefundable_cents total_fee_cents =
    if total_fee_cents == 0 || paid_units == 0
    then 0
    else paid_units * (total_fee_cents - nonrefundable_cents) % 2 ^ 64 / total_fee_cents

-- `SendTransaction`: the node accepts the transaction and replies with its signature, or fails. No
-- confirmation is awaited.
unfoldable pub send_transaction : Transfer → M ℕ
send_transaction t w =
    let w' = record w { rpc = rest w.rpc } in
    elim (head w.rpc) [
      | none ↦ (err AppError.solana_rpc_error, w')
      | some signature ↦ (ok signature, record w' { transfers = t ∷ w.transfers })
    ]

module _ (sdk : SolanaSdk) (associated_token_address : ℕ → ℕ → ℕ) where
  unfoldable pub execute_refund : ℕ → ℕ → ℕ → M ℕ
  execute_refund creator_pubkey_str token_mint_str amount = do
    creator_pubkey ← ok_or (sdk.parse_pubkey creator_pubkey_str) AppError.internal_error
    token_mint ← ok_or (sdk.parse_pubkey token_mint_str) AppError.internal_error
    destination ← call_rpc AppError.solana_rpc_error
    guard (not (destination == 0)) AppError.not_found
    recent_blockhash ← call_rpc AppError.solana_rpc_error
    send_transaction (record {
      to = associated_token_address creator_pubkey token_mint;
      mint = token_mint;
      amount = amount;
      recent_blockhash = recent_blockhash;
    })
