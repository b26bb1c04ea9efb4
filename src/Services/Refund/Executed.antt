-- ===== src/Services/Refund/Executed.antt =====
-- What a refund submits: `execute_refund` of src/services/refund.rs.
use pactum_codex.Base.{ℕ, ◌≡◌, arith, ◌∷◌, ◌==◌, false}
use pactum_codex.State.World.{World, Result, ok, err, Finds}
use pactum_codex.Handlers.Auth.{SolanaSdk}
use pactum_codex.Services.Refund.{execute_refund, send_transaction}

-- What a result says of the submissions before and after.
abbrev pub Executes : SolanaSdk → (ℕ → ℕ → ℕ) → ℕ → ℕ → ℕ → World → World → Result ℕ → Type 0
Executes sdk associated_token_address creator mint amount w w' (err e) = w'.transfers ≡ w.transfers
Executes sdk associated_token_address creator mint amount w w' (ok signature) =
    Finds (sdk.parse_pubkey creator) (λ c. Finds (sdk.parse_pubkey mint) (λ m.
      Finds (w.rpc 0) (λ account.
        ((account == 0) ≡ false)
        × Finds (w.rpc 1) (λ blockhash.
          w'.transfers
          ≡ record {
            to = associated_token_address c m;
            mint = m;
            amount = amount;
            recent_blockhash = blockhash;
          }
            ∷ w.transfers))))

-- A refund submits one transaction or none. One that succeeds has submitted a transfer of the amount
-- that was asked for, in the mint and to the creator's account of that mint, which exists, under the
-- blockhash that the node gave, and nothing else; one that fails has submitted nothing that the node
-- accepted. No table changes.
pub execute_refund-Executes :
    (sdk : SolanaSdk) (associated_token_address : ℕ → ℕ → ℕ) (creator mint amount : ℕ) (w : World)
    → let (r, w') = execute_refund sdk associated_token_address creator mint amount w in
      Executes sdk associated_token_address creator mint amount w w' r × (w'.db ≡ w.db)
unfolding execute_refund send_transaction
execute_refund-Executes sdk ata creator mint amount w = (ground arith, ground arith)
