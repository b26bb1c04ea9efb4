-- ===== src/Handlers/Agreement/OnchainTests.antt =====
-- The handlers for an agreement that is on chain, on a small world.
use pactum_codex.Base.{String, Option, ℕ, ◌≡◌, some, none, List, [], ◌∷◌, true}
use pactum_codex.State.Sample.{calm}
use pactum_codex.State.World.{World, OnOk}
use pactum_codex.Handlers.Auth.{SolanaSdk, AuthUser, AuthUserWithWallet}
use pactum_codex.Services.Solana.{Seed, StorageBackend, AgreementStatus, AgreementStateWire}
use pactum_codex.Workers.EventListener.{new_party}
use pactum_codex.Handlers.Agreement.Onchain.{
  AccountReader, sign_agreement, cancel_agreement, vote_revoke,
}
use pactum_codex.Handlers.Agreement.Gated.{Reads, Signs, Cancels, Votes, sign_cancel_vote_gated}
use pactum_codex.Handlers.Agreement.Listing.{ListAgreementsQuery, list_agreements}
use pactum_codex.Handlers.Agreement.Listed.{Lists, list_agreements-Lists}

abbrev sdk : SolanaSdk
sdk = record { parse_pubkey = λ k. some k; parse_signature = λ s. some s; verify = λ s k n. true }

abbrev signed_once : AgreementStateWire
signed_once = record {
  creator = 5;
  agreement_id = 70;
  title = "Lease";
  storage_uri = "ipfs://x";
  storage_backend = StorageBackend.ipfs;
  parties = 5 ∷ 6 ∷ [];
  signed_by = 5 ∷ [];
  status = AgreementStatus.pending_signatures;
  created_at = 1;
  expires_at = 2;
  nft_asset = some 44;
  vault_funder = 9;
}

abbrev reader : AccountReader
reader = record {
  data_of = λ k. 1 ∷ 2 ∷ 3 ∷ 4 ∷ 5 ∷ 6 ∷ 7 ∷ 8 ∷ [];
  try_from_slice = λ b. some signed_once;
}

abbrev pda_of : List Seed → ℕ
pda_of seeds = 300

abbrev caller : AuthUserWithWallet
caller = record { user_id = 1; pubkey = 6 }

abbrev meta : Option String
meta = some "ipfs://meta"

sign_cancel_vote_gated_example :
    let (signed, w₁) = sign_agreement sdk reader pda_of 8 9 caller 300 meta calm in
    let (cancelled, w₂) = cancel_agreement sdk reader pda_of 8 9 caller 300 calm in
    let (voted, w₃) = vote_revoke sdk reader pda_of 8 9 caller 300 calm in
    OnOk signed (λ x. Reads sdk reader 6 calm (Signs pda_of 8 meta x))
    × OnOk cancelled (λ x. Reads sdk reader 6 calm (Cancels pda_of x.0))
    × OnOk voted (λ x. Reads sdk reader 6 calm (Votes pda_of x.0))
    × ((w₁.db ≡ calm.db) × (w₂.db ≡ calm.db) × (w₃.db ≡ calm.db))
sign_cancel_vote_gated_example = sign_cancel_vote_gated sdk reader pda_of 8 9 caller 300 meta calm

abbrev listed : World
listed = record calm {
  db = record calm.db { agreement_parties = new_party 6 900 5 1 ∷ new_party 7 901 8 2 ∷ [] };
}

abbrev mine : AuthUser
mine = record { user_id = 1; pubkey = some 6 }

abbrev query : ListAgreementsQuery
query = record { status = none; role = none; page = none; limit = some 500 }

list_agreements-Lists_example : OnOk (list_agreements mine query listed).0 (Lists (some 6) query)
list_agreements-Lists_example = list_agreements-Lists mine query listed
