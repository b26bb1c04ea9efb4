-- ===== src/Handlers/Draft/Tests.antt =====
-- Submissions on a small world.
use pactum_codex.Base.{ℕ, zero, suc, ◌≡◌, refl, true, some, Option, List, [], ◌∷◌, find, pos}
use pactum_codex.State.World.{World, Finds, ok}
use pactum_codex.State.Sample.{calm}
use pactum_codex.Services.SolanaPay.{codes}
use pactum_codex.Services.Solana.{
  Seed, StorageBackend, create_agreement, create_agreement_accounts, build_create_agreement_tx,
  calculate_vault_deposit,
}
use pactum_codex.Handlers.Auth.{AuthUserWithWallet, SolanaSdk}
use pactum_codex.Handlers.Payment.{has_draft_id}
use pactum_codex.Handlers.Draft.Submit.{
  SubmitDraftRequest, SubmitDraftResponse, submit_draft, draft_transaction, record_agreement,
  evaluate_submit_gates, validate_content_hash, parse_storage_backend, is_ready, has_contact_email,
  resolved_keys,
}
use pactum_codex.Handlers.Draft.Submitted.{parties_of, submit_draft-gated, submit_draft_stale}
use pactum_codex.Handlers.Ws.{send_to_user}
use pactum_codex.Services.Notification.{enqueue_notification}
use pactum_codex.Handlers.Invite.{
  accept_invite, accept_statements, announce_ready, resolve_party_slot_pubkey,
}
use pactum_codex.Handlers.Invite.Tests.{joiner, joined, open_world}

abbrev pub sdk : SolanaSdk
sdk = record { parse_pubkey = λ k. some k; parse_signature = λ s. some s; verify = λ s k n. true }

abbrev pub address : List Seed → ℕ
address seeds = 500

abbrev zeros : ℕ → List ℕ
zeros zero = []
zeros (suc n) = b'0' ∷ zeros n

abbrev bytes : ℕ → List ℕ
bytes zero = []
bytes (suc n) = 0 ∷ bytes n

abbrev pub decode : List ℕ → Option (List ℕ)
decode text = some (bytes 32)

abbrev pub creator : AuthUserWithWallet
creator = record { user_id = 8; pubkey = 5 }

abbrev pub request : SubmitDraftRequest
request = record {
  content_hash = zeros 64;
  storage_uri = "ipfs://lease";
  storage_backend = codes "IPFS";
}

-- The world after the wallet 6 has joined.
abbrev pub complete : World
complete = record calm { db = (accept_invite joiner 71 open_world).1.db }

-- The transaction names the wallet 5 alone.
abbrev answer : SubmitDraftResponse
answer = record {
  transaction = record {
    data_ = create_agreement (record {
      agreement_id = 7000;
      title = "Lease";
      content_hash = bytes 32;
      storage_uri = "ipfs://lease";
      storage_backend = StorageBackend.ipfs;
      parties = 5 ∷ [];
      expires_in_secs = pos 900000;
    });
    accounts = create_agreement_accounts address 77 5 7000;
    payer = 77;
    signed_by = 77 ∷ [];
    recent_blockhash = 2;
  };
  agreement_pda = 500;
}

submitted : (submit_draft sdk address decode 77 creator 31 request complete).0 ≡ ok answer
unfolding submit_draft draft_transaction build_create_agreement_tx calculate_vault_deposit
    evaluate_submit_gates validate_content_hash parse_storage_backend record_agreement accept_invite
    accept_statements announce_ready resolve_party_slot_pubkey send_to_user enqueue_notification
submitted = refl

submit_draft-gated_example : Finds (find (has_draft_id 31) complete.db.agreement_drafts) (λ d.
    (d.creator_pubkey ≡ 5)
    × (d.paid ≡ true)
    × (is_ready d.status ≡ true)
    × (has_contact_email 8 complete.db ≡ true)
    × (parties_of answer.transaction ≡ resolved_keys sdk.parse_pubkey d.draft_payload.parties))
submit_draft-gated_example =
    submit_draft-gated sdk address decode 77 creator 31 request complete answer submitted

submit_draft_stale_example :
    Finds
      (find (has_draft_id 31) open_world.db.agreement_drafts)
      (λ d. parties_of answer.transaction ≡ resolved_keys sdk.parse_pubkey d.draft_payload.parties)
submit_draft_stale_example =
    submit_draft_stale sdk address decode 77 joiner 71 open_world joined creator 31 request complete
      answer refl submitted
