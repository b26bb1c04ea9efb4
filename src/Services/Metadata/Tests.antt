-- ===== src/Services/Metadata/Tests.antt =====
-- A document that was stored with Pinata under the identifier `c`, and its agreement.
use pactum_codex.Base.{ℕ, ◌≡◌, ◌⊎◌, refl, none, some, [], ◌∷◌}
use pactum_codex.State.World.{ok}
use pactum_codex.State.Sample.{config}
use pactum_codex.Services.SolanaPay.{codes}
use pactum_codex.Services.Solana.{AgreementStateWire, AgreementStatus, StorageBackend}
use pactum_codex.Services.Storage.{Network, Reply, post_ipfs, upload_to_ipfs, upload_document}
use pactum_codex.Services.Metadata.{build_metadata_json}
use pactum_codex.Services.Metadata.Link.{HasScheme, build_metadata_json-upload_document}

abbrev pinata : Network
pinata = record {
  Json = ℕ;
  from_str = λ s. some 1;
  get = λ k n. some n;
  as_str = λ n. some (codes "c");
  pinata = λ t b. Reply.replied 200 "" "";
  arweave = λ j b. Reply.unreachable "";
  file = λ p. none;
}

abbrev agreement : AgreementStateWire
agreement = record {
  creator = 5;
  agreement_id = 9;
  title = "Lease";
  storage_uri = "ipfs://c";
  storage_backend = StorageBackend.ipfs;
  parties = 5 ∷ 6 ∷ [];
  signed_by = 5 ∷ [];
  status = AgreementStatus.pending_signatures;
  created_at = 1000;
  expires_at = 2000;
  nft_asset = none;
  vault_funder = 4;
}

stored : upload_document pinata (codes "ipfs") (1 ∷ []) config ≡ ok (codes "ipfs://c")
unfolding upload_document upload_to_ipfs post_ipfs
stored = refl

build_metadata_json-upload_document_example :
    let link =
      (build_metadata_json (λ id. codes "00000009") agreement (codes "pda")).animation_url in
    HasScheme (codes "ar://ipfs://") link ⊎ HasScheme (codes "ar://ar://") link
build_metadata_json-upload_document_example =
    build_metadata_json-upload_document pinata (1 ∷ []) config (λ id. codes "00000009") agreement
      (codes "pda") (codes "ipfs") stored

link_of :
    (build_metadata_json (λ id. codes "00000009") agreement (codes "pda")).animation_url
    ≡ codes "ar://ipfs://c"
unfolding build_metadata_json
link_of = refl
