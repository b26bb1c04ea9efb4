-- ===== src/Services/Metadata/Link.antt =====
-- The link of a credential's metadata to the stored document: src/services/metadata.rs on what
-- src/services/storage.rs returns.
use pactum_codex.Base.{
  ℕ, ◌≡◌, ◌⊎◌, refl, ap, Option, none, some, List, [], ◌∷◌, ◌++◌, bytes_eq, to_ascii_lowercase,
  Bool-cases, Option-cases, inl, inr,
}
use mathlib.Core.Path.{subst}
use pactum_codex.Error.{AppError}
use pactum_codex.Config.{Config}
use pactum_codex.State.World.{ok, OnOk, OnOk-map, Result-cases}
use pactum_codex.Services.SolanaPay.{codes}
use pactum_codex.Services.Solana.{AgreementStateWire}
use pactum_codex.Services.Storage.{
  Network, post_ipfs, post_arweave, extract_uri_id, cid_of, with_scheme, upload_to_ipfs,
  upload_signed, upload_to_arweave, upload_document,
}
use pactum_codex.Services.Metadata.{build_metadata_json}

-- The address of a stored document has the scheme of its backend.
abbrev pub HasScheme : List ℕ → List ℕ → Type 0
HasScheme scheme uri = (id : List ℕ) × (uri ≡ scheme ++ id)

module _ (net : Network) (bytes : List ℕ) (config : Config) where
  with_scheme-HasScheme :
      (scheme : List ℕ) (id : Option (List ℕ)) (e : AppError)
      → OnOk (with_scheme net scheme id e) (HasScheme scheme)
  with_scheme-HasScheme scheme none e = tt
  with_scheme-HasScheme scheme (some id) e = (id, refl)

  upload_to_ipfs-HasScheme : OnOk (upload_to_ipfs net bytes config) (HasScheme (codes "ipfs://"))
  unfolding upload_to_ipfs
  upload_to_ipfs-HasScheme = elim (Result-cases (post_ipfs net config.pinata_jwt bytes)) [
    | inr (e, failed) ↦ rw (failed, OnOk) tt
    | inl (payload, done) ↦
        rw (done, OnOk)
          (with_scheme-HasScheme (codes "ipfs://") (cid_of net payload)
            (AppError.pinata_upload_error "Missing CID in response"))
  ]

  upload_signed-HasScheme :
      (wallet : List ℕ) → OnOk (upload_signed net wallet bytes) (HasScheme (codes "ar://"))
  upload_signed-HasScheme wallet = elim (Result-cases (post_arweave net wallet bytes)) [
    | inr (e, failed) ↦ rw (failed, OnOk) tt
    | inl (payload, done) ↦
        rw (done, OnOk)
          (with_scheme-HasScheme (codes "ar://")
            (extract_uri_id net payload ("id" ∷ "tx_id" ∷ "transactionId" ∷ []))
            AppError.upload_failed)
  ]

  upload_to_arweave-HasScheme :
      OnOk (upload_to_arweave net bytes config) (HasScheme (codes "ar://"))
  unfolding upload_to_arweave
  upload_to_arweave-HasScheme = elim (Option-cases (net.file config.arweave_wallet_path)) [
    | inl unread ↦ rw (unread, OnOk) tt
    | inr (wallet, read) ↦ rw (read, OnOk) (upload_signed-HasScheme wallet)
  ]

  upload_document-HasScheme :
      (backend : List ℕ)
      → OnOk
          (upload_document net backend bytes config)
          (λ uri. HasScheme (codes "ipfs://") uri ⊎ HasScheme (codes "ar://") uri)
  unfolding upload_document
  upload_document-HasScheme backend =
      elim (Bool-cases (bytes_eq (to_ascii_lowercase backend) (codes "ipfs"))) [
        | inl ipfs ↦
            rw (ipfs, OnOk)
              (OnOk-map (upload_to_ipfs net bytes config) (λ uri h. inl h) upload_to_ipfs-HasScheme)
        | inr other ↦ elim (Bool-cases (bytes_eq (to_ascii_lowercase backend) (codes "arweave"))) [
          | inl arweave ↦
              rw (other, arweave, OnOk)
                (OnOk-map (upload_to_arweave net bytes config) (λ uri h. inr h)
                  upload_to_arweave-HasScheme)
          | inr unknown ↦ rw (other, unknown, OnOk) tt
        ]
      ]

  -- The metadata of an agreement whose document was stored by an upload links to no document: the
  -- link starts with the scheme `ar://`, and then with the one that the stored address already has.
  pub build_metadata_json-upload_document :
      (hex_4 : ℕ → List ℕ) (agreement : AgreementStateWire) (pda backend : List ℕ)
      → upload_document net backend bytes config ≡ ok (codes agreement.storage_uri)
      → let link = (build_metadata_json hex_4 agreement pda).animation_url in
        HasScheme (codes "ar://ipfs://") link ⊎ HasScheme (codes "ar://ar://") link
  unfolding build_metadata_json
  build_metadata_json-upload_document hex_4 agreement pda backend stored =
      elim (subst
        (λ r. OnOk r (λ uri. HasScheme (codes "ipfs://") uri ⊎ HasScheme (codes "ar://") uri))
        stored (upload_document-HasScheme backend)) [
          | inl (id, e) ↦ inl (id, ap (λ uri. codes "ar://" ++ uri) e)
          | inr (id, e) ↦ inr (id, ap (λ uri. codes "ar://" ++ uri) e)
        ]
