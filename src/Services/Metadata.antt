-- ===== src/Services/Metadata.antt =====
-- The metadata of a credential: src/services/metadata.rs. A text is the list of the codes of its
-- characters; `hex_4`, the hexadecimal digits of the first four bytes of an identifier, and
-- `to_vec`, which writes the JSON, are parameters.
pub mod Link
pub mod Tests
use pactum_codex.Base.{ℕ, String, List, [], ◌∷◌, ◌++◌, length}
use pactum_codex.Config.{Config}
use pactum_codex.State.World.{Result}
use pactum_codex.Services.SolanaPay.{codes, decimal}
use pactum_codex.Services.Solana.{AgreementStateWire, AgreementStatus, StorageBackend}
use pactum_codex.Services.Storage.{Network, upload_document}

-- An element of the array `attributes`.
pub record Attribute : Type 0 where
  pub trait_type : String
  pub value : List ℕ

-- The members of the JSON object.
pub record Metadata : Type 0 where
  pub name : List ℕ
  pub description : List ℕ
  pub image : List ℕ
  pub animation_url : List ℕ
  pub external_url : List ℕ
  pub attributes : List Attribute

abbrev pub pactum_seal_tx_id : List ℕ
pactum_seal_tx_id = codes "pactum_seal_arweave_tx_id"

-- `format!("{:?}", …)` of the two enums.
abbrev pub debug_status : AgreementStatus → List ℕ
debug_status AgreementStatus.draft = codes "Draft"
debug_status AgreementStatus.pending_signatures = codes "PendingSignatures"
debug_status AgreementStatus.completed = codes "Completed"
debug_status AgreementStatus.cancelled = codes "Cancelled"
debug_status AgreementStatus.expired = codes "Expired"
debug_status AgreementStatus.revoked = codes "Revoked"

abbrev pub debug_backend : StorageBackend → List ℕ
debug_backend StorageBackend.ipfs = codes "Ipfs"
debug_backend StorageBackend.arweave = codes "Arweave"

-- `to_string` of an integer that is not negative and has at most 19 digits.
abbrev pub to_string : ℕ → List ℕ
to_string n = decimal 19 n []

abbrev pub attribute : String → List ℕ → Attribute
attribute trait_type value = record { trait_type = trait_type; value = value }

unfoldable pub build_attributes : AgreementStateWire → List Attribute
build_attributes agreement =
    attribute "Status" (debug_status agreement.status)
    ∷ attribute "Parties" (to_string (length agreement.parties))
    ∷ attribute "Storage Backend" (debug_backend agreement.storage_backend)
    ∷ attribute "Created At" (to_string agreement.created_at)
    ∷ attribute "Expires At" (to_string agreement.expires_at)
    ∷ []

module _ (hex_4 : ℕ → List ℕ) where
  unfoldable pub build_metadata_json : AgreementStateWire → List ℕ → Metadata
  build_metadata_json agreement pda = record {
    name =
        codes "Pactum #"
        ++ (hex_4 agreement.agreement_id ++ (codes " — " ++ codes agreement.title));
    description = codes "On-chain agreement credential issued via Pactum Protocol.";
    image = codes "ar://" ++ pactum_seal_tx_id;
    animation_url = codes "ar://" ++ codes agreement.storage_uri;
    external_url = codes "https://pactum.app/agreement/" ++ pda;
    attributes = build_attributes agreement;
  }

  unfoldable pub upload_metadata_json :
      (Metadata → List ℕ)
      → Network
      → AgreementStateWire
      → List ℕ
      → List ℕ
      → Config
      → Result (List ℕ)
  upload_metadata_json to_vec net agreement pda backend config =
      upload_document net backend (to_vec (build_metadata_json agreement pda)) config
