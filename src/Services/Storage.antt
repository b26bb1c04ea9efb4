-- ===== src/Services/Storage.antt =====
-- The storage backends of uploads: src/services/storage.rs. What the network answers, the JSON of
-- the answers and the wallet file are parameters; a text is the list of its bytes.
use Prim.Native.String.{◌++◌ as str_append}
use pactum_codex.Base.{
  ℕ, String, Bool, Option, none, some, List, [], ◌∷◌, ◌++◌, ◌==◌, ◌||◌, ◌&&◌, leb, bytes_eq,
  to_ascii_lowercase, if◌then◌else◌,
}
use pactum_codex.Error.{AppError}
use pactum_codex.Config.{Config}
use pactum_codex.State.World.{Result, ok, err}
use pactum_codex.Services.SolanaPay.{codes}
use pactum_codex.Services.ProgramLog.{strip_prefix}

-- What comes back of a request: no connection, or a status with its line and body.
pub data Reply : Type 0 where
  unreachable : String → Reply
  replied : ℕ → String → String → Reply

-- `serde_json` and `reqwest`. `file` is `fs::read`.
pub record Network : Type 1 where
  pub Json : Type 0
  pub from_str : String → Option Json
  pub get : String → Json → Option Json
  pub as_str : Json → Option (List ℕ)
  pub pinata : List ℕ → List ℕ → Reply
  pub arweave : List ℕ → List ℕ → Reply
  pub file : List ℕ → Option (List ℕ)

infixl 5 ◌then?◌
abbrev ◌then?◌ {ℓ} : {A B : Type ℓ} → Option A → (A → Option B) → Option B
none then? f = none
some a then? f = f a

abbrev pub is_success : ℕ → Bool
is_success status = leb 200 status && leb status 299

-- `match status.as_u16()`
unfoldable pub pinata_error : ℕ → String → String → AppError
pinata_error status line body =
    if status == 401
    then AppError.pinata_auth_error "Invalid JWT token"
    else if status == 429
    then AppError.pinata_rate_limit_error 60
    else if status == 400 || status == 422
    then AppError.pinata_upload_error (str_append "Upload rejected: " body)
    else AppError.pinata_network_error (str_append "HTTP " (str_append line (str_append ": " body)))

-- `format!("https://{}/ipfs/{}", …)`
unfoldable pub get_ipfs_gateway_url : List ℕ → Config → List ℕ
get_ipfs_gateway_url cid config =
    let clean_cid : List ℕ = elim (strip_prefix (codes "ipfs://") cid) [
      | none ↦ cid
      | some c ↦ c
    ] in
    codes "https://" ++ (config.pinata_gateway_domain ++ (codes "/ipfs/" ++ clean_cid))

module _ (net : Network) where
  abbrev pub parsed : Option net.Json → AppError → Result net.Json
  parsed none e = err e
  parsed (some payload) e = ok payload

  unfoldable pub post_ipfs : List ℕ → List ℕ → Result net.Json
  post_ipfs bearer_token bytes = elim (net.pinata bearer_token bytes) [
    | unreachable e ↦
        err (AppError.pinata_network_error (str_append "Failed to connect to Pinata: " e))
    | replied status line body ↦
        if is_success status
        then parsed (net.from_str body)
            (AppError.pinata_upload_error "Invalid response from Pinata")
        else err (pinata_error status line body)
  ]

  unfoldable pub post_arweave : List ℕ → List ℕ → Result net.Json
  post_arweave wallet_json bytes = elim (net.arweave wallet_json bytes) [
    | unreachable e ↦ err AppError.upload_failed
    | replied status line body ↦
        if is_success status
        then parsed (net.from_str body) AppError.upload_failed
        else err AppError.upload_failed
  ]

  abbrev pub cid_of : net.Json → Option (List ℕ)
  cid_of payload = net.get "data" payload then? (λ d. net.get "cid" d) then? net.as_str

  -- The first of the keys that holds a text.
  abbrev pub extract_uri_id : net.Json → List String → Option (List ℕ)
  extract_uri_id payload [] = none
  extract_uri_id payload (key ∷ keys) = elim (net.get key payload then? net.as_str) [
    | none ↦ extract_uri_id payload keys
    | some id ↦ some id
  ]

  abbrev pub with_scheme : List ℕ → Option (List ℕ) → AppError → Result (List ℕ)
  with_scheme scheme none e = err e
  with_scheme scheme (some id) e = ok (scheme ++ id)

  unfoldable pub upload_to_ipfs : List ℕ → Config → Result (List ℕ)
  upload_to_ipfs bytes config = elim (post_ipfs config.pinata_jwt bytes) [
    | err e ↦ err e
    | ok payload ↦
        with_scheme (codes "ipfs://") (cid_of payload)
          (AppError.pinata_upload_error "Missing CID in response")
  ]

  -- The answer to the upload, by the wallet that was read.
  abbrev pub upload_signed : List ℕ → List ℕ → Result (List ℕ)
  upload_signed wallet_json bytes = elim (post_arweave wallet_json bytes) [
    | err e ↦ err e
    | ok payload ↦
        with_scheme (codes "ar://") (extract_uri_id payload ("id" ∷ "tx_id" ∷ "transactionId" ∷ []))
          AppError.upload_failed
  ]

  unfoldable pub upload_to_arweave : List ℕ → Config → Result (List ℕ)
  upload_to_arweave bytes config = elim (net.file config.arweave_wallet_path) [
    | none ↦ err AppError.internal_error
    | some wallet_json ↦ upload_signed wallet_json bytes
  ]

  unfoldable pub upload_document : List ℕ → List ℕ → Config → Result (List ℕ)
  upload_document backend bytes config =
      let name = to_ascii_lowercase backend in
      if bytes_eq name (codes "ipfs")
      then upload_to_ipfs bytes config
      else if bytes_eq name (codes "arweave")
      then upload_to_arweave bytes config
      else err AppError.payment_method_unsupported
