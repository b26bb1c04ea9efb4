-- ===== src/Handlers/Draft/Submit.antt =====
-- The submission of a draft: src/handlers/draft.rs. A text is the list of its bytes where it is
-- examined, and a number where it is only stored. `hex_decode` is that of the `hex` crate.
use pactum_codex.Base.{
  bytes_eq, to_ascii_lowercase, String, ℕ, ◌-◌, ◌^◌, ℤ, pos, negsuc, Bool, true, false, ◌&&◌, ◌||◌,
  not, Option, none, some, List, [], ◌∷◌, ◌==◌, ltb, leb, if◌then◌else◌, find, exists, all,
  update_where, is_some, length,
}
use pactum_codex.Error.{AppError}
use pactum_codex.State.Rows.{Db, DraftPartyEntry, DraftPayload, DraftStatus, PaymentStatus}
use pactum_codex.State.World.{
  M, Void, Result, ok, err, ◌>>=◌, ◌>>◌, pure, throw, ok_or, fresh, fetch, execute, lift,
}
use pactum_codex.Handlers.Auth.{AuthUserWithWallet, SolanaSdk}
use pactum_codex.Handlers.Payment.{has_draft_id}
use pactum_codex.Services.SolanaPay.{codes, has_status}
use pactum_codex.Services.Solana.{
  Seed, StorageBackend, Transaction, build_create_agreement_tx, derive_agreement_pda,
}
use pactum_codex.Handlers.Draft.{ensure_creator_only}

pub record SubmitDraftResponse : Type 0 where
  pub transaction : Transaction
  pub agreement_pda : ℕ

pub record SubmitDraftRequest : Type 0 where
  pub content_hash : List ℕ
  pub storage_uri : String
  pub storage_backend : List ℕ

abbrev pub is_ready : DraftStatus → Bool
is_ready DraftStatus.ready_to_submit = true
is_ready _ = false

unfoldable pub evaluate_submit_gates : Bool → DraftStatus → Bool → ℕ → Result Void
evaluate_submit_gates paid status has_email draft_id =
    if not paid
    then err (AppError.payment_required draft_id)
    else if not (is_ready status)
    then err AppError.draft_not_ready
    else if not has_email
    then err AppError.email_required
    else ok tt

unfoldable pub parse_storage_backend : List ℕ → Result StorageBackend
parse_storage_backend raw =
    if bytes_eq (to_ascii_lowercase raw) (codes "ipfs")
    then ok StorageBackend.ipfs
    else if bytes_eq (to_ascii_lowercase raw) (codes "arweave")
    then ok StorageBackend.arweave
    else err AppError.upload_failed

abbrev pub is_ascii_hexdigit : ℕ → Bool
is_ascii_hexdigit c =
    (leb b'0' c && leb c b'9') || (leb b'a' c && leb c b'f') || (leb b'A' c && leb c b'F')

unfoldable pub validate_content_hash : List ℕ → Result Void
validate_content_hash content_hash =
    if not (length content_hash == 64)
    then err AppError.invalid_hash
    else if not (all is_ascii_hexdigit content_hash)
    then err AppError.invalid_hash
    else ok tt

-- `EXISTS(… WHERE user_id = $1 AND email_enc IS NOT NULL)`
abbrev pub has_contact_email : ℕ → Db → Bool
has_contact_email user db = exists (λ c. c.user_id == user && is_some c.email_enc) db.user_contacts

-- `as i64` of a `u64`
abbrev pub as_i64 : ℕ → ℤ
as_i64 n = if ltb n (2 ^ 63) then pos n else negsuc (2 ^ 64 - 1 - n)

-- The keys of the slots that have one and that the Solana SDK can read.
abbrev pub resolved_keys : (ℕ → Option ℕ) → List DraftPartyEntry → List ℕ
resolved_keys parse [] = []
resolved_keys parse (s ∷ ss) = elim (s.pubkey) [
  | none ↦ resolved_keys parse ss
  | some pubkey ↦ elim (parse pubkey) [
    | none ↦ resolved_keys parse ss
    | some k ↦ k ∷ resolved_keys parse ss
  ]
]

-- The two statements that record the agreement's address. The address and the id, which the
-- handler recomputes, are those of the transaction.
unfoldable pub record_agreement : ℕ → ℕ → ℕ → M Void
record_agreement draft_id agreement_pda agreement_id = do
  execute (λ db. record db {
    agreement_drafts =
        update_where (has_draft_id draft_id)
          (λ d. record d { agreement_pda = some agreement_pda; agreement_id = some agreement_id })
          db.agreement_drafts;
  })
  execute (λ db. record db {
    agreement_payments =
        update_where (λ p. p.draft_id == draft_id && has_status PaymentStatus.confirmed p)
          (λ p. record p { agreement_pda = some agreement_pda }) db.agreement_payments;
  })

module _ (sdk : SolanaSdk) (find_program_address : List Seed → ℕ)
    (hex_decode : List ℕ → Option (List ℕ)) (vault : ℕ) where
  -- `hex::decode(…)?.try_into()?` into 32 bytes
  abbrev pub decode_hash : List ℕ → M (List ℕ)
  decode_hash content_hash = elim (hex_decode content_hash) [
    | none ↦ throw AppError.invalid_hash
    | some bytes ↦ if length bytes == 32 then pure bytes else throw AppError.invalid_hash
  ]

  -- The transaction that a draft's payload asks for, once the gates are passed.
  unfoldable pub draft_transaction :
      AuthUserWithWallet
      → DraftPayload
      → SubmitDraftRequest
      → StorageBackend
      → M (ℕ × SubmitDraftResponse)
  draft_transaction auth payload req storage_backend = do
    creator_pubkey ← ok_or (sdk.parse_pubkey auth.pubkey) AppError.internal_error
    agreement_id ← fresh
    content_hash ← decode_hash req.content_hash
    transaction ←
        build_create_agreement_tx find_program_address vault
          (record {
            agreement_id = agreement_id;
            title = payload.title;
            content_hash = content_hash;
            storage_uri = req.storage_uri;
            storage_backend = storage_backend;
            parties = resolved_keys sdk.parse_pubkey payload.parties;
            expires_in_secs = as_i64 payload.expires_in_secs;
          })
          creator_pubkey
    pure (
      agreement_id,
      record {
        transaction = transaction;
        agreement_pda = derive_agreement_pda find_program_address creator_pubkey agreement_id;
      },
    )

  unfoldable pub submit_draft : AuthUserWithWallet → ℕ → SubmitDraftRequest → M SubmitDraftResponse
  submit_draft auth draft_id req = do
    lift (validate_content_hash req.content_hash)
    storage_backend ← lift (parse_storage_backend req.storage_backend)
    found ← fetch (λ db. find (has_draft_id draft_id) db.agreement_drafts)
    draft ← ok_or found AppError.not_found
    ensure_creator_only (some auth.pubkey) draft.creator_pubkey
    has_email ← fetch (has_contact_email auth.user_id)
    lift (evaluate_submit_gates draft.paid draft.status has_email draft_id)
    execute (λ db. record db {
      agreement_drafts =
          update_where (has_draft_id draft_id)
            (λ d. record d { storage_uri = some req.storage_uri; storage_uploaded = true })
            db.agreement_drafts;
    })
    (agreement_id, response) ← draft_transaction auth draft.draft_payload req storage_backend
    record_agreement draft_id response.agreement_pda agreement_id
    pure response
