-- ===== src/Error.antt =====
-- The errors of the API and the HTTP status that each becomes (src/error.rs). A message that is a
-- fixed text of its call site is not a field; `initiate_url` of `PaymentRequired` is made from the
-- draft's id alone.
use pactum_codex.Base.{ℕ, String}

pub data AppError : Type 0 where
  invalid_or_expired_nonce invalid_refresh_token unauthorized : AppError
  wallet_required email_already_registered email_required wallet_already_linked : AppError
  missing_content_type invalid_file_type file_too_large upload_failed : AppError
  pinata_auth_error : String → AppError
  pinata_rate_limit_error : ℕ → AppError
  pinata_upload_error pinata_network_error : String → AppError
  draft_not_ready : AppError
  payment_required : ℕ → AppError
  invalid_hash hash_mismatch encryption_failed decryption_failed : AppError
  keypair_load_failed : String → AppError
  payment_method_unsupported treasury_ata_mismatch no_refund_amount_set : AppError
  vault_deposit_exceeds_maximum invite_window_exceeds_signing_window : AppError
  display_name_too_long invalid_display_name : AppError
  not_found internal_error rate_limited not_implemented : AppError
  solana_rpc_error transaction_signing_failed : AppError

-- `into_response`: the status code.
unfoldable pub status_code : AppError → ℕ
status_code AppError.invalid_or_expired_nonce = 401
status_code AppError.invalid_refresh_token = 401
status_code AppError.unauthorized = 401
status_code AppError.wallet_required = 403
status_code AppError.not_found = 404
status_code AppError.email_already_registered = 409
status_code AppError.wallet_already_linked = 409
status_code (AppError.pinata_auth_error _) = 401
status_code (AppError.pinata_rate_limit_error _) = 429
status_code (AppError.pinata_network_error _) = 503
status_code AppError.hash_mismatch = 400
status_code AppError.rate_limited = 429
status_code AppError.internal_error = 500
status_code AppError.solana_rpc_error = 500
status_code AppError.transaction_signing_failed = 500
status_code AppError.not_implemented = 501
status_code _ = 422

-- `into_response`: the text under the key `error` of the body.
unfoldable pub error_code : AppError → String
error_code AppError.invalid_or_expired_nonce = "invalid_nonce"
error_code AppError.invalid_refresh_token = "invalid_refresh_token"
error_code AppError.unauthorized = "unauthorized"
error_code AppError.wallet_required = "wallet_required"
error_code AppError.not_found = "not_found"
error_code AppError.email_already_registered = "email_already_registered"
error_code AppError.wallet_already_linked = "wallet_already_linked"
error_code AppError.missing_content_type = "missing_content_type"
error_code AppError.invalid_file_type = "invalid_file_type"
error_code AppError.file_too_large = "file_too_large"
error_code AppError.upload_failed = "upload_failed"
error_code (AppError.pinata_auth_error _) = "pinata_auth_error"
error_code (AppError.pinata_rate_limit_error _) = "pinata_rate_limited"
error_code (AppError.pinata_upload_error _) = "pinata_upload_failed"
error_code (AppError.pinata_network_error _) = "pinata_network_error"
error_code AppError.draft_not_ready = "draft_not_ready"
error_code (AppError.payment_required _) = "payment_required"
error_code AppError.email_required = "email_required"
error_code AppError.invalid_hash = "invalid_hash"
error_code AppError.hash_mismatch = "hash_mismatch"
error_code AppError.encryption_failed = "encryption_failed"
error_code AppError.decryption_failed = "decryption_failed"
error_code (AppError.keypair_load_failed _) = "keypair_load_failed"
error_code AppError.payment_method_unsupported = "payment_method_unsupported"
error_code AppError.treasury_ata_mismatch = "treasury_ata_mismatch"
error_code AppError.no_refund_amount_set = "no_refund_amount_set"
error_code AppError.vault_deposit_exceeds_maximum = "vault_deposit_exceeds_maximum"
error_code AppError.invite_window_exceeds_signing_window = "invite_window_exceeds_signing_window"
error_code AppError.display_name_too_long = "display_name_too_long"
error_code AppError.invalid_display_name = "invalid_display_name"
error_code AppError.rate_limited = "rate_limited"
error_code AppError.internal_error = "internal_error"
error_code AppError.solana_rpc_error = "solana_rpc_error"
error_code AppError.transaction_signing_failed = "transaction_signing_failed"
error_code AppError.not_implemented = "not_implemented"
