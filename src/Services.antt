-- ===== src/Services.antt =====
-- The services (src/services/).
pub mod Jwt
pub mod SolanaPay
pub mod Solana
pub mod Crypto
pub mod Notification
pub mod Refund
pub mod ProgramLog
pub mod Hash
pub mod Storage
pub mod Metadata
