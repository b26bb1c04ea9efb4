-- ===== src/Handlers.antt =====
-- The request handlers (src/handlers/).
pub mod Auth
pub mod Payment
pub mod Ws
pub mod Draft
pub mod Invite
pub mod Agreement
pub mod User
pub mod Oauth
pub mod Upload
