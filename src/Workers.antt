-- ===== src/Workers.antt =====
-- The background workers: src/workers/.
pub mod Policy
pub mod Supervisor
pub mod Retry
pub mod RefundWorker
pub mod EventListener
pub mod Keeper
pub mod ExpiryWorker
pub mod NotificationWorker
