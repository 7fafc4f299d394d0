-- ===== src/Common.antt =====
-- The app `common`: the event outbox, webhook delivery and shared utilities.
pub mod Models
pub mod Utils
pub mod References
pub mod Fields
pub mod Transactions
pub mod Webhook
pub mod Admin
pub mod Outbox
pub mod Commands
pub mod Labels
pub mod Sample
pub mod Tasks
mod Examples
