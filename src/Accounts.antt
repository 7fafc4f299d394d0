-- ===== src/Accounts.antt =====
-- The app `accounts`: its user model.
pub mod Models
