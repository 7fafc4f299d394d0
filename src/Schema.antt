-- ===== src/Schema.antt =====
-- The database schema: the migrations of the three apps, what they do to the models, and the
-- models as portal/models.py and common/models.py declare them.
pub mod Fields
pub mod Migrator
pub mod Accounts
pub mod Events
pub mod Uploads
pub mod Portal
pub mod Plan
pub mod Runs
pub mod Cells
pub mod Keys
pub mod Lengths
pub mod Overflow
pub mod Fitting
pub mod Admin
mod ByName
mod Examples
mod LengthExamples
pub mod Same
pub mod Built
pub mod Agreement
pub mod Statuses
pub mod Columns
pub mod Declared
