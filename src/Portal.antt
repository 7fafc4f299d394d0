-- ===== src/Portal.antt =====
-- The app `portal`: upload files, batches and chunked sessions.
pub mod Models
pub mod Accepting
pub mod Finalized
pub mod Files
pub mod EventOutbox
pub mod Create
pub mod Batches
pub mod Sessions
pub mod Validation
pub mod Storing
pub mod Verdicts
pub mod Counters
pub mod Uploading
pub mod Journey
pub mod Completion
pub mod Recording
pub mod Notify
pub mod Noticed
pub mod Notified
pub mod Announced
pub mod Posted
pub mod Outcomes
pub mod Expiry
pub mod Expired
pub mod Covering
pub mod Examples
pub mod Labels
pub mod BatchExamples
mod PostedExamples
mod SessionExamples
