-- ===== src/Common/Outbox.antt =====
-- common/services/outbox.py, one module for each service.
pub mod Emit
pub mod Fetch
pub mod Deliver
pub mod Settle
pub mod Process
pub mod Rows
pub mod Sweep
pub mod Outcomes
pub mod Results
pub mod Accounting
pub mod Cleanup
pub mod Validity
pub mod Retention
pub mod Purging
pub mod Invariant
pub mod Backoff
pub mod History
pub mod Emission
pub mod Overlap
pub mod Requests
pub mod Potential
pub mod Draining
pub mod Settling
pub mod Posting
