-- ===== src/Outbox.antt =====
-- src/wecom_ai_gateway/tasks.py: the persistent outbox, its leases and its retries.
pub mod Tasks
pub mod Lease
pub mod Finish
pub mod Repair
pub mod Invariant
pub mod Steps
pub mod Reachable
pub mod Leases
pub mod Retry
pub mod Claim
pub mod Reconcile
pub mod Outcomes
mod Examples
