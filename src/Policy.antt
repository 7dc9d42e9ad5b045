-- ===== src/Policy.antt =====
-- src/wecom_ai_gateway/policy.py: the mode of a user and the policy of a command.
pub mod Decision
pub mod Best
pub mod Specific
mod Examples
