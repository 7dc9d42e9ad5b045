-- ===== src/Binding.antt =====
-- src/wecom_ai_gateway/binding.py: one identity over several channels.
pub mod Tables
pub mod Merge
pub mod Codes
pub mod Rows
pub mod Chunks
pub mod Merged
pub mod OneTime
mod Examples
