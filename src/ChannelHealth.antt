-- ===== src/ChannelHealth.antt =====
-- src/wecom_ai_gateway/channel_health.py: the status of channel instances.
pub mod Status
pub mod Transitions
mod Examples
