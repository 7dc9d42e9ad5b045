-- ===== src/Routing.antt =====
-- src/wecom_ai_gateway/model_routing.py: model groups and failover.
pub mod Routes
pub mod Failover
mod Examples
