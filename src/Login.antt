-- ===== src/Login.antt =====
-- src/wecom_ai_gateway/main.py and auth.py: the login endpoints and their counters in Redis.
pub mod Counters
pub mod Endpoints
pub mod Limit
mod Examples
