-- ===== src/Accounts.antt =====
-- The tables and the outside functions that authentication works on: auth.py, mfa.py,
-- password_reset.py, account_activation.py and totp.py under src/wecom_ai_gateway.
pub mod Rows
pub mod Totp
pub mod Mfa
pub mod Factor
pub mod Auth
pub mod Tokens
pub mod Sessions
pub mod OneTime
pub mod Activation
pub mod Replay
pub mod Attempts
mod Examples
