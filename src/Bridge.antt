-- ===== src/Bridge.antt =====
-- bridge/src/clawbot_bridge/runtime.py: the ClawBot instances of the bridge process.
pub mod State
pub mod Runtime
pub mod Handlers
pub mod Steps
pub mod Saved
pub mod Sessions
pub mod Agree
pub mod Lasting
pub mod Expiry
mod Examples
