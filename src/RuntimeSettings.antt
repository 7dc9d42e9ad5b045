-- ===== src/RuntimeSettings.antt =====
-- src/wecom_ai_gateway/runtime_settings.py: the settings that administrators change at run time.
pub mod Value
pub mod Specs
pub mod Coerce
pub mod Store
pub mod Update
pub mod Cache
pub mod OneSession
pub mod Refinement
pub mod Rows
pub mod Stable
pub mod Saved
pub mod RoundTrip
pub mod Mode
pub mod Fallback
pub mod Secret
mod Examples
