-- ===== src/Knowledge.antt =====
-- src/wecom_ai_gateway/knowledge.py: the documents of a user and their chunks.
pub mod Chunks
pub mod Windows
pub mod Items
pub mod Stored
pub mod Index
pub mod Legacy
pub mod Owed
pub mod Migration
mod Examples
