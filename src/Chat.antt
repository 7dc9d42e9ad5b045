-- ===== src/Chat.antt =====
-- src/wecom_ai_gateway/services.py: the processing of an inbound message.
pub mod Rows
pub mod Split
pub mod Pieces
pub mod Merge
pub mod Calls
pub mod Deliver
pub mod Process
pub mod Fence
pub mod Careful
pub mod Answers
pub mod Answered
pub mod Steps
pub mod OneRun
pub mod Once
mod Examples
