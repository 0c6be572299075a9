-- ===== src/Inbox.antt =====
-- src/core/approval-inbox.js: the questions put to a human, their answers, and who waits for them.
pub mod Types
pub mod Ops
pub mod Calls
pub mod Changes
pub mod Decisions
pub mod Handler
pub mod Approving
pub mod Waiting
mod Examples
