-- ===== src/Resume.antt =====
-- src/runtime/resume-plan.js: which steps of an earlier run are carried over into a new one.
pub mod Steps
pub mod Closed
pub mod Plan
pub mod Conditions
mod Examples
