-- ===== src/Policy.antt =====
-- src/policy/engine.js and src/core/approval-policy.js: what an operation is allowed to do.
pub mod Rules
pub mod Engine
pub mod Normalize
pub mod Rulesets
pub mod Approval
pub mod Choice
pub mod Order
pub mod Safety
mod Configured
mod Examples
