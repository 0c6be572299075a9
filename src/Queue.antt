-- ===== src/Queue.antt =====
-- src/workflow/queue.js: the durable job queue.
mod Examples
pub mod Types
pub mod Ops
pub mod Owner
pub mod Listing
pub mod Steps
pub mod Invariant
pub mod Calls
pub mod Guards
pub mod Refinement
pub mod Lookup
pub mod Selecting
pub mod Ownership
pub mod Effects
pub mod Written
pub mod Claims
pub mod Holder
pub mod Lifecycle
pub mod Operators
