-- ===== src/Workflow.antt =====
-- src/workflow/engine.js: `WorkflowEngine`, which runs the steps of a workflow in the order of their needs.
pub mod Steps
pub mod Engine
pub mod Changes
pub mod Invariant
pub mod Rounds
pub mod Starts
pub mod Settling
pub mod Reachable
pub mod Graph
pub mod Counting
pub mod Kahn
pub mod Acyclic
pub mod Orders
pub mod Accepts
pub mod Progress
pub mod Valid
pub mod Stalls
pub mod Attempts
mod Examples
