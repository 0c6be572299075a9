-- ===== src/Diff.antt =====
-- src/providers/text-diff.js: `unifiedDiff`, what a person reads before a write is approved.
pub mod Lines
pub mod Unified
pub mod Patches
pub mod Sides
mod Examples
