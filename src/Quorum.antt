-- ===== src/Quorum.antt =====
-- src/workflow/quorum.js: when the votes of several reviewers carry a change.
pub mod Votes
pub mod Count
mod Examples
