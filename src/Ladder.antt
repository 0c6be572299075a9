-- ===== src/Ladder.antt =====
-- src/workflow/ladder.js: a task goes up from tier to tier until its result is verified.
pub mod Climb
pub mod Rungs
mod Examples
