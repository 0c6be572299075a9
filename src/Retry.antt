-- ===== src/Retry.antt =====
-- src/providers/retry.js: the calls of one provider are repeated, where that is safe.
pub mod Attempts
pub mod Replays
mod Examples
