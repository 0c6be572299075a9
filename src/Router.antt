-- ===== src/Router.antt =====
-- src/providers/router.js: which provider serves an agent, and what happens when one fails.
mod Examples
pub mod Route
pub mod Invoke
pub mod Routes
pub mod Fallback
