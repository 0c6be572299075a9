-- ===== src/Worker.antt =====
-- src/workflow/queue-worker.js: a worker that runs the jobs it claims.
pub mod Run
pub mod Methods
pub mod Release
mod Examples
