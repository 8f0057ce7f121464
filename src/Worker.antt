-- ===== src/Worker.antt =====
-- The package internal/worker: the job queue, the workers' handlers and the poller.
pub mod Job
pub mod Settings
pub mod Publish
pub mod Poll
pub mod Queue
