-- ===== src/Submission.antt =====
-- internal/submission: statuses, the projection to contests, and the worker that judges.
pub mod Status
pub mod Projection
pub mod Worker
pub mod Tables
pub mod Repository
pub mod Lifecycle
pub mod Dispatcher
