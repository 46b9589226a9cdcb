-- ===== src/Scheduler.antt =====
-- The job scheduler: src/services/scheduler.service.ts over src/repos/scheduler.repo.ts. Job names
-- and workers are numbers, and instants are milliseconds.
pub mod Repo
pub mod Ensure
pub mod Lease
pub mod Worker
pub mod Tests
