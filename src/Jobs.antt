-- ===== src/Jobs.antt =====
-- The package `jobs` (backend/internal/jobs/jobs.go): how a worker holds the lease of a job while it
-- handles it.
pub mod Types
pub mod Queue
mod Delay
pub mod Worker
mod Lease
mod Progress
mod Tests
