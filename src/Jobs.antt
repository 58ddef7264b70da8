-- ===== src/Jobs.antt =====
-- The nightly jobs, app/jobs.
pub mod ExpireGrace
pub mod Reconcile
