-- ===== src/Jobs.antt =====
-- The ledger of jobs and their steps: shared/workflows/jobs_ledger.py.
pub mod Rows
pub mod Ledger
pub mod Closed
pub mod Claims
pub mod Steps
mod Tests
