-- ===== src/JobRuns.antt =====
-- One job from its claim to its settlement: worker/workflows/jobs_workflows.py with its activities,
-- its writer and its outcome, on the ledger of Jobs.
pub mod World
pub mod Outcome
pub mod Service
pub mod Activities
pub mod Workflow
pub mod Stable
pub mod Handed
pub mod Once
pub mod Lost
pub mod Ends
pub mod Returns
pub mod Made
pub mod Closes
mod Tests
