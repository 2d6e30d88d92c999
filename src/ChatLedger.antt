-- ===== src/ChatLedger.antt =====
-- The chat execution ledger: shared/agents/chat/execution_ledger.py.
pub mod Rows
pub mod Update
pub mod Statements
pub mod Requests
pub mod Pairs
pub mod Advance
pub mod Serial
pub mod Claim
pub mod Turns
pub mod Outcomes
pub mod Held
pub mod Closing
mod Tests
