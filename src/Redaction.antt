-- ===== src/Redaction.antt =====
-- Redaction of credentials: shared/agents/shared/redaction.py.
pub mod Rules
pub mod Scan
pub mod Spans
pub mod Cover
pub mod Runs
pub mod Credentials
pub mod Suspects
mod Tests
