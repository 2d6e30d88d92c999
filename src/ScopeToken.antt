-- ===== src/ScopeToken.antt =====
-- The credential of one execution: shared/agents/shared/scope_token.py.
pub mod Split
pub mod Token
pub mod RoundTrip
mod Tests
