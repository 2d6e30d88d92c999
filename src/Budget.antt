-- ===== src/Budget.antt =====
-- The execution budget: worker/agents/runtime/llm/budget.py, pacing.py, graph_state.py.
pub mod Lease
pub mod Shares
pub mod Rank
pub mod Handout
pub mod NoLeak
pub mod Quotes
pub mod Spending
pub mod FanOut
pub mod Execution
pub mod Ceilings
pub mod Sharing
mod Tests
