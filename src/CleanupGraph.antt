-- ===== src/CleanupGraph.antt =====
-- The graph of the task-cleanup agent: worker/agents/task_cleanup (graph.py, nodes/) with the
-- validation tail of worker/agents/runtime.
pub mod State
pub mod Nodes
pub mod Run
pub mod Ranks
pub mod Ends
pub mod Results
mod Tests
