-- ===== src/RecipeGraph.antt =====
-- The graph of the recipe-scan agent: worker/agents/recipe_scan (graph.py, nodes/) with the
-- validation tail of worker/agents/runtime.
pub mod State
pub mod Salvage
pub mod Probes
pub mod Nodes
pub mod Run
pub mod Ranks
pub mod Ends
pub mod Kept
pub mod Reports
pub mod Mishaps
pub mod Traced
pub mod Results
pub mod Told
pub mod Reasons
mod Tests
