-- ===== src/Validation.antt =====
-- The checks that decide whether a model's result is final, goes to repair or is given up: the
-- policies of the agents under worker/agents and the tail that their graphs share.
pub mod Sets
pub mod Recipe
pub mod Provenance
pub mod Claims
pub mod Cleanup
pub mod Firsts
pub mod Grounded
pub mod Title
pub mod Titles
mod Tests
