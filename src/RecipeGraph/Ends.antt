-- ===== src/RecipeGraph/Ends.antt =====
-- The recipe-scan graph comes to an end (src/tracer_agent/worker/agents/recipe_scan/graph.py).
use tracer_agent_python.Prelude.{
  ℕ, zero, suc, ◌+◌, ◌*◌, ◌≤◌, ◌<◌, ◌≡◌, ◌≢◌, refl, inl, inr, ◌⊎◌, arith,
}
use tracer_agent_python.RecipeGraph.State.{State, Setup}
use tracer_agent_python.RecipeGraph.Run.{
  Node, survey, probe, investigate, validate, repair, finalize, empty, Position, at, finished,
  broken, step_node, step, run, initial_state,
}
use tracer_agent_python.RecipeGraph.Ranks.{
  node_rank, rank, survey-rank, probe-rank, investigate-rank, validate-rank, repair-rank,
}

abbrev pub HasEnded : Position → Type 0
HasEnded (at node s) = ⊥
HasEnded (finished s reason) = Unit
HasEnded (broken error) = Unit

not_ended : (setup : Setup) (node : Node) (s : State) → node_rank setup node s ≢ 0
not_ended setup survey s h = omega (arith, h)
not_ended setup (probe dispatches) s h = omega (arith, h)
not_ended setup investigate s h = omega (arith, h)
not_ended setup validate s h = ground arith
not_ended setup repair s h = omega (arith, h)
not_ended setup finalize s h = omega (arith, h)
not_ended setup empty s h = omega (arith, h)

rank-HasEnded : (setup : Setup) (p : Position) → rank setup p ≡ 0 → HasEnded p
rank-HasEnded setup (at node s) h = not_ended setup node s h
rank-HasEnded setup (finished s reason) h = tt
rank-HasEnded setup (broken error) h = tt

-- Every step from a position that has not ended lowers the rank.
step-rank :
    (setup : Setup) (p : Position) → (rank setup p ≡ 0) ⊎ (rank setup (step setup p) < rank setup p)
unfolding step
step-rank setup (at survey s) = inr (survey-rank setup s)
step-rank setup (at (probe dispatches) s) = inr (probe-rank setup dispatches s)
step-rank setup (at investigate s) = inr (investigate-rank setup s)
step-rank setup (at validate s) = inr (validate-rank setup s)
step-rank setup (at repair s) = inr (repair-rank setup s)
step-rank setup (at finalize s) = unfold step_node in inr (omega arith)
step-rank setup (at empty s) = unfold step_node in inr (omega arith)
step-rank setup (finished s reason) = inl refl
step-rank setup (broken error) = inl refl

ended-stays :
    (setup : Setup) (fuel : ℕ) (p : Position) → rank setup p ≡ 0 → rank setup (run setup fuel p) ≡ 0
unfolding run step
ended-stays setup zero p h = h
ended-stays setup (suc fuel) (at node s) h = absurd (not_ended setup node s h)
ended-stays setup (suc fuel) (finished s reason) h = ended-stays setup fuel (finished s reason) h
ended-stays setup (suc fuel) (broken error) h = ended-stays setup fuel (broken error) h

run-rank :
    (setup : Setup) (fuel : ℕ) (p : Position)
    → rank setup p ≤ fuel
    → rank setup (run setup fuel p) ≡ 0
unfolding run
run-rank setup zero p h = omega (arith, h)
run-rank setup (suc fuel) p h = elim (step-rank setup p) [
  | inl e ↦ ended-stays setup (suc fuel) p e
  | inr l ↦ run-rank setup fuel (step setup p) (omega (arith, l, h))
]

-- Whatever the model answers, the recipe-scan graph comes from its initial state to a result or to the exception
-- of a node within 7 steps and 2 more for each round of probes that the contract lets it ask for.
pub scan_ends :
    (setup : Setup) (task_id max_turns max_cost_usd : ℕ)
    → HasEnded (
        run setup
          (7 + 2 * setup.contract.max_redispatch_rounds)
          (at survey (initial_state task_id max_turns max_cost_usd)))
unfolding initial_state
scan_ends setup task_id max_turns max_cost_usd = rank-HasEnded setup _ (
    run-rank setup (7 + 2 * setup.contract.max_redispatch_rounds)
      (at survey (initial_state task_id max_turns max_cost_usd)) (omega arith))
