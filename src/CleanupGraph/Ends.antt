-- ===== src/CleanupGraph/Ends.antt =====
-- The task-cleanup graph comes to an end (src/tracer_agent/worker/agents/task_cleanup/graph.py).
use tracer_agent_python.Prelude.{ℕ, zero, suc, ◌≤◌, ◌<◌, ◌≡◌, ◌≢◌, refl, inl, inr, ◌⊎◌, arith}
use tracer_agent_python.CleanupGraph.State.{State, Setup}
use tracer_agent_python.CleanupGraph.Run.{
  Node, triage, inspect, investigate, validate, repair, finalize, empty, Position, at, finished,
  broken, step_node, step, run, initial_state,
}
use tracer_agent_python.CleanupGraph.Ranks.{
  node_rank, rank, triage-rank, inspect-rank, investigate-rank, validate-rank, repair-rank,
}

abbrev pub HasEnded : Position → Type 0
HasEnded (at node s) = ⊥
HasEnded (finished s) = Unit
HasEnded (broken error) = Unit

not_ended : (node : Node) (s : State) → node_rank node s ≢ 0
not_ended triage s h = omega (arith, h)
not_ended (inspect dispatches) s h = omega (arith, h)
not_ended investigate s h = omega (arith, h)
not_ended validate s h = ground arith
not_ended repair s h = omega (arith, h)
not_ended finalize s h = omega (arith, h)
not_ended empty s h = omega (arith, h)

rank-HasEnded : (p : Position) → rank p ≡ 0 → HasEnded p
rank-HasEnded (at node s) h = not_ended node s h
rank-HasEnded (finished s) h = tt
rank-HasEnded (broken error) h = tt

-- Every step from a position that has not ended lowers the rank.
step-rank : (setup : Setup) (p : Position) → (rank p ≡ 0) ⊎ (rank (step setup p) < rank p)
unfolding step
step-rank setup (at triage s) = inr (triage-rank setup s)
step-rank setup (at (inspect dispatches) s) = inr (inspect-rank setup dispatches s)
step-rank setup (at investigate s) = inr (investigate-rank setup s)
step-rank setup (at validate s) = inr (validate-rank setup s)
step-rank setup (at repair s) = inr (repair-rank setup s)
step-rank setup (at finalize s) = unfold step_node in inr (omega arith)
step-rank setup (at empty s) = unfold step_node in inr (omega arith)
step-rank setup (finished s) = inl refl
step-rank setup (broken error) = inl refl

ended-stays : (setup : Setup) (fuel : ℕ) (p : Position) → rank p ≡ 0 → rank (run setup fuel p) ≡ 0
unfolding run step
ended-stays setup zero p h = h
ended-stays setup (suc fuel) (at node s) h = absurd (not_ended node s h)
ended-stays setup (suc fuel) (finished s) h = ended-stays setup fuel (finished s) h
ended-stays setup (suc fuel) (broken error) h = ended-stays setup fuel (broken error) h

run-rank : (setup : Setup) (fuel : ℕ) (p : Position) → rank p ≤ fuel → rank (run setup fuel p) ≡ 0
unfolding run
run-rank setup zero p h = omega (arith, h)
run-rank setup (suc fuel) p h = elim (step-rank setup p) [
  | inl e ↦ ended-stays setup (suc fuel) p e
  | inr l ↦ run-rank setup fuel (step setup p) (omega (arith, l, h))
]

-- Whatever the model answers, the graph comes within 9 steps from its initial state to a result or to the
-- exception of a node.
pub graph_ends :
    (setup : Setup) (max_suggestions tasks_scanned max_turns max_cost_usd : ℕ)
    → HasEnded (
        run setup 9
          (at triage (initial_state max_suggestions tasks_scanned max_turns max_cost_usd)))
unfolding initial_state
graph_ends setup max_suggestions tasks_scanned max_turns max_cost_usd = rank-HasEnded _ (
    run-rank setup 9
      (at triage (initial_state max_suggestions tasks_scanned max_turns max_cost_usd))
      (omega arith))
