-- ===== src/CleanupGraph/Results.antt =====
-- What the task-cleanup graph results in: src/tracer_agent/worker/agents/task_cleanup (graph.py, policy.py).
use tracer_agent_python.Prelude.{
  ℕ, zero, suc, ◌≤◌, List, [], ◌∷◌, Option, none, some, All, length, arith,
}
use tracer_agent_python.Validation.Cleanup.{TaskCleanupState, CleanupSuggestion}
use tracer_agent_python.Validation.Grounded.{IsGrounded, HasDistinctTasks, filter_valid_sound}
use tracer_agent_python.CleanupGraph.State.{TriagePlan, State, Setup, InspectDispatch}
use tracer_agent_python.CleanupGraph.Nodes.{
  Ran, ran, failed, triage_node, investigate_node, repair_node, validate_node, finalize_result,
  empty_result,
}
use tracer_agent_python.CleanupGraph.Run.{
  Node, triage, inspect, investigate, validate, repair, finalize, empty, Position, at, finished,
  broken, fan_out, fan_out_or, dispatch, after_investigate, continue_with, step_node, step, run,
  to_repair, to_finalize, to_empty, Route, follow, initial_state,
}

-- The suggestions are grounded in the evidence, about different tasks, and no more than asked for.
pub record IsSound (evidence : TaskCleanupState) (suggestions : List CleanupSuggestion)
    : Type 0 where
  pub grounded : All (IsGrounded evidence) suggestions
  pub distinct_tasks : HasDistinctTasks suggestions
  pub within_maximum : length suggestions ≤ evidence.max_suggestions

-- The run has a result, and its suggestions are sound with the evidence that the run collected.
abbrev pub HasSoundResult : State → Type 0
HasSoundResult s = elim s.result [ none ↦ ⊥ | some r ↦ IsSound s.evidence r.result_suggestions ]

-- The run has not finished, or with a sound result.
abbrev pub FinishesSound : Position → Type 0
FinishesSound (at node s) = Unit
FinishesSound (finished s) = HasSoundResult s
FinishesSound (broken error) = Unit

abbrev IsReady : Position → Type 0
IsReady (at finalize s) = IsSound s.evidence s.suggestions
IsReady (at _ s) = Unit
IsReady (finished s) = HasSoundResult s
IsReady (broken error) = Unit

validate_node-IsSound :
    (s : State) → IsSound (validate_node s).evidence (validate_node s).suggestions
unfolding validate_node
validate_node-IsSound s =
    let (g, (d, (l, _))) = filter_valid_sound s.suggestions s.evidence in
    record { grounded = g; distinct_tasks = d; within_maximum = l }

follow-IsReady :
    (r : Route) (s : State) → IsSound s.evidence s.suggestions → IsReady (at (follow r) s)
follow-IsReady to_repair s h = tt
follow-IsReady to_finalize s h = h
follow-IsReady to_empty s h = tt

abbrev AsksNoResult : Node → Type 0
AsksNoResult finalize = ⊥
AsksNoResult _ = Unit

at-IsReady : (node : Node) (s : State) → AsksNoResult node → IsReady (at node s)
at-IsReady triage s h = tt
at-IsReady (inspect dispatches) s h = tt
at-IsReady investigate s h = tt
at-IsReady validate s h = tt
at-IsReady repair s h = tt
at-IsReady finalize s h = absurd h
at-IsReady empty s h = tt

pick-IsReady :
    (other : Node) (dispatches : List InspectDispatch) (s : State)
    → AsksNoResult other
    → IsReady (elim dispatches [ [] ↦ at other s | d ∷ more ↦ at (inspect (d ∷ more)) s ])
pick-IsReady other [] s h = at-IsReady other s h
pick-IsReady other (d ∷ more) s h = tt

continue-IsReady :
    (r : Ran) (next : State → Position)
    → ((s : State) → IsReady (next s))
    → IsReady (continue_with r next)
continue-IsReady (ran s) next h = h s
continue-IsReady (failed error) next h = tt

plan-IsReady :
    (setup : Setup) (plan : Option TriagePlan) (s : State)
    → IsReady (elim plan [
      | none ↦ at empty s
      | some plan ↦ elim plan [ [] ↦ at empty s | a ∷ more ↦ fan_out_or empty setup (a ∷ more) s ]
    ])
plan-IsReady setup none s = tt
plan-IsReady setup (some []) s = tt
plan-IsReady setup (some (a ∷ more)) s = pick-IsReady empty (fan_out setup (a ∷ more) _ _) s tt

redispatch-IsReady :
    (setup : Setup) (redispatch : Option TriagePlan) (s : State)
    → IsReady
        (elim redispatch [ none ↦ at validate s | some plan ↦ fan_out_or validate setup plan s ])
redispatch-IsReady setup none s = tt
redispatch-IsReady setup (some plan) s = pick-IsReady validate (fan_out setup plan _ _) s tt

step-IsReady : (setup : Setup) (p : Position) → IsReady p → IsReady (step setup p)
unfolding step step_node
step-IsReady setup (at triage s) h =
    continue-IsReady (triage_node setup s) (dispatch setup)
      (λ t. unfold dispatch in plan-IsReady setup t.plan t)
step-IsReady setup (at (inspect dispatches) s) h = tt
step-IsReady setup (at investigate s) h =
    continue-IsReady (investigate_node setup s) (after_investigate setup)
      (λ t. unfold after_investigate in redispatch-IsReady setup t.redispatch t)
step-IsReady setup (at validate s) h = follow-IsReady _ (validate_node s) (validate_node-IsSound s)
step-IsReady setup (at repair s) h = continue-IsReady (repair_node setup s) (at validate) (λ t. tt)
step-IsReady setup (at finalize s) h = unfold finalize_result in h
step-IsReady setup (at empty s) h =
    unfold empty_result in
    record { grounded = tt; distinct_tasks = tt; within_maximum = omega arith }
step-IsReady setup (finished s) h = h
step-IsReady setup (broken error) h = h

run-IsReady : (setup : Setup) (fuel : ℕ) (p : Position) → IsReady p → IsReady (run setup fuel p)
unfolding run
run-IsReady setup zero p h = h
run-IsReady setup (suc fuel) p h = run-IsReady setup fuel (step setup p) (step-IsReady setup p h)

ready-FinishesSound : (p : Position) → IsReady p → FinishesSound p
ready-FinishesSound (at node s) h = tt
ready-FinishesSound (finished s) h = h
ready-FinishesSound (broken error) h = tt

-- Whatever the model answers, a run that finishes has a result, and its suggestions are about different
-- exposed tasks, rest on events that were read of them, and are no more than the maximum.
pub graph_results_sound :
    (setup : Setup) (max_suggestions tasks_scanned max_turns max_cost_usd fuel : ℕ)
    → FinishesSound (
        run setup fuel
          (at triage (initial_state max_suggestions tasks_scanned max_turns max_cost_usd)))
graph_results_sound setup max_suggestions tasks_scanned max_turns max_cost_usd fuel =
    ready-FinishesSound _ (
      run-IsReady setup fuel
        (at triage (initial_state max_suggestions tasks_scanned max_turns max_cost_usd)) tt)
