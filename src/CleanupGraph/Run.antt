-- ===== src/CleanupGraph/Run.antt =====
-- The edges of src/tracer_agent/worker/agents/task_cleanup/graph.py, the validation tail and its router
-- (src/tracer_agent/worker/agents/runtime/validation_graph.py, routing.py). A step runs the node or the fan-out at a
-- position; a node that raises ends the run (what it answers is what its last attempt answered).
use tracer_agent_python.Prelude.{
  ℕ, zero, suc, Bool, true, false, List, [], ◌∷◌, ◌==◌, ◌||◌, none, some, if◌then◌else◌, map,
}
use tracer_agent_python.Budget.Lease.{
  AgentBudgetLease, fresh_spend_channels, remaining_turns, remaining_cost_usd,
}
use tracer_agent_python.Budget.Shares.{quote_shares}
use tracer_agent_python.CleanupGraph.State.{InspectAssignment, InspectDispatch, State, Setup}
use tracer_agent_python.CleanupGraph.Nodes.{
  Ran, ran, failed, triage_node, inspect_all, investigate_node, validate_node, repair_node,
  finalize_result, empty_result,
}

-- `ValidationRouteName`
pub data Route : Type 0 where
  to_repair to_finalize to_empty : Route

abbrev pub has_suggestions : State → Bool
has_suggestions s = elim s.suggestions [ [] ↦ false | _ ∷ _ ↦ true ]

-- `_with_result`
abbrev pub with_result : State → Route
with_result s = if has_suggestions s then to_finalize else to_empty

-- `route_validation`, built with `has_result=has_suggestions`
unfoldable pub route_validation : State → Route
route_validation s = elim s.validation_errors [
  | [] ↦ with_result s
  | _ ∷ _ ↦ if s.repair_attempted then with_result s else to_repair
]

pub data Node : Type 0 where
  triage : Node
  inspect : List InspectDispatch → Node
  investigate validate repair finalize empty : Node

pub data Position : Type 0 where
  at : Node → State → Position
  finished : State → Position
  broken : ℕ → Position

abbrev pub zip_dispatch : List InspectAssignment → List AgentBudgetLease → List InspectDispatch
zip_dispatch [] leases = []
zip_dispatch (a ∷ assignments) [] = []
zip_dispatch (a ∷ assignments) (lease ∷ leases) =
    record { assignment = a; lease = lease } ∷ zip_dispatch assignments leases

-- `_fan_out`
unfoldable pub fan_out : Setup → List InspectAssignment → ℕ → ℕ → List InspectDispatch
unfolding quote_shares
fan_out setup [] turns usd = []
fan_out setup (a ∷ assignments) turns usd =
    if turns == 0 || usd == 0
    then []
    else zip_dispatch (a ∷ assignments) (
        quote_shares (map (λ (i : InspectAssignment). setup.depth_share i.depth) (a ∷ assignments))
          turns usd)

abbrev pub fan_out_or : Node → Setup → List InspectAssignment → State → Position
fan_out_or other setup plan s =
    elim (fan_out setup plan (remaining_turns s.spend) (remaining_cost_usd s.spend)) [
      | [] ↦ at other s
      | d ∷ dispatches ↦ at (inspect (d ∷ dispatches)) s
    ]

-- `_dispatch`
unfoldable pub dispatch : Setup → State → Position
unfolding fan_out remaining_turns remaining_cost_usd
dispatch setup s = elim s.plan [
  | none ↦ at empty s
  | some plan ↦ elim plan [ [] ↦ at empty s | a ∷ more ↦ fan_out_or empty setup (a ∷ more) s ]
]

-- `_after_investigate`
unfoldable pub after_investigate : Setup → State → Position
unfolding fan_out remaining_turns remaining_cost_usd
after_investigate setup s = elim s.redispatch [
  | none ↦ at validate s
  | some plan ↦ fan_out_or validate setup plan s
]

abbrev pub follow : Route → Node
follow to_repair = repair
follow to_finalize = finalize
follow to_empty = empty

abbrev pub continue_with : Ran → (State → Position) → Position
continue_with (ran s) next = next s
continue_with (failed error) next = broken error

unfoldable pub step_node : Setup → Node → State → Position
unfolding triage_node inspect_all investigate_node validate_node repair_node finalize_result
    empty_result route_validation dispatch after_investigate
step_node setup triage s = continue_with (triage_node setup s) (dispatch setup)
step_node setup (inspect dispatches) s = at investigate (inspect_all setup dispatches s)
step_node setup investigate s = continue_with (investigate_node setup s) (after_investigate setup)
step_node setup validate s =
    let checked = validate_node s in at (follow (route_validation checked)) checked
step_node setup repair s = continue_with (repair_node setup s) (at validate)
step_node setup finalize s = finished (finalize_result s)
step_node setup empty s = finished (empty_result s)

unfoldable pub step : Setup → Position → Position
unfolding step_node
step setup (at node s) = step_node setup node s
step setup (finished s) = finished s
step setup (broken error) = broken error

-- Up to `fuel` steps.
unfoldable pub run : Setup → ℕ → Position → Position
unfolding step
run setup zero p = p
run setup (suc fuel) p = run setup fuel (step setup p)

-- `initial_task_cleanup_state`
unfoldable pub initial_state : ℕ → ℕ → ℕ → ℕ → State
initial_state max_suggestions tasks_scanned max_turns max_cost_usd = record {
  tasks_scanned = tasks_scanned;
  messages = [];
  plan = none;
  redispatch = none;
  redispatch_count = 0;
  reports = [];
  evidence = record {
    exposed_candidates = [];
    event_ids_by_task = [];
    max_suggestions = max_suggestions;
  };
  spend = record {
    channels = fresh_spend_channels;
    max_cost_usd = max_cost_usd;
    max_turns = max_turns;
  };
  suggestions = [];
  validation_errors = [];
  repair_attempted = false;
  result = none;
}
