-- ===== src/RecipeGraph/Run.antt =====
-- The edges of src/tracer_agent/worker/agents/recipe_scan/graph.py and the validation tail with its router
-- (src/tracer_agent/worker/agents/runtime). A step runs the node or the fan-out at a position; a node that raises
-- ends the run, except for the survey, whose error handler goes on to the empty result.
use tracer_agent_python.Prelude.{
  ℕ, zero, suc, false, not, List, [], ◌∷◌, ◌==◌, ◌||◌, Option, none, some, if◌then◌else◌, map,
  filter,
}
use tracer_agent_python.Budget.Lease.{
  AgentBudgetLease, fresh_spend_channels, remaining_turns, remaining_cost_usd,
}
use tracer_agent_python.Budget.Shares.{quote_shares}
use tracer_agent_python.CleanupGraph.Run.{Route, to_repair, to_finalize, to_empty}
use tracer_agent_python.RecipeGraph.State.{
  ProbeName, timeline, rules, repetition, ProbeAssignment, ProbeDispatch, EmptyReason, State,
  no_provenance, Setup,
}
use tracer_agent_python.RecipeGraph.Nodes.{
  Ran, ran, failed, survey_node, investigate_node, validate_node, repair_node, finalize_result,
  empty_result,
}
use tracer_agent_python.RecipeGraph.Probes.{probe_all}

-- `route_validation`, built without `has_result`.
unfoldable pub route_validation : State → Route
route_validation s = elim s.validation_errors [
  | [] ↦ to_finalize
  | _ ∷ _ ↦ if s.repair_attempted then to_empty else to_repair
]

pub data Node : Type 0 where
  survey : Node
  probe : List ProbeDispatch → Node
  investigate validate repair finalize empty : Node

pub data Position : Type 0 where
  at : Node → State → Position
  finished : State → Option EmptyReason → Position
  broken : ℕ → Position

abbrev number_of : ProbeName → ℕ
number_of timeline = 0
number_of rules = 1
number_of repetition = 2

abbrev dispatches_of :
    List ProbeAssignment → List ProbeAssignment → List AgentBudgetLease → List ProbeDispatch
dispatches_of probes [] leases = []
dispatches_of probes (a ∷ assignments) [] = []
dispatches_of probes (a ∷ assignments) (lease ∷ leases) =
    record {
      assignment = a;
      siblings =
          filter (λ (other : ProbeAssignment). not (number_of other.probe == number_of a.probe))
            probes;
      lease = lease;
    }
    ∷ dispatches_of probes assignments leases

-- `_fan_out`
unfoldable pub fan_out : Setup → List ProbeAssignment → ℕ → ℕ → List ProbeDispatch
unfolding quote_shares
fan_out setup [] turns usd = []
fan_out setup (a ∷ probes) turns usd =
    if turns == 0 || usd == 0
    then []
    else dispatches_of (a ∷ probes) (a ∷ probes) (
        quote_shares
          (map (λ (p : ProbeAssignment). setup.contract.depth_share p.depth) (a ∷ probes)) turns
          usd)

abbrev pub fan_out_or : Node → Setup → List ProbeAssignment → State → Position
fan_out_or other setup probes s =
    elim (fan_out setup probes (remaining_turns s.spend) (remaining_cost_usd s.spend)) [
      | [] ↦ at other s
      | d ∷ dispatches ↦ at (probe (d ∷ dispatches)) s
    ]

-- `_dispatch`
unfoldable pub dispatch : Setup → State → Position
unfolding fan_out remaining_turns remaining_cost_usd
dispatch setup s = elim s.plan [ none ↦ at empty s | some plan ↦ fan_out_or empty setup plan s ]

-- `_after_investigate`
unfoldable pub after_investigate : Setup → State → Position
unfolding fan_out remaining_turns remaining_cost_usd
after_investigate setup s = elim s.redispatch [
  | none ↦ at validate s
  | some plan ↦ fan_out_or validate setup plan s
]

abbrev pub follow : Route → Node
follow to_repair = repair
follow to_finalize = finalize
follow to_empty = empty

abbrev pub continue_with : Ran → (State → Position) → Position
continue_with (ran s) next = next s
continue_with (failed error) next = broken error

unfoldable pub step_node : Setup → Node → State → Position
unfolding survey_node probe_all investigate_node validate_node repair_node finalize_result
    empty_result route_validation dispatch after_investigate
step_node setup survey s = dispatch setup (survey_node setup s)
step_node setup (probe dispatches) s = at investigate (probe_all setup dispatches s)
step_node setup investigate s = continue_with (investigate_node setup s) (after_investigate setup)
step_node setup validate s =
    let checked = validate_node setup s in at (follow (route_validation checked)) checked
step_node setup repair s = continue_with (repair_node setup s) (at validate)
step_node setup finalize s = let (ended, reason) = finalize_result setup s in finished ended reason
step_node setup empty s = let (ended, reason) = empty_result setup s in finished ended reason

unfoldable pub step : Setup → Position → Position
unfolding step_node
step setup (at node s) = step_node setup node s
step setup (finished s reason) = finished s reason
step setup (broken error) = broken error

-- Up to `fuel` steps.
unfoldable pub run : Setup → ℕ → Position → Position
unfolding step
run setup zero p = p
run setup (suc fuel) p = run setup fuel (step setup p)

-- `initial_recipe_scan_state`
unfoldable pub initial_state : ℕ → ℕ → ℕ → State
initial_state task_id max_turns max_cost_usd = record {
  plan = none;
  redispatch = none;
  redispatch_count = 0;
  reports = [];
  failed_probes = [];
  task_id = task_id;
  messages = [];
  provenance = no_provenance;
  spend = record {
    channels = fresh_spend_channels;
    max_cost_usd = max_cost_usd;
    max_turns = max_turns;
  };
  candidates = [];
  validation_errors = [];
  repair_attempted = false;
  empty_result_reason = none;
  result = none;
}
