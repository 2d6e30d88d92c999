-- ===== src/CleanupGraph/Nodes.antt =====
-- The nodes of src/tracer_agent/worker/agents/task_cleanup/nodes (inspect.py, decision.py, result.py): what each does
-- to the state. The channels' reducers are applied here: spending adds up, reports are appended,
-- candidates and events are merged.
use tracer_agent_python.Prelude.{
  ℕ, ◌+◌, ◌-◌, true, false, ◌||◌, ◌==◌, leb, List, [], ◌∷◌, ◌++◌, Option, none, some, if◌then◌else◌,
}
use tracer_agent_python.Validation.Sets.{Dict}
use tracer_agent_python.Validation.Cleanup.{
  CleanupCandidate, CleanupSuggestion, TaskCleanupState, filter_valid_suggestions,
}
use tracer_agent_python.Budget.Lease.{
  AgentBudgetLease, combine_leases, SpendChannels, settle, remaining_cost_usd, remaining_turns,
  reserved_spend, pool_spend, floor_lease, floor_then_pool_spend,
}
use tracer_agent_python.CleanupGraph.State.{
  TriagePlan, no_turns_allocated, worker_failed, InspectReport, InspectDispatch, CleanupDraft,
  Message, user_prompt, repair_directive, State, Answer, answered, over_budget, raised, Setup,
  merged_candidates, merged_event_ids, split_out_of_batch, max_redispatch_rounds,
}

-- A node returns its update, applied to the state, or raises.
pub data Ran : Type 0 where
  ran : State → Ran
  failed : ℕ → Ran

-- `BudgetExceeded`, as the exception that ends a run.
abbrev pub budget_exceeded : ℕ
budget_exceeded = 0

-- The update of the channels `exposed_candidates` and `event_ids_by_task`.
unfoldable pub add_evidence :
    Dict CleanupCandidate → Dict (List ℕ) → TaskCleanupState → TaskCleanupState
unfolding merged_candidates merged_event_ids
add_evidence exposed events state = record state {
  exposed_candidates = merged_candidates state.exposed_candidates exposed;
  event_ids_by_task = merged_event_ids state.event_ids_by_task events;
}

-- `TriageNode.run`
unfoldable pub triage_node : Setup → State → Ran
unfolding add_evidence reserved_spend settle split_out_of_batch
triage_node setup s =
    if setup.triage_lease.max_turns == 0
    then ran (record s { plan = some []; spend = settle s.spend (reserved_spend 0 0) })
    else elim (setup.model.triage setup.triage_lease) [
      | answered plan turns cost ↦ ran (record s {
        plan = some (split_out_of_batch plan setup.listed);
        evidence = add_evidence setup.listed [] s.evidence;
        spend = settle s.spend (reserved_spend cost turns);
      })
      | over_budget cost ↦ failed budget_exceeded
      | raised error cost ↦ failed error
    ]

pub record InspectUpdate : Type 0 where
  pub report : InspectReport
  pub read_events : Dict (List ℕ)
  pub inspect_spend : SpendChannels

unfoldable pub failed_report : ℕ → ℕ → InspectReport
failed_report task error = record {
  task_id = task;
  archivable = false;
  reason = worker_failed error;
  cited_event_ids = [];
}

-- `InspectNode.run`: no exception of the reviewer gets out; a call that failed counts all its turns.
unfoldable pub inspect_node : Setup → InspectDispatch → InspectUpdate
unfolding pool_spend failed_report
inspect_node setup d =
    let task = d.assignment.task_id in
    if d.lease.max_turns == 0
    then record {
      report = record {
        task_id = task;
        archivable = false;
        reason = no_turns_allocated;
        cited_event_ids = [];
      };
      read_events = [];
      inspect_spend = pool_spend 0 0;
    }
    else (let (answer, events) = setup.model.inspect task d.lease in
        elim answer [
          | answered report turns cost ↦ record {
            report = report;
            read_events = events;
            inspect_spend = pool_spend cost turns;
          }
          | over_budget cost ↦ record {
            report = failed_report task budget_exceeded;
            read_events = events;
            inspect_spend = pool_spend cost d.lease.max_turns;
          }
          | raised error cost ↦ record {
            report = failed_report task error;
            read_events = events;
            inspect_spend = pool_spend cost d.lease.max_turns;
          }
        ])

unfoldable pub inspected : InspectUpdate → State → State
unfolding add_evidence settle
inspected u s = record s {
  reports = s.reports ++ (u.report ∷ []);
  evidence = add_evidence [] u.read_events s.evidence;
  spend = settle s.spend u.inspect_spend;
}

-- The reviewers of one fan-out: their updates reach the state in the order of the dispatches.
unfoldable pub inspect_all : Setup → List InspectDispatch → State → State
unfolding inspect_node inspected
inspect_all setup [] s = s
inspect_all setup (d ∷ dispatches) s =
    inspect_all setup dispatches (inspected (inspect_node setup d) s)

-- `_plan_redispatch`
unfoldable pub plan_redispatch : CleanupDraft → ℕ → ℕ → ℕ → Option TriagePlan
plan_redispatch draft redispatch_count remaining_usd remaining = elim draft.redispatch [
  | [] ↦ none
  | a ∷ more ↦
      if leb max_redispatch_rounds redispatch_count
      then none
      else if remaining_usd == 0 || remaining == 0
      then none
      else some (a ∷ more)
]

abbrev pub empty_draft : CleanupDraft
empty_draft = record { suggestions = []; redispatch = [] }

-- `_decide`: without a turn in the lease the model is not called.
unfoldable pub decide :
    Setup → List Message → AgentBudgetLease → Answer (CleanupDraft × List Message)
decide setup prompt lease =
    if lease.max_turns == 0
    then answered (empty_draft, prompt) 0 0
    else setup.model.decide prompt lease

-- What the investigation and the repair write on every path: their evidence again, and their spending.
unfoldable pub after_investigation :
    State → AgentBudgetLease → AgentBudgetLease → CleanupDraft × List Message → ℕ → ℕ → State
unfolding floor_then_pool_spend settle add_evidence plan_redispatch
after_investigation s floor pool decision turns cost =
    let draft = decision.0 in
    let spend = floor_then_pool_spend floor cost turns in
    let plan =
      plan_redispatch draft s.redispatch_count (pool.max_cost_usd - spend.pool_cost_usd)
        (pool.max_turns - spend.pool_turns_used) in
    record s {
      suggestions = draft.suggestions;
      messages = decision.1;
      evidence = add_evidence s.evidence.exposed_candidates s.evidence.event_ids_by_task s.evidence;
      spend = settle s.spend spend;
      redispatch = plan;
      redispatch_count = elim plan [ none ↦ s.redispatch_count | some _ ↦ s.redispatch_count + 1 ];
    }

-- `InvestigateNode.run`
unfoldable pub investigate_node : Setup → State → Ran
unfolding floor_lease remaining_turns remaining_cost_usd combine_leases decide after_investigation
investigate_node setup s =
    let floor = floor_lease s.spend setup.decision_floor_lease in
    let pool : AgentBudgetLease = record {
      max_turns = remaining_turns s.spend;
      max_cost_usd = remaining_cost_usd s.spend;
    } in
    let lease = combine_leases (floor ∷ pool ∷ []) in
    elim (decide setup (user_prompt s.reports ∷ []) lease) [
      | answered decision turns cost ↦ ran (after_investigation s floor pool decision turns cost)
      | over_budget cost ↦ failed budget_exceeded
      | raised error cost ↦ failed error
    ]

-- `RepairNode._update`
unfoldable pub repaired : State → List CleanupSuggestion → List Message → ℕ → ℕ → State
unfolding add_evidence settle reserved_spend
repaired s suggestions messages cost turns = record s {
  suggestions = suggestions;
  messages = messages;
  evidence = add_evidence s.evidence.exposed_candidates s.evidence.event_ids_by_task s.evidence;
  repair_attempted = true;
  spend = settle s.spend (reserved_spend cost turns);
}

-- A repair that asks for more inspections instead of suggestions does not overwrite them.
unfoldable pub kept_suggestions : State → CleanupDraft → List CleanupSuggestion
kept_suggestions s draft = elim draft.redispatch [
  | [] ↦ draft.suggestions
  | _ ∷ _ ↦ elim draft.suggestions [ [] ↦ s.suggestions | d ∷ ds ↦ d ∷ ds ]
]

-- `RepairNode.run`
unfoldable pub repair_node : Setup → State → Ran
unfolding decide repaired kept_suggestions
repair_node setup s =
    elim (decide setup (s.messages ++ (repair_directive s.validation_errors ∷ []))
      setup.repair_lease) [
        | answered decision turns cost ↦
            ran (repaired s (kept_suggestions s decision.0) decision.1 cost turns)
        | over_budget cost ↦
            ran (repaired s s.suggestions s.messages cost setup.repair_lease.max_turns)
        | raised error cost ↦ failed error
      ]

-- `ValidateDecisionsNode.validate`
unfoldable pub validate_node : State → State
unfolding filter_valid_suggestions
validate_node s =
    let (valid, errors) = filter_valid_suggestions s.suggestions s.evidence in
    record s { suggestions = valid; validation_errors = errors }

unfoldable pub finalize_result : State → State
finalize_result s = record s {
  result =
      some (record { result_suggestions = s.suggestions; result_tasks_scanned = s.tasks_scanned });
}

unfoldable pub empty_result : State → State
empty_result s = record s {
  result = some (record { result_suggestions = []; result_tasks_scanned = s.tasks_scanned });
}
