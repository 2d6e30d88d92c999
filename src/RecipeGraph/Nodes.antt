-- ===== src/RecipeGraph/Nodes.antt =====
-- The nodes of src/tracer_agent/worker/agents/recipe_scan/nodes: what each does to the state, the channels' reducers
-- applied. What a node with retries answers is what its last attempt answered.
use tracer_agent_python.Prelude.{
  ℕ, ◌+◌, ◌-◌, true, ◌||◌, ◌==◌, leb, List, [], ◌∷◌, ◌++◌, any, Option, none, some, if◌then◌else◌,
}
use tracer_agent_python.Validation.Recipe.{RecipeCandidate}
use tracer_agent_python.Validation.Claims.{validate_recipe_candidates}
use tracer_agent_python.Budget.Lease.{
  AgentBudgetLease, combine_leases, SpendChannels, settle, remaining_cost_usd, remaining_turns,
  reserved_spend, floor_lease, floor_then_pool_spend,
}
use tracer_agent_python.CleanupGraph.State.{Answer, answered, over_budget, raised}
use tracer_agent_python.CleanupGraph.Nodes.{budget_exceeded}
use tracer_agent_python.RecipeGraph.State.{
  DispatchPlan, ProbeReport, RecipeDraft, empty_draft, EmptyReason, insufficient_evidence,
  generation_degraded, Message, user_prompt, repair_directive, State, merged_provenance,
  wire_provenance, Contract, dispatch_plan, is_draft, Setup, has_no,
}

-- A node returns its update, applied to the state, or raises.
pub data Ran : Type 0 where
  ran : State → Ran
  failed : ℕ → Ran

-- The `ValidationError` of an answer that its schema refuses.
abbrev pub invalid_output : ℕ
invalid_output = 1

-- `_survey_error_handler` (graph.py)
abbrev pub demoted : State → State
demoted s = record s { plan = none; empty_result_reason = some generation_degraded }

abbrev surveyed : State → DispatchPlan → ℕ → ℕ → State
surveyed s plan turns cost = record s {
  plan = some plan;
  spend = settle s.spend (reserved_spend cost turns);
}

-- `SurveyNode.run`, with the handler of its failure.
unfoldable pub survey_node : Setup → State → State
unfolding reserved_spend settle dispatch_plan
survey_node setup s =
    if setup.survey_lease.max_turns == 0
    then surveyed s [] 0 0
    else elim (setup.model.survey setup.survey_lease) [
      | answered probes turns cost ↦ elim (dispatch_plan setup.contract probes) [
        | none ↦ demoted s
        | some plan ↦ surveyed s plan turns cost
      ]
      | over_budget cost ↦ demoted s
      | raised error cost ↦ demoted s
    ]

-- `_synthesize`: without a turn in the lease the model is not called. The coordinator's tools record
-- nothing, so that the catalog stays.
unfoldable pub synthesize :
    Setup → List Message → AgentBudgetLease → Answer (RecipeDraft × List Message)
unfolding is_draft
synthesize setup prompt lease =
    if lease.max_turns == 0
    then answered (empty_draft, prompt) 0 0
    else elim (setup.model.synthesize prompt lease) [
      | answered draft turns cost ↦
          if is_draft setup.contract draft.0
          then answered draft turns cost
          else raised invalid_output cost
      | over_budget cost ↦ over_budget cost
      | raised error cost ↦ raised error cost
    ]

-- `_plan_redispatch`: none if the plan is refused.
unfoldable pub plan_redispatch : Contract → RecipeDraft → ℕ → ℕ → ℕ → Option (Option DispatchPlan)
unfolding dispatch_plan
plan_redispatch contract draft redispatch_count remaining_usd remaining =
    if has_no draft.redispatch || leb contract.max_redispatch_rounds redispatch_count
    then some none
    else if remaining_usd == 0 || remaining == 0
    then some none
    else elim (dispatch_plan contract draft.redispatch) [
      | none ↦ none
      | some plan ↦ some (some plan)
    ]

-- What an investigation leaves, with the plan for more probes; the catalog merged with itself.
unfoldable pub after_investigation :
    State → SpendChannels → RecipeDraft × List Message → Option DispatchPlan → State
unfolding settle merged_provenance
after_investigation s spend synthesis plan = record s {
  candidates = synthesis.0.recipes;
  messages = synthesis.1;
  provenance = merged_provenance s.provenance s.provenance;
  spend = settle s.spend spend;
  redispatch = plan;
  redispatch_count = elim plan [ none ↦ s.redispatch_count | some _ ↦ s.redispatch_count + 1 ];
}

unfoldable pub investigated :
    Setup → State → AgentBudgetLease → AgentBudgetLease → RecipeDraft × List Message → ℕ → ℕ → Ran
unfolding floor_then_pool_spend plan_redispatch after_investigation
investigated setup s floor pool synthesis turns cost =
    let spend = floor_then_pool_spend floor cost turns in
    elim (plan_redispatch setup.contract synthesis.0 s.redispatch_count
      (pool.max_cost_usd - spend.pool_cost_usd) (pool.max_turns - spend.pool_turns_used)) [
        | none ↦ failed invalid_output
        | some plan ↦ ran (after_investigation s spend synthesis plan)
      ]

-- `InvestigateNode.run`
unfoldable pub investigate_node : Setup → State → Ran
unfolding floor_lease remaining_turns remaining_cost_usd combine_leases synthesize investigated
investigate_node setup s =
    let floor = floor_lease s.spend setup.synthesis_floor_lease in
    let pool : AgentBudgetLease = record {
      max_turns = remaining_turns s.spend;
      max_cost_usd = remaining_cost_usd s.spend;
    } in
    elim (synthesize setup (user_prompt s.plan s.reports s.provenance ∷ [])
      (combine_leases (floor ∷ pool ∷ []))) [
        | answered synthesis turns cost ↦ investigated setup s floor pool synthesis turns cost
        | over_budget cost ↦ failed budget_exceeded
        | raised error cost ↦ failed error
      ]

-- `RepairNode._update`; the state's catalog is merged with itself.
unfoldable pub repaired : State → List RecipeCandidate → List Message → ℕ → ℕ → State
unfolding merged_provenance settle reserved_spend
repaired s candidates messages cost turns = record s {
  candidates = candidates;
  messages = messages;
  provenance = merged_provenance s.provenance s.provenance;
  repair_attempted = true;
  spend = settle s.spend (reserved_spend cost turns);
}

-- A repair that asks for more probes instead of recipes does not overwrite the candidates.
unfoldable pub kept_candidates : State → RecipeDraft → List RecipeCandidate
kept_candidates s draft = elim draft.redispatch [
  | [] ↦ draft.recipes
  | _ ∷ _ ↦ elim draft.recipes [ [] ↦ s.candidates | c ∷ cs ↦ c ∷ cs ]
]

-- `RepairNode.run`
unfoldable pub repair_node : Setup → State → Ran
unfolding synthesize repaired kept_candidates
repair_node setup s = elim s.candidates [
  | [] ↦ ran (repaired s [] s.messages 0 0)
  | c ∷ cs ↦
      elim (synthesize setup (s.messages ++ (repair_directive (c ∷ cs) s.validation_errors ∷ []))
        setup.repair_lease) [
          | answered synthesis turns cost ↦
              ran (repaired s (kept_candidates s synthesis.0) synthesis.1 cost turns)
          | over_budget cost ↦
              ran (record (repaired s [] s.messages cost setup.repair_lease.max_turns) {
                empty_result_reason = some generation_degraded;
              })
          | raised error cost ↦ failed error
        ]
]

-- `ValidateCandidateNode.validate`
unfoldable pub validate_node : Setup → State → State
unfolding validate_recipe_candidates
validate_node setup s = record s {
  validation_errors =
      validate_recipe_candidates setup.contract.max_candidates s.candidates s.task_id s.provenance;
}

-- `empty_result_reason`
unfoldable pub empty_result_reason : Contract → State → EmptyReason
empty_result_reason contract s = elim s.empty_result_reason [
  | some recorded ↦ recorded
  | none ↦
      if has_no s.validation_errors
      then if has_no s.failed_probes
        then if any (λ (r : ProbeReport). r.exhausted) s.reports
          then insufficient_evidence
          else contract.default_reason
        else generation_degraded
      else generation_degraded
]

-- `finalize_result`: the state with its result, and the reason that is recorded for an empty one.
unfoldable pub finalize_result : Setup → State → State × Option EmptyReason
unfolding wire_provenance empty_result_reason
finalize_result setup s = (
  record s {
    result = some (record { recipes = s.candidates; provenance = wire_provenance s.provenance });
  },
  if has_no s.candidates then some (empty_result_reason setup.contract s) else none,
)

-- `empty_result`
unfoldable pub empty_result : Setup → State → State × Option EmptyReason
unfolding wire_provenance empty_result_reason
empty_result setup s = (
  record s { result = some (record { recipes = []; provenance = wire_provenance s.provenance }) },
  some (empty_result_reason setup.contract s),
)
