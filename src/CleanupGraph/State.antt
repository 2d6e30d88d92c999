-- ===== src/CleanupGraph/State.antt =====
-- The state of src/tracer_agent/shared/agents/task_cleanup/models.py (`TaskCleanupState`) and what the model answers.
-- The scan time and the language only stand in prompts and are left out.
use tracer_agent_python.Prelude.{ℕ, Bool, Option, List, [], ◌∷◌, ◌++◌, filter}
use tracer_agent_python.Validation.Sets.{Dict, has_key}
use tracer_agent_python.Validation.Recipe.{add_events}
use tracer_agent_python.Validation.Cleanup.{
  CleanupCandidate, CleanupSuggestion, TaskCleanupState, CleanupError,
}
use tracer_agent_python.Budget.Lease.{AgentBudgetLease, TurnCeilingState}

pub record InspectAssignment : Type 0 where
  pub task_id : ℕ
  pub depth : ℕ

-- `TriagePlan`: its assignments.
abbrev pub TriagePlan : Type 0
TriagePlan = List InspectAssignment

-- Why a reviewer says what it says: its own words, no turns, or the exception that stopped it.
pub data Reason : Type 0 where
  own_words : ℕ → Reason
  no_turns_allocated : Reason
  worker_failed : ℕ → Reason

pub record InspectReport : Type 0 where
  pub task_id : ℕ
  pub archivable : Bool
  pub reason : Reason
  pub cited_event_ids : List ℕ

pub record InspectDispatch : Type 0 where
  pub assignment : InspectAssignment
  pub lease : AgentBudgetLease

pub record CleanupDraft : Type 0 where
  pub suggestions : List CleanupSuggestion
  pub redispatch : List InspectAssignment

-- The user prompt of the decision, the repair directive, and what the model or a tool said.
pub data Message : Type 0 where
  user_prompt : List InspectReport → Message
  repair_directive : List CleanupError → Message
  said : ℕ → Message

pub record CleanupResult : Type 0 where
  pub result_suggestions : List CleanupSuggestion
  pub result_tasks_scanned : ℕ

pub record State : Type 0 where
  pub tasks_scanned : ℕ
  pub messages : List Message
  pub plan : Option TriagePlan
  pub redispatch : Option TriagePlan
  pub redispatch_count : ℕ
  pub reports : List InspectReport
  pub evidence : TaskCleanupState
  pub spend : TurnCeilingState
  pub suggestions : List CleanupSuggestion
  pub validation_errors : List CleanupError
  pub repair_attempted : Bool
  pub result : Option CleanupResult

-- What a call of the model comes to: a value with the turns that it took, a `BudgetExceeded` or
-- another exception, each with the dollars that it cost.
pub data Answer (A : Type 0) : Type 0 where
  answered : A → ℕ → ℕ → Answer A
  over_budget : ℕ → Answer A
  raised : ℕ → ℕ → Answer A

-- `deps.invoke` for each node: what it reads is its argument. A reviewer's tools record the events
-- that they returned, whether the call succeeds or not.
pub record Model : Type 0 where
  pub triage : AgentBudgetLease → Answer TriagePlan
  pub inspect : ℕ → AgentBudgetLease → Answer InspectReport × Dict (List ℕ)
  pub decide : List Message → AgentBudgetLease → Answer (CleanupDraft × List Message)

-- What an execution is composed with: the reserved leases, the candidates of the request's batch
-- that the triage prompt lists, and the contract's share of a depth.
pub record Setup : Type 0 where
  pub model : Model
  pub triage_lease : AgentBudgetLease
  pub decision_floor_lease : AgentBudgetLease
  pub repair_lease : AgentBudgetLease
  pub listed : Dict CleanupCandidate
  pub depth_share : ℕ → ℕ

-- `{**left, **right}`
unfoldable pub merged_candidates :
    Dict CleanupCandidate → Dict CleanupCandidate → Dict CleanupCandidate
merged_candidates left right = right ++ left

unfoldable pub merged_event_ids : Dict (List ℕ) → Dict (List ℕ) → Dict (List ℕ)
unfolding add_events
merged_event_ids left [] = left
merged_event_ids left ((task, events) ∷ right) =
    merged_event_ids (add_events task events left) right

-- `split_out_of_batch`: the assignments that stay.
unfoldable pub split_out_of_batch : TriagePlan → Dict CleanupCandidate → TriagePlan
unfolding has_key
split_out_of_batch plan exposed = filter (λ (a : InspectAssignment). has_key a.task_id exposed) plan

-- `MAX_REDISPATCH_ROUNDS`
abbrev pub max_redispatch_rounds : ℕ
max_redispatch_rounds = 1
