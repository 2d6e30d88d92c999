-- ===== src/RecipeGraph/State.antt =====
-- The state of src/tracer_agent/shared/agents/recipe_scan/models.py (`RecipeScanState`), the checks of its models,
-- and what the model answers. The language only stands in prompts and is left out.
use tracer_agent_python.Prelude.{
  ℕ, Bool, true, false, ◌&&◌, ◌||◌, leb, List, [], ◌∷◌, ◌++◌, length, Option, none, some,
  if◌then◌else◌,
}
use tracer_agent_python.Validation.Sets.{Dict, member, insert_once}
use tracer_agent_python.Validation.Recipe.{RecipeCandidate, ProvenanceCatalog}
use tracer_agent_python.Validation.Claims.{RecipesError}
use tracer_agent_python.Budget.Lease.{AgentBudgetLease, TurnCeilingState}
use tracer_agent_python.CleanupGraph.State.{merged_event_ids, Answer}

abbrev pub Text : Type 0
Text = List ℕ

pub data ProbeName : Type 0 where
  timeline rules repetition : ProbeName

pub record ProbeAssignment : Type 0 where
  pub probe : ProbeName
  pub depth : ℕ
  pub question : ℕ

-- `DispatchPlan`: its probes.
abbrev pub DispatchPlan : Type 0
DispatchPlan = List ProbeAssignment

pub record ProbeDispatch : Type 0 where
  pub assignment : ProbeAssignment
  pub siblings : List ProbeAssignment
  pub lease : AgentBudgetLease

pub record Excerpt : Type 0 where
  pub task_id : Text
  pub event_id : Text
  pub text : Text

pub record ProbeReport : Type 0 where
  pub probe : ProbeName
  pub verdict : Text
  pub excerpts : List Excerpt
  pub exhausted : Bool
  pub truncated : Bool

pub record RecipeDraft : Type 0 where
  pub recipes : List RecipeCandidate
  pub redispatch : List ProbeAssignment

abbrev pub empty_draft : RecipeDraft
empty_draft = record { recipes = []; redispatch = [] }

-- `EmptyResultReason`
pub data EmptyReason : Type 0 where
  no_pattern insufficient_evidence generation_degraded : EmptyReason

-- The user prompt of a synthesis, the directive of the repair, and what the model said.
pub data Message : Type 0 where
  user_prompt : Option DispatchPlan → List ProbeReport → ProvenanceCatalog → Message
  repair_directive : List RecipeCandidate → List RecipesError → Message
  said : ℕ → Message

pub record RecipeScanResult : Type 0 where
  pub recipes : List RecipeCandidate
  pub provenance : ProvenanceCatalog

pub record State : Type 0 where
  pub plan : Option DispatchPlan
  pub redispatch : Option DispatchPlan
  pub redispatch_count : ℕ
  pub reports : List ProbeReport
  pub failed_probes : List ProbeName
  pub task_id : ℕ
  pub messages : List Message
  pub provenance : ProvenanceCatalog
  pub spend : TurnCeilingState
  pub candidates : List RecipeCandidate
  pub validation_errors : List RecipesError
  pub repair_attempted : Bool
  pub empty_result_reason : Option EmptyReason
  pub result : Option RecipeScanResult

abbrev pub no_provenance : ProvenanceCatalog
no_provenance = record {
  event_ids_by_task = [];
  turn_ids_by_task = [];
  rule_ids = [];
  recipe_revs = [];
}

unfoldable pub merged_provenance : ProvenanceCatalog → ProvenanceCatalog → ProvenanceCatalog
unfolding merged_event_ids
merged_provenance left right = record {
  event_ids_by_task = merged_event_ids left.event_ids_by_task right.event_ids_by_task;
  turn_ids_by_task = merged_event_ids left.turn_ids_by_task right.turn_ids_by_task;
  rule_ids = left.rule_ids ++ right.rule_ids;
  recipe_revs = right.recipe_revs ++ left.recipe_revs;
}

-- `sorted` of a set.
unfoldable pub sorted_set : List ℕ → List ℕ
unfolding insert_once
sorted_set [] = []
sorted_set (x ∷ xs) = insert_once x (sorted_set xs)

abbrev pub sorted_sets : Dict (List ℕ) → Dict (List ℕ)
sorted_sets [] = []
sorted_sets ((key, s) ∷ entries) = (key, sorted_set s) ∷ sorted_sets entries

-- `wire_provenance` (nodes/result.py)
unfoldable pub wire_provenance : ProvenanceCatalog → ProvenanceCatalog
unfolding sorted_set
wire_provenance catalog = record {
  event_ids_by_task = sorted_sets catalog.event_ids_by_task;
  turn_ids_by_task = sorted_sets catalog.turn_ids_by_task;
  rule_ids = sorted_set catalog.rule_ids;
  recipe_revs = catalog.recipe_revs;
}

-- The contract's limits (tool.json), the sentence for a worker that failed with a reason, the field
-- that names a slot (dispatch.plan.json), the share of a depth and the default reason; and which
-- characters `str.strip` removes.
pub record Contract : Type 0 where
  pub max_candidates : ℕ
  pub max_dispatch_probes : ℕ
  pub max_redispatch_rounds : ℕ
  pub max_redispatch_probes : ℕ
  pub max_excerpts : ℕ
  pub max_excerpt_chars : ℕ
  pub max_verdict_chars : ℕ
  pub worker_failed : Text → Text
  pub no_turns_allocated : Text
  pub slot_of : ProbeAssignment → ℕ
  pub depth_share : ℕ → ℕ
  pub default_reason : EmptyReason
  pub is_space : ℕ → Bool

-- `duplicate_slots`, after the slots that were seen.
unfoldable pub duplicate_slots : Contract → List ProbeAssignment → List ℕ → List ℕ
unfolding member
duplicate_slots contract [] seen = []
duplicate_slots contract (a ∷ assignments) seen =
    let slot = contract.slot_of a in
    let rest = duplicate_slots contract assignments (slot ∷ seen) in
    if member slot seen then slot ∷ rest else rest

abbrev pub has_no {ℓ} : {A : Type ℓ} → List A → Bool
has_no [] = true
has_no (x ∷ xs) = false

-- `DispatchPlan(probes=…)`, which refuses too many probes and a slot that is taken twice.
unfoldable pub dispatch_plan : Contract → List ProbeAssignment → Option DispatchPlan
unfolding duplicate_slots
dispatch_plan contract probes =
    if leb (length probes) contract.max_dispatch_probes
      && has_no (duplicate_slots contract probes [])
    then some probes
    else none

-- The checks of `RecipeDraft`.
unfoldable pub is_draft : Contract → RecipeDraft → Bool
unfolding duplicate_slots
is_draft contract draft =
    leb (length draft.recipes) contract.max_candidates
    && (leb (length draft.redispatch) contract.max_redispatch_probes
        && ((has_no draft.recipes || has_no draft.redispatch)
            && has_no (duplicate_slots contract draft.redispatch [])))

pub record RawExcerpt : Type 0 where
  pub raw_task_id : Option Text
  pub raw_event_id : Option Text
  pub raw_text : Option Text

-- A rejected report of a probe, as the exception has it: a text field that is missing or is no text
-- is none, and so is an excerpt that is no mapping.
pub record RawReport : Type 0 where
  pub raw_verdict : Option Text
  pub raw_excerpts : Option (List (Option RawExcerpt))
  pub raw_exhausted : Bool

-- What a probe's call comes to: a report with the turns that it took, or an exception with its
-- summary and the output that the schema rejected, if that is why; each with the dollars.
pub data ProbeAnswer : Type 0 where
  reported : ProbeReport → ℕ → ℕ → ProbeAnswer
  stopped : Text → Option RawReport → ℕ → ProbeAnswer

-- `deps.invoke` for each node. A probe's tools record what they return, also if the call fails; the
-- coordinator has no tools that record.
pub record Model : Type 0 where
  pub survey : AgentBudgetLease → Answer (List ProbeAssignment)
  pub probe : ProbeDispatch → ProbeAnswer × ProvenanceCatalog
  pub synthesize : List Message → AgentBudgetLease → Answer (RecipeDraft × List Message)

-- What an execution is composed with (`RecipeScanJob.compose`).
pub record Setup : Type 0 where
  pub model : Model
  pub contract : Contract
  pub survey_lease : AgentBudgetLease
  pub synthesis_floor_lease : AgentBudgetLease
  pub repair_lease : AgentBudgetLease
