-- ===== src/RecipeGraph/Kept.antt =====
-- What the nodes of src/tracer_agent/worker/agents/recipe_scan/nodes leave in the state.
use tracer_agent_python.Prelude.{
  ◌≡◌, refl, ◌⊎◌, inl, List, [], ◌∷◌, Option, none, some, is_some, true, arith,
}
use tracer_agent_python.Budget.Lease.{AgentBudgetLease, SpendChannels, floor_then_pool_spend}
use tracer_agent_python.CleanupGraph.State.{Answer, answered, over_budget, raised}
use tracer_agent_python.CleanupGraph.Nodes.{budget_exceeded}
use tracer_agent_python.RecipeGraph.State.{
  DispatchPlan, ProbeDispatch, RecipeDraft, generation_degraded, Message, State, Setup,
}
use tracer_agent_python.RecipeGraph.Nodes.{
  ran, failed, survey_node, investigate_node, investigated, after_investigation, repair_node,
  repaired,
}
use tracer_agent_python.RecipeGraph.Probes.{probe_all, joined_probe, probe_node}
use tracer_agent_python.RecipeGraph.Ranks.{OnRan}

-- The state is of the same request and the same plan; the reason is the same, or that of a failure.
pub record IsKept (s t : State) : Type 0 where
  pub same_task : t.task_id ≡ s.task_id
  pub same_plan : t.plan ≡ s.plan
  pub same_reason :
      (t.empty_result_reason ≡ s.empty_result_reason)
      ⊎ (t.empty_result_reason ≡ some generation_degraded)

abbrev pub kept : (s : State) → IsKept s s
kept s = record { same_task = refl; same_plan = refl; same_reason = inl refl }

pub probe_all-IsKept :
    (setup : Setup) (dispatches : List ProbeDispatch) (s : State)
    → IsKept s (probe_all setup dispatches s)
unfolding probe_all joined_probe
probe_all-IsKept setup [] s = kept s
probe_all-IsKept setup (d ∷ dispatches) s =
    let later = probe_all-IsKept setup dispatches (joined_probe (probe_node setup d) s) in
    record {
      same_task = later.same_task;
      same_plan = later.same_plan;
      same_reason = later.same_reason;
    }

planned-IsKept :
    (s : State) (spend : SpendChannels) (synthesis : RecipeDraft × List Message)
    (plan : Option (Option DispatchPlan))
    → OnRan
        (elim plan [
          | none ↦ failed 1
          | some plan ↦ ran (after_investigation s spend synthesis plan)
        ])
        (IsKept s)
unfolding after_investigation
planned-IsKept s spend synthesis none = tt
planned-IsKept s spend synthesis (some plan) = record {
  same_task = refl;
  same_plan = refl;
  same_reason = inl refl;
}

answered-IsKept :
    (setup : Setup) (s : State) (floor pool : AgentBudgetLease)
    (answer : Answer (RecipeDraft × List Message))
    → OnRan
        (elim answer [
          | answered synthesis turns cost ↦ investigated setup s floor pool synthesis turns cost
          | over_budget cost ↦ failed budget_exceeded
          | raised error cost ↦ failed error
        ])
        (IsKept s)
unfolding investigated
answered-IsKept setup s floor pool (answered synthesis turns cost) =
    planned-IsKept s (floor_then_pool_spend floor cost turns) synthesis _
answered-IsKept setup s floor pool (over_budget cost) = tt
answered-IsKept setup s floor pool (raised error cost) = tt

pub investigate_node-IsKept :
    (setup : Setup) (s : State) → OnRan (investigate_node setup s) (IsKept s)
unfolding investigate_node
investigate_node-IsKept setup s = answered-IsKept setup s _ _ _

pub repair_node-IsKept : (setup : Setup) (s : State) → OnRan (repair_node setup s) (IsKept s)
unfolding repair_node repaired
repair_node-IsKept setup s = ground arith

-- The survey leaves a plan, or the reason of a failure.
abbrev pub IsSurveyed : State → Type 0
IsSurveyed s = (is_some s.plan ≡ true) ⊎ (s.empty_result_reason ≡ some generation_degraded)

pub survey_node-task : (setup : Setup) (s : State) → (survey_node setup s).task_id ≡ s.task_id
unfolding survey_node
survey_node-task setup s = ground arith

pub survey_node-reason :
    (setup : Setup) (s : State)
    → ((survey_node setup s).empty_result_reason ≡ s.empty_result_reason)
      ⊎ ((survey_node setup s).empty_result_reason ≡ some generation_degraded)
unfolding survey_node
survey_node-reason setup s = ground arith

pub survey_node-IsSurveyed : (setup : Setup) (s : State) → IsSurveyed (survey_node setup s)
unfolding survey_node
survey_node-IsSurveyed setup s = ground arith
