-- ===== src/RecipeGraph/Ranks.antt =====
-- How far the recipe-scan graph is from its end at most, and that each node of
-- src/tracer_agent/worker/agents/recipe_scan/nodes brings it nearer.
use tracer_agent_python.Prelude.{
  ℕ, ◌+◌, ◌*◌, ◌-◌, ◌<◌, ◌≡◌, refl, inl, inr, ◌⊎◌, leb, leb→gt, List, [], ◌∷◌, Option, none, some,
  arith, if◌then◌else◌, Bool-cases,
}
use tracer_agent_python.Budget.Lease.{AgentBudgetLease, SpendChannels, floor_then_pool_spend}
use tracer_agent_python.CleanupGraph.State.{Answer, answered, over_budget, raised}
use tracer_agent_python.CleanupGraph.Nodes.{budget_exceeded}
use tracer_agent_python.RecipeGraph.State.{
  DispatchPlan, ProbeDispatch, RecipeDraft, Message, State, Setup, Contract,
}
use tracer_agent_python.RecipeGraph.Nodes.{
  Ran, ran, failed, survey_node, investigate_node, investigated, after_investigation,
  plan_redispatch, validate_node, repair_node, repaired,
}
use tracer_agent_python.RecipeGraph.Probes.{probe_all, joined_probe, probe_node}
use tracer_agent_python.RecipeGraph.Run.{
  Node, survey, probe, investigate, validate, repair, finalize, empty, Position, at, finished,
  broken, fan_out, fan_out_or, dispatch, after_investigate, continue_with, step_node,
  route_validation,
}

-- Rounds of probes that may still be asked for.
abbrev pub rounds_left : Setup → State → ℕ
rounds_left setup s = setup.contract.max_redispatch_rounds - s.redispatch_count

-- How many steps are left at most.
abbrev pub node_rank : Setup → Node → State → ℕ
node_rank setup survey s = 7 + 2 * rounds_left setup s
node_rank setup (probe dispatches) s = 6 + 2 * rounds_left setup s
node_rank setup investigate s = 5 + 2 * rounds_left setup s
node_rank setup validate s = if s.repair_attempted then 2 else 4
node_rank setup repair s = 3
node_rank setup finalize s = 1
node_rank setup empty s = 1

abbrev pub rank : Setup → Position → ℕ
rank setup (at node s) = node_rank setup node s
rank setup (finished s reason) = 0
rank setup (broken error) = 0

probe_all-rounds :
    (setup : Setup) (dispatches : List ProbeDispatch) (s : State)
    → (probe_all setup dispatches s).redispatch_count ≡ s.redispatch_count
unfolding probe_all joined_probe
probe_all-rounds setup [] s = refl
probe_all-rounds setup (d ∷ dispatches) s =
    probe_all-rounds setup dispatches (joined_probe (probe_node setup d) s)

pick-rank :
    (setup : Setup) (other : Node) (dispatches : List ProbeDispatch) (s : State) (bound : ℕ)
    → node_rank setup other s < bound
    → 6 + 2 * rounds_left setup s < bound
    → rank setup (elim dispatches [ [] ↦ at other s | d ∷ more ↦ at (probe (d ∷ more)) s ]) < bound
pick-rank setup other [] s bound h k = h
pick-rank setup other (d ∷ more) s bound h k = k

-- What holds of the state that a node returns, if it returns one.
abbrev pub OnRan : Ran → (State → Type 0) → Type 0
OnRan (ran s) P = P s
OnRan (failed error) P = Unit

continue-rank :
    (setup : Setup) (r : Ran) (next : State → Position) (bound : ℕ) (P : State → Type 0)
    → OnRan r P
    → ((s : State) → P s → rank setup (next s) < bound)
    → 0 < bound
    → rank setup (continue_with r next) < bound
continue-rank setup (ran s) next bound P h step some_bound = step s h
continue-rank setup (failed error) next bound P h step some_bound = some_bound

plan-rank :
    (setup : Setup) (plan : Option DispatchPlan) (s : State) (bound : ℕ)
    → 6 + 2 * rounds_left setup s < bound
    → rank setup (elim plan [ none ↦ at empty s | some plan ↦ fan_out_or empty setup plan s ])
      < bound
plan-rank setup none s bound h = omega arith
plan-rank setup (some plan) s bound h =
    pick-rank setup empty (fan_out setup plan _ _) s bound (omega arith) h

dispatch-rank :
    (setup : Setup) (s : State) (bound : ℕ)
    → 6 + 2 * rounds_left setup s < bound
    → rank setup (dispatch setup s) < bound
unfolding dispatch
dispatch-rank setup s bound h = plan-rank setup s.plan s bound h

survey_node-rounds :
    (setup : Setup) (s : State) → (survey_node setup s).redispatch_count ≡ s.redispatch_count
unfolding survey_node
survey_node-rounds setup s = ground arith

pub survey-rank :
    (setup : Setup) (s : State) → rank setup (step_node setup survey s) < node_rank setup survey s
unfolding step_node
survey-rank setup s =
    dispatch-rank setup (survey_node setup s) (node_rank setup survey s)
      (omega (arith, survey_node-rounds setup s))

-- After an investigation: either no more probes are asked for, or a round was left and is taken.
abbrev HasDecided : Setup → State → State → Type 0
HasDecided setup s t =
    (t.redispatch ≡ none)
    ⊎ ((s.redispatch_count < setup.contract.max_redispatch_rounds)
        × (t.redispatch_count ≡ s.redispatch_count + 1))

-- A plan for more probes needs a round that is left.
plan_redispatch-rounds :
    (contract : Contract) (draft : RecipeDraft) (count usd turns : ℕ) (plan : DispatchPlan)
    → plan_redispatch contract draft count usd turns ≡ some (some plan)
    → count < contract.max_redispatch_rounds
unfolding plan_redispatch
plan_redispatch-rounds contract draft count usd turns plan h =
    elim (Bool-cases (leb contract.max_redispatch_rounds count)) [
      | inl full ↦ absurd (ground arith)
      | inr left ↦ omega (arith, leb→gt _ _ left)
    ]

planned-HasDecided :
    (setup : Setup) (s : State) (spend : SpendChannels) (synthesis : RecipeDraft × List Message)
    (plan : Option (Option DispatchPlan))
    → ((p : DispatchPlan)
        → plan ≡ some (some p)
        → s.redispatch_count < setup.contract.max_redispatch_rounds)
    → OnRan
        (elim plan [
          | none ↦ failed 1
          | some plan ↦ ran (after_investigation s spend synthesis plan)
        ])
        (HasDecided setup s)
unfolding after_investigation
planned-HasDecided setup s spend synthesis none h = tt
planned-HasDecided setup s spend synthesis (some none) h = inl refl
planned-HasDecided setup s spend synthesis (some (some p)) h = inr (h p refl, refl)

answered-HasDecided :
    (setup : Setup) (s : State) (floor pool : AgentBudgetLease)
    (answer : Answer (RecipeDraft × List Message))
    → OnRan
        (elim answer [
          | answered synthesis turns cost ↦ investigated setup s floor pool synthesis turns cost
          | over_budget cost ↦ failed budget_exceeded
          | raised error cost ↦ failed error
        ])
        (HasDecided setup s)
unfolding investigated
answered-HasDecided setup s floor pool (answered synthesis turns cost) =
    let spend = floor_then_pool_spend floor cost turns in
    planned-HasDecided setup s spend synthesis _ (
      plan_redispatch-rounds setup.contract synthesis.0 s.redispatch_count
        (pool.max_cost_usd - spend.pool_cost_usd) (pool.max_turns - spend.pool_turns_used))
answered-HasDecided setup s floor pool (over_budget cost) = tt
answered-HasDecided setup s floor pool (raised error cost) = tt

investigate_node-HasDecided :
    (setup : Setup) (s : State) → OnRan (investigate_node setup s) (HasDecided setup s)
unfolding investigate_node
investigate_node-HasDecided setup s = answered-HasDecided setup s _ _ _

redispatch-rank :
    (setup : Setup) (redispatch : Option DispatchPlan) (t : State) (bound : ℕ)
    → 4 < bound
    → (redispatch ≡ none) ⊎ (6 + 2 * rounds_left setup t < bound)
    → rank setup
        (elim redispatch [ none ↦ at validate t | some plan ↦ fan_out_or validate setup plan t ])
      < bound
redispatch-rank setup none t bound h k = ground arith
redispatch-rank setup (some plan) t bound h (inl e) = absurd cc
redispatch-rank setup (some plan) t bound h (inr k) =
    pick-rank setup validate (fan_out setup plan _ _) t bound (ground arith) k

pub investigate-rank :
    (setup : Setup) (s : State)
    → rank setup (step_node setup investigate s) < node_rank setup investigate s
unfolding step_node after_investigate
investigate-rank setup s =
    continue-rank setup (investigate_node setup s) (after_investigate setup)
      (node_rank setup investigate s) (HasDecided setup s) (investigate_node-HasDecided setup s)
      (λ t decided.
        redispatch-rank setup t.redispatch t (node_rank setup investigate s) (omega arith)
          (elim decided [ inl e ↦ inl e | inr (left, taken) ↦ inr (omega (arith, left, taken)) ]))
      (omega arith)

pub validate-rank :
    (setup : Setup) (s : State)
    → rank setup (step_node setup validate s) < node_rank setup validate s
unfolding step_node validate_node route_validation
validate-rank setup s = ground arith

pub repair-rank :
    (setup : Setup) (s : State) → rank setup (step_node setup repair s) < node_rank setup repair s
unfolding step_node repair_node repaired
repair-rank setup s = ground arith

pub probe-rank :
    (setup : Setup) (dispatches : List ProbeDispatch) (s : State)
    → rank setup (step_node setup (probe dispatches) s) < node_rank setup (probe dispatches) s
unfolding step_node
probe-rank setup dispatches s = omega (arith, probe_all-rounds setup dispatches s)
