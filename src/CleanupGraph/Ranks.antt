-- ===== src/CleanupGraph/Ranks.antt =====
-- How far the task-cleanup graph is from its end at most, and that each node of
-- src/tracer_agent/worker/agents/task_cleanup/nodes brings it nearer.
use tracer_agent_python.Prelude.{
  ℕ, ◌+◌, ◌*◌, ◌-◌, ◌<◌, ◌≡◌, refl, inl, inr, ◌⊎◌, ◌==◌, ◌||◌, leb, leb→gt, true, List, [], ◌∷◌,
  Option, none, some, arith, if◌then◌else◌, Bool-cases,
}
use tracer_agent_python.Budget.Lease.{
  AgentBudgetLease, settle, reserved_spend, floor_then_pool_spend,
}
use tracer_agent_python.CleanupGraph.State.{
  InspectAssignment, split_out_of_batch, TriagePlan, CleanupDraft, Message, Answer, answered,
  over_budget, raised, InspectDispatch, State, Setup, max_redispatch_rounds,
}
use tracer_agent_python.CleanupGraph.Nodes.{
  add_evidence, budget_exceeded, Ran, ran, failed, triage_node, inspect_all, inspected,
  inspect_node, investigate_node, after_investigation, plan_redispatch, validate_node, repair_node,
  repaired,
}
use tracer_agent_python.CleanupGraph.Run.{
  Node, triage, inspect, investigate, validate, repair, finalize, empty, Position, at, finished,
  broken, fan_out, fan_out_or, dispatch, after_investigate, continue_with, step_node, step,
  route_validation,
}

-- Rounds of inspections that may still be asked for.
abbrev pub rounds_left : State → ℕ
rounds_left s = max_redispatch_rounds - s.redispatch_count

-- How many steps are left at most.
abbrev pub node_rank : Node → State → ℕ
node_rank triage s = 7 + 2 * rounds_left s
node_rank (inspect dispatches) s = 6 + 2 * rounds_left s
node_rank investigate s = 5 + 2 * rounds_left s
node_rank validate s = if s.repair_attempted then 2 else 4
node_rank repair s = 3
node_rank finalize s = 1
node_rank empty s = 1

abbrev pub rank : Position → ℕ
rank (at node s) = node_rank node s
rank (finished s) = 0
rank (broken error) = 0

inspect_all-rounds :
    (setup : Setup) (dispatches : List InspectDispatch) (s : State)
    → (inspect_all setup dispatches s).redispatch_count ≡ s.redispatch_count
unfolding inspect_all inspected
inspect_all-rounds setup [] s = refl
inspect_all-rounds setup (d ∷ dispatches) s =
    inspect_all-rounds setup dispatches (inspected (inspect_node setup d) s)

pick-rank :
    (other : Node) (dispatches : List InspectDispatch) (s : State) (bound : ℕ)
    → node_rank other s < bound
    → 6 + 2 * rounds_left s < bound
    → rank (elim dispatches [ [] ↦ at other s | d ∷ more ↦ at (inspect (d ∷ more)) s ]) < bound
pick-rank other [] s bound h k = h
pick-rank other (d ∷ more) s bound h k = k

-- What holds of the state that a node returns, if it returns one.
abbrev pub OnRan : Ran → (State → Type 0) → Type 0
OnRan (ran s) P = P s
OnRan (failed error) P = Unit

continue-rank :
    (r : Ran) (next : State → Position) (bound : ℕ) (P : State → Type 0)
    → OnRan r P
    → ((s : State) → P s → rank (next s) < bound)
    → 0 < bound
    → rank (continue_with r next) < bound
continue-rank (ran s) next bound P h step some_bound = step s h
continue-rank (failed error) next bound P h step some_bound = some_bound

plan-rank :
    (setup : Setup) (plan : Option TriagePlan) (s : State) (bound : ℕ)
    → 6 + 2 * rounds_left s < bound
    → rank (elim plan [
      | none ↦ at empty s
      | some plan ↦ elim plan [ [] ↦ at empty s | a ∷ more ↦ fan_out_or empty setup (a ∷ more) s ]
    ])
      < bound
plan-rank setup none s bound h = omega arith
plan-rank setup (some []) s bound h = omega arith
plan-rank setup (some (a ∷ more)) s bound h =
    pick-rank empty (fan_out setup (a ∷ more) _ _) s bound (omega arith) h

dispatch-rank :
    (setup : Setup) (s : State) (bound : ℕ)
    → 6 + 2 * rounds_left s < bound
    → rank (dispatch setup s) < bound
unfolding dispatch
dispatch-rank setup s bound h = plan-rank setup s.plan s bound h

triaged-rounds :
    (setup : Setup) (s : State) (answer : Answer TriagePlan)
    → OnRan
        (elim answer [
          | answered plan turns cost ↦ ran (record s {
            plan = some (split_out_of_batch plan setup.listed);
            evidence = add_evidence setup.listed [] s.evidence;
            spend = settle s.spend (reserved_spend cost turns);
          })
          | over_budget cost ↦ failed budget_exceeded
          | raised error cost ↦ failed error
        ])
        (λ t. t.redispatch_count ≡ s.redispatch_count)
triaged-rounds setup s (answered plan turns cost) = refl
triaged-rounds setup s (over_budget cost) = tt
triaged-rounds setup s (raised error cost) = tt

triage_node-rounds :
    (setup : Setup) (s : State)
    → OnRan (triage_node setup s) (λ t. t.redispatch_count ≡ s.redispatch_count)
unfolding triage_node
triage_node-rounds setup s = elim (Bool-cases (setup.triage_lease.max_turns == 0)) [
  | inl h ↦ rw h refl
  | inr h ↦ rw h (triaged-rounds setup s (setup.model.triage setup.triage_lease))
]

pub triage-rank : (setup : Setup) (s : State) → rank (step_node setup triage s) < node_rank triage s
unfolding step_node
triage-rank setup s =
    continue-rank (triage_node setup s) (dispatch setup) (node_rank triage s) _
      (triage_node-rounds setup s)
      (λ t same. dispatch-rank setup t (node_rank triage s) (omega (arith, same))) (omega arith)

no_round_left :
    (redispatch : List InspectAssignment) (count usd turns : ℕ)
    → leb max_redispatch_rounds count ≡ true
    → elim redispatch as (λ x. Option TriagePlan) [
      | [] ↦ none
      | a ∷ more ↦
          if leb max_redispatch_rounds count
          then none
          else if usd == 0 || turns == 0
          then none
          else some (a ∷ more)
    ]
      ≡ none
no_round_left [] count usd turns h = refl
no_round_left (a ∷ more) count usd turns h = rw h refl

plan_redispatch-rounds :
    (draft : CleanupDraft) (count usd turns : ℕ)
    → (plan_redispatch draft count usd turns ≡ none) ⊎ (count < max_redispatch_rounds)
unfolding plan_redispatch
plan_redispatch-rounds draft count usd turns = elim (Bool-cases (leb max_redispatch_rounds count)) [
  | inl h ↦ inl (no_round_left draft.redispatch count usd turns h)
  | inr h ↦ inr (omega (arith, leb→gt _ _ h))
]

-- After an investigation: either no more inspections are asked for, or a round was left and is taken.
abbrev HasDecided : State → State → Type 0
HasDecided s t =
    (t.redispatch ≡ none)
    ⊎ ((s.redispatch_count < max_redispatch_rounds) × (t.redispatch_count ≡ s.redispatch_count + 1))

counted :
    (count : ℕ) (plan : Option TriagePlan)
    → (plan ≡ none) ⊎ (count < max_redispatch_rounds)
    → (plan ≡ none)
      ⊎ ((count < max_redispatch_rounds)
          × (elim plan as (λ x. ℕ) [ none ↦ count | some _ ↦ count + 1 ] ≡ count + 1))
counted count plan (inl e) = inl e
counted count none (inr h) = inl refl
counted count (some plan) (inr h) = inr (h, refl)

after_investigation-HasDecided :
    (s : State) (floor pool : AgentBudgetLease) (decision : CleanupDraft × List Message)
    (turns cost : ℕ)
    → HasDecided s (after_investigation s floor pool decision turns cost)
unfolding after_investigation
after_investigation-HasDecided s floor pool decision turns cost = counted s.redispatch_count _ (
    plan_redispatch-rounds decision.0 s.redispatch_count
      (pool.max_cost_usd - (floor_then_pool_spend floor cost turns).pool_cost_usd)
      (pool.max_turns - (floor_then_pool_spend floor cost turns).pool_turns_used))

answered-HasDecided :
    (s : State) (floor pool : AgentBudgetLease) (answer : Answer (CleanupDraft × List Message))
    → OnRan
        (elim answer [
          | answered decision turns cost ↦
              ran (after_investigation s floor pool decision turns cost)
          | over_budget cost ↦ failed budget_exceeded
          | raised error cost ↦ failed error
        ])
        (HasDecided s)
answered-HasDecided s floor pool (answered decision turns cost) =
    after_investigation-HasDecided s floor pool decision turns cost
answered-HasDecided s floor pool (over_budget cost) = tt
answered-HasDecided s floor pool (raised error cost) = tt

investigate_node-HasDecided :
    (setup : Setup) (s : State) → OnRan (investigate_node setup s) (HasDecided s)
unfolding investigate_node
investigate_node-HasDecided setup s = answered-HasDecided s _ _ _

redispatch-rank :
    (setup : Setup) (redispatch : Option TriagePlan) (t : State) (bound : ℕ)
    → 4 < bound
    → (redispatch ≡ none) ⊎ (6 + 2 * rounds_left t < bound)
    → rank (elim redispatch [ none ↦ at validate t | some plan ↦ fan_out_or validate setup plan t ])
      < bound
redispatch-rank setup none t bound h k = ground arith
redispatch-rank setup (some plan) t bound h (inl e) = absurd cc
redispatch-rank setup (some plan) t bound h (inr k) =
    pick-rank validate (fan_out setup plan _ _) t bound (ground arith) k

pub investigate-rank :
    (setup : Setup) (s : State) → rank (step_node setup investigate s) < node_rank investigate s
unfolding step_node after_investigate
investigate-rank setup s =
    continue-rank (investigate_node setup s) (after_investigate setup) (node_rank investigate s)
      (HasDecided s) (investigate_node-HasDecided setup s)
      (λ t decided.
        redispatch-rank setup t.redispatch t (node_rank investigate s) (omega arith)
          (elim decided [ inl e ↦ inl e | inr (left, taken) ↦ inr (omega (arith, left, taken)) ]))
      (omega arith)

pub validate-rank :
    (setup : Setup) (s : State) → rank (step_node setup validate s) < node_rank validate s
unfolding step_node validate_node route_validation
validate-rank setup s = ground arith

pub repair-rank : (setup : Setup) (s : State) → rank (step_node setup repair s) < node_rank repair s
unfolding step_node repair_node repaired
repair-rank setup s = ground arith

pub inspect-rank :
    (setup : Setup) (dispatches : List InspectDispatch) (s : State)
    → rank (step_node setup (inspect dispatches) s) < node_rank (inspect dispatches) s
unfolding step_node
inspect-rank setup dispatches s = omega (arith, inspect_all-rounds setup dispatches s)
