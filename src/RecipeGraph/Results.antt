-- ===== src/RecipeGraph/Results.antt =====
-- What the recipe-scan graph results in: src/tracer_agent/worker/agents/recipe_scan (graph.py, policy.py).
use tracer_agent_python.Prelude.{
  ℕ, zero, suc, ◌≡◌, ◌≤◌, refl, ◌∙◌, List, [], ◌∷◌, Option, none, some, All, length, if◌then◌else◌,
  arith,
}
use tracer_agent_python.Validation.Recipe.{RecipeCandidate, ProvenanceCatalog}
use tracer_agent_python.Validation.Provenance.{IsProvenanced}
use tracer_agent_python.Validation.Claims.{
  RecipesError, validate_recipe_candidates, IsExclusive, validate_candidates_sound,
}
use tracer_agent_python.CleanupGraph.Run.{to_repair, to_finalize, to_empty}
use tracer_agent_python.RecipeGraph.State.{DispatchPlan, ProbeDispatch, State, Setup}
use tracer_agent_python.RecipeGraph.Nodes.{
  Ran, ran, failed, survey_node, investigate_node, repair_node, validate_node, finalize_result,
  empty_result,
}
use tracer_agent_python.RecipeGraph.Run.{
  Node, survey, probe, investigate, validate, repair, finalize, empty, Position, at, finished,
  broken, fan_out, fan_out_or, dispatch, after_investigate, continue_with, step_node, step, run,
  route_validation, follow, initial_state,
}
use tracer_agent_python.RecipeGraph.Ranks.{OnRan}
use tracer_agent_python.RecipeGraph.Kept.{
  IsKept, probe_all-IsKept, investigate_node-IsKept, repair_node-IsKept, survey_node-task,
}

-- At most as many recipes as allowed, each of which cites only what was collected and an event of the
-- anchor task, and no turn that another cites.
pub record IsSound (max_candidates anchor : ℕ) (recipes : List RecipeCandidate)
    (provenance : ProvenanceCatalog) : Type 0 where
  pub within_maximum : length recipes ≤ max_candidates
  pub provenanced : All (λ c. IsProvenanced c anchor provenance) recipes
  pub exclusive : IsExclusive recipes

abbrev pub HasSoundResult : Setup → ℕ → State → Type 0
HasSoundResult setup anchor s = elim s.result [
  | none ↦ ⊥
  | some r ↦ IsSound setup.contract.max_candidates anchor r.recipes s.provenance
]

-- The run has not finished, or with a sound result.
abbrev pub FinishesSound : Setup → ℕ → Position → Type 0
FinishesSound setup anchor (at node s) = Unit
FinishesSound setup anchor (finished s reason) = HasSoundResult setup anchor s
FinishesSound setup anchor (broken error) = Unit

-- The state is about the anchor, and at the final node its candidates have no fault.
abbrev IsReady : Setup → ℕ → Position → Type 0
IsReady setup anchor (at finalize s) =
    (s.task_id ≡ anchor)
    × (validate_recipe_candidates setup.contract.max_candidates s.candidates s.task_id s.provenance
        ≡ [])
IsReady setup anchor (at _ s) = s.task_id ≡ anchor
IsReady setup anchor (finished s reason) = HasSoundResult setup anchor s
IsReady setup anchor (broken error) = Unit

-- A node other than the final one.
abbrev GoesOn : Node → Type 0
GoesOn finalize = ⊥
GoesOn _ = Unit

at-IsReady :
    (setup : Setup) (anchor : ℕ) (node : Node) (s : State)
    → GoesOn node
    → s.task_id ≡ anchor
    → IsReady setup anchor (at node s)
at-IsReady setup anchor survey s g h = h
at-IsReady setup anchor (probe dispatches) s g h = h
at-IsReady setup anchor investigate s g h = h
at-IsReady setup anchor validate s g h = h
at-IsReady setup anchor repair s g h = h
at-IsReady setup anchor finalize s g h = absurd g
at-IsReady setup anchor empty s g h = h

pick-IsReady :
    (setup : Setup) (anchor : ℕ) (other : Node) (dispatches : List ProbeDispatch) (s : State)
    → GoesOn other
    → s.task_id ≡ anchor
    → IsReady setup anchor
        (elim dispatches [ [] ↦ at other s | d ∷ more ↦ at (probe (d ∷ more)) s ])
pick-IsReady setup anchor other [] s g h = at-IsReady setup anchor other s g h
pick-IsReady setup anchor other (d ∷ more) s g h = h

plan-IsReady :
    (setup : Setup) (anchor : ℕ) (other : Node) (plan : Option DispatchPlan) (s : State)
    → GoesOn other
    → s.task_id ≡ anchor
    → IsReady setup anchor
        (elim plan [ none ↦ at other s | some plan ↦ fan_out_or other setup plan s ])
plan-IsReady setup anchor other none s g h = at-IsReady setup anchor other s g h
plan-IsReady setup anchor other (some plan) s g h =
    pick-IsReady setup anchor other (fan_out setup plan _ _) s g h

continue-IsReady :
    (setup : Setup) (anchor : ℕ) (s : State) (r : Ran) (next : State → Position)
    → OnRan r (IsKept s)
    → s.task_id ≡ anchor
    → ((t : State) → t.task_id ≡ anchor → IsReady setup anchor (next t))
    → IsReady setup anchor (continue_with r next)
continue-IsReady setup anchor s (ran t) next same h step = step t (same.same_task ∙ h)
continue-IsReady setup anchor s (failed error) next same h step = tt

route-IsReady :
    (setup : Setup) (anchor : ℕ) (errors : List RecipesError) (s : State)
    → s.task_id ≡ anchor
    → (errors ≡ []
        → validate_recipe_candidates setup.contract.max_candidates s.candidates s.task_id
            s.provenance
          ≡ [])
    → IsReady setup anchor (
        at
          (follow (elim errors [
            | [] ↦ to_finalize
            | _ ∷ _ ↦ if s.repair_attempted then to_empty else to_repair
          ]))
          s)
route-IsReady setup anchor [] s h clean = (h, clean refl)
route-IsReady setup anchor (e ∷ errors) s h clean = ground arith

final-IsSound :
    (setup : Setup) (anchor : ℕ) (s : State)
    → IsReady setup anchor (at finalize s)
    → IsSound setup.contract.max_candidates anchor s.candidates s.provenance
final-IsSound setup anchor s (same, clean) =
    let (few, (cited, exclusive)) =
      validate_candidates_sound setup.contract.max_candidates s.candidates s.task_id s.provenance
        clean in
    record { within_maximum = few; provenanced = rw same at cited; exclusive = exclusive }

step-IsReady :
    (setup : Setup) (anchor : ℕ) (p : Position)
    → IsReady setup anchor p
    → IsReady setup anchor (step setup p)
unfolding step step_node
step-IsReady setup anchor (at survey s) h =
    unfold dispatch in
    plan-IsReady setup anchor empty (survey_node setup s).plan (survey_node setup s) tt
      (survey_node-task setup s ∙ h)
step-IsReady setup anchor (at (probe dispatches) s) h =
    (probe_all-IsKept setup dispatches s).same_task ∙ h
step-IsReady setup anchor (at investigate s) h =
    continue-IsReady setup anchor s (investigate_node setup s) (after_investigate setup)
      (investigate_node-IsKept setup s) h
      (λ t k. unfold after_investigate in plan-IsReady setup anchor validate t.redispatch t tt k)
step-IsReady setup anchor (at validate s) h =
    unfold route_validation validate_node in
    route-IsReady setup anchor _ (validate_node setup s) h (λ e. e)
step-IsReady setup anchor (at repair s) h =
    continue-IsReady setup anchor s (repair_node setup s) (at validate) (repair_node-IsKept setup s)
      h (λ t k. k)
step-IsReady setup anchor (at finalize s) h =
    unfold finalize_result in final-IsSound setup anchor s h
step-IsReady setup anchor (at empty s) h =
    unfold empty_result in record { within_maximum = omega arith; provenanced = tt; exclusive = tt }
step-IsReady setup anchor (finished s reason) h = h
step-IsReady setup anchor (broken error) h = h

run-IsReady :
    (setup : Setup) (anchor fuel : ℕ) (p : Position)
    → IsReady setup anchor p
    → IsReady setup anchor (run setup fuel p)
unfolding run
run-IsReady setup anchor zero p h = h
run-IsReady setup anchor (suc fuel) p h =
    run-IsReady setup anchor fuel (step setup p) (step-IsReady setup anchor p h)

ready-FinishesSound :
    (setup : Setup) (anchor : ℕ) (p : Position)
    → IsReady setup anchor p
    → FinishesSound setup anchor p
ready-FinishesSound setup anchor (at node s) h = tt
ready-FinishesSound setup anchor (finished s reason) h = h
ready-FinishesSound setup anchor (broken error) h = tt

-- Whatever the model answers, a recipe scan that finishes has a result with at most as many recipes as the
-- contract allows; each recipe cites only what the run collected and an event of the task that was asked
-- for, and no turn is cited by two of them.
pub scan_results_sound :
    (setup : Setup) (task_id max_turns max_cost_usd fuel : ℕ)
    → FinishesSound setup task_id
        (run setup fuel (at survey (initial_state task_id max_turns max_cost_usd)))
unfolding initial_state
scan_results_sound setup task_id max_turns max_cost_usd fuel =
    ready-FinishesSound setup task_id _ (
      run-IsReady setup task_id fuel (at survey (initial_state task_id max_turns max_cost_usd))
        refl)
