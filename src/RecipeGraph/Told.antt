-- ===== src/RecipeGraph/Told.antt =====
-- What a recipe scan's state tells of the reason of an empty result:
-- src/tracer_agent/worker/agents/recipe_scan/nodes/result.py with the nodes that record a reason.
use tracer_agent_python.Prelude.{
  ℕ, zero, suc, ◌≡◌, ◌≢◌, refl, ap, sym, ◌∙◌, ◌⊎◌, inl, inr, Bool, true, false, List, [], ◌∷◌,
  Option, none, some, is_some, if◌then◌else◌, arith,
}
use tracer_agent_python.Validation.Claims.{RecipesError}
use tracer_agent_python.RecipeGraph.State.{
  ProbeName, EmptyReason, generation_degraded, DispatchPlan, ProbeDispatch, State, Setup, Contract,
  has_no,
}
use tracer_agent_python.RecipeGraph.Nodes.{
  Ran, ran, failed, survey_node, investigate_node, repair_node, validate_node, finalize_result,
  empty_result, empty_result_reason,
}
use tracer_agent_python.RecipeGraph.Run.{
  Node, survey, probe, investigate, validate, repair, finalize, empty, Position, at, finished,
  broken, fan_out, fan_out_or, dispatch, after_investigate, continue_with, step_node, step, run,
}
use tracer_agent_python.RecipeGraph.Ranks.{OnRan}
use tracer_agent_python.RecipeGraph.Kept.{
  IsKept, probe_all-IsKept, investigate_node-IsKept, repair_node-IsKept, IsSurveyed,
  survey_node-reason, survey_node-IsSurveyed,
}

-- The state tells of nothing that went wrong.
pub record IsUnharmed (s : State) : Type 0 where
  pub has_plan : is_some s.plan ≡ true
  pub not_cut_off : s.empty_result_reason ≡ none
  pub no_error : s.validation_errors ≡ []
  pub no_failed_probe : s.failed_probes ≡ []

-- A reason is recorded exactly for a result without recipes, and one other than a failure only if
-- the state tells of nothing that went wrong.
pub record IsAccounted (s : State) (recorded : Option EmptyReason) : Type 0 where
  pub told_if_empty : elim s.result as (λ x. Type 0) [
    | none ↦ ⊥
    | some r ↦ is_some recorded ≡ has_no r.recipes
  ]
  pub told_failure :
      (reason : EmptyReason) → recorded ≡ some reason → reason ≢ generation_degraded → IsUnharmed s

-- Only a failure is recorded early.
abbrev TellsFailures : State → Type 0
TellsFailures s =
    (s.empty_result_reason ≡ none) ⊎ (s.empty_result_reason ≡ some generation_degraded)

abbrev pub IsTold : Position → Type 0
IsTold (at survey s) = TellsFailures s
IsTold (at _ s) = TellsFailures s × IsSurveyed s
IsTold (finished s recorded) = IsAccounted s recorded
IsTold (broken error) = Unit

at-IsTold : (node : Node) (s : State) → TellsFailures s → IsSurveyed s → IsTold (at node s)
at-IsTold survey s h k = h
at-IsTold (probe dispatches) s h k = (h, k)
at-IsTold investigate s h k = (h, k)
at-IsTold validate s h k = (h, k)
at-IsTold repair s h k = (h, k)
at-IsTold finalize s h k = (h, k)
at-IsTold empty s h k = (h, k)

later-TellsFailures :
    (before after : Option EmptyReason)
    → (after ≡ before) ⊎ (after ≡ some generation_degraded)
    → (before ≡ none) ⊎ (before ≡ some generation_degraded)
    → (after ≡ none) ⊎ (after ≡ some generation_degraded)
later-TellsFailures before after (inl e) (inl h) = inl (e ∙ h)
later-TellsFailures before after (inl e) (inr h) = inr (e ∙ h)
later-TellsFailures before after (inr e) h = inr e

later-IsSurveyed : (s t : State) → IsKept s t → IsSurveyed s → IsSurveyed t
later-IsSurveyed s t k (inl h) = inl (ap is_some k.same_plan ∙ h)
later-IsSurveyed s t k (inr h) = elim k.same_reason [ inl e ↦ inr (e ∙ h) | inr e ↦ inr e ]

kept-IsTold :
    (node : Node) (s t : State) → IsKept s t → TellsFailures s × IsSurveyed s → IsTold (at node t)
kept-IsTold node s t k (h, surveyed) =
    at-IsTold node t (later-TellsFailures _ _ k.same_reason h) (later-IsSurveyed s t k surveyed)

pick-IsTold :
    (other : Node) (dispatches : List ProbeDispatch) (s : State)
    → TellsFailures s
    → IsSurveyed s
    → IsTold (elim dispatches [ [] ↦ at other s | d ∷ more ↦ at (probe (d ∷ more)) s ])
pick-IsTold other [] s h k = at-IsTold other s h k
pick-IsTold other (d ∷ more) s h k = (h, k)

plan-IsTold :
    (setup : Setup) (other : Node) (plan : Option DispatchPlan) (s : State)
    → TellsFailures s
    → IsSurveyed s
    → IsTold (elim plan [ none ↦ at other s | some plan ↦ fan_out_or other setup plan s ])
plan-IsTold setup other none s h k = at-IsTold other s h k
plan-IsTold setup other (some plan) s h k = pick-IsTold other (fan_out setup plan _ _) s h k

continue-IsTold :
    (s : State) (r : Ran) (next : State → Position)
    → OnRan r (IsKept s)
    → TellsFailures s × IsSurveyed s
    → ((t : State) → TellsFailures t → IsSurveyed t → IsTold (next t))
    → IsTold (continue_with r next)
continue-IsTold s (ran t) next k (h, surveyed) step =
    step t (later-TellsFailures _ _ k.same_reason h) (later-IsSurveyed s t k surveyed)
continue-IsTold s (failed error) next k h step = tt

-- A reason that is no failure is found only where nothing was recorded.
nothing_recorded :
    (recorded : Option EmptyReason) (errors : List RecipesError) (probes : List ProbeName)
    (other : EmptyReason)
    → elim recorded as (λ x. EmptyReason) [
      | some reason ↦ reason
      | none ↦
          if has_no errors
          then if has_no probes then other else generation_degraded
          else generation_degraded
    ]
      ≢ generation_degraded
    → (recorded ≡ none) ⊎ (recorded ≡ some generation_degraded)
    → (recorded ≡ none) × ((errors ≡ []) × (probes ≡ []))
nothing_recorded none [] [] other h k = (refl, (refl, refl))
nothing_recorded none [] (p ∷ probes) other h k = absurd (h refl)
nothing_recorded none (e ∷ errors) probes other h k = absurd (h refl)
nothing_recorded (some reason) errors probes other h (inl e) = absurd cc
nothing_recorded (some reason) errors probes other h (inr e) = absurd (h (cc))

plan_there : (s : State) → IsSurveyed s → s.empty_result_reason ≡ none → is_some s.plan ≡ true
plan_there s (inl h) e = h
plan_there s (inr h) e = absurd cc

reason-IsUnharmed :
    (contract : Contract) (s : State)
    → TellsFailures s × IsSurveyed s
    → empty_result_reason contract s ≢ generation_degraded
    → IsUnharmed s
unfolding empty_result_reason
reason-IsUnharmed contract s (h, surveyed) different =
    let (none_recorded, (no_error, no_failure)) =
      nothing_recorded s.empty_result_reason s.validation_errors s.failed_probes _ different h in
    record {
      has_plan = plan_there s surveyed none_recorded;
      not_cut_off = none_recorded;
      no_error = no_error;
      no_failed_probe = no_failure;
    }

abbrev reason_if : Bool → EmptyReason → Option EmptyReason
reason_if without_recipes reason = if without_recipes then some reason else none

reason_if-told : (b : Bool) (reason : EmptyReason) → is_some (reason_if b reason) ≡ b
reason_if-told b reason = ground arith

reason_if-same :
    (b : Bool) (reason other : EmptyReason) → reason_if b reason ≡ some other → reason ≡ other
reason_if-same true reason other h = cc
reason_if-same false reason other h = absurd cc

ended-IsUnharmed :
    (contract : Contract) (s : State) (without_recipes : Bool) (reason : EmptyReason)
    → TellsFailures s × IsSurveyed s
    → reason_if without_recipes (empty_result_reason contract s) ≡ some reason
    → reason ≢ generation_degraded
    → IsUnharmed s
ended-IsUnharmed contract s without_recipes reason h told different =
    reason-IsUnharmed contract s h
      (λ e. different (sym (reason_if-same without_recipes _ reason told) ∙ e))

step-IsTold : (setup : Setup) (p : Position) → IsTold p → IsTold (step setup p)
unfolding step step_node
step-IsTold setup (at survey s) h =
    unfold dispatch in
    plan-IsTold setup empty (survey_node setup s).plan (survey_node setup s)
      (later-TellsFailures _ _ (survey_node-reason setup s) h) (survey_node-IsSurveyed setup s)
step-IsTold setup (at (probe dispatches) s) h =
    kept-IsTold investigate s _ (probe_all-IsKept setup dispatches s) h
step-IsTold setup (at investigate s) h =
    continue-IsTold s (investigate_node setup s) (after_investigate setup)
      (investigate_node-IsKept setup s) h
      (λ t k surveyed.
        unfold after_investigate in plan-IsTold setup validate t.redispatch t k surveyed)
step-IsTold setup (at validate s) h =
    unfold validate_node in at-IsTold _ (validate_node setup s) h.0 h.1
step-IsTold setup (at repair s) h =
    continue-IsTold s (repair_node setup s) (at validate) (repair_node-IsKept setup s) h
      (λ t k surveyed. (k, surveyed))
step-IsTold setup (at finalize s) h =
    unfold finalize_result in
    record {
      told_if_empty = reason_if-told (has_no s.candidates) _;
      told_failure = λ reason told different.
          let clean =
            ended-IsUnharmed setup.contract s (has_no s.candidates) reason h told different in
          record {
            has_plan = clean.has_plan;
            not_cut_off = clean.not_cut_off;
            no_error = clean.no_error;
            no_failed_probe = clean.no_failed_probe;
          };
    }
step-IsTold setup (at empty s) h =
    unfold empty_result in
    record {
      told_if_empty = refl;
      told_failure = λ reason told different.
          let clean = ended-IsUnharmed setup.contract s true reason h told different in
          record {
            has_plan = clean.has_plan;
            not_cut_off = clean.not_cut_off;
            no_error = clean.no_error;
            no_failed_probe = clean.no_failed_probe;
          };
    }
step-IsTold setup (finished s recorded) h = h
step-IsTold setup (broken error) h = h

pub run-IsTold : (setup : Setup) (fuel : ℕ) (p : Position) → IsTold p → IsTold (run setup fuel p)
unfolding run
run-IsTold setup zero p h = h
run-IsTold setup (suc fuel) p h = run-IsTold setup fuel (step setup p) (step-IsTold setup p h)
