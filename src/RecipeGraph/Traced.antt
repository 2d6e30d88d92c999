-- ===== src/RecipeGraph/Traced.antt =====
-- A recipe scan's state tells what went wrong on the way to it: the nodes of
-- src/tracer_agent/worker/agents/recipe_scan/nodes along the edges of graph.py there.
use tracer_agent_python.Prelude.{
  ℕ, zero, suc, ◌≡◌, refl, ◌∙◌, ◌⊎◌, inl, inr, Bool, true, false, ◌||◌, List, [], ◌∷◌, any, Option,
  none, some, arith,
}
use tracer_agent_python.RecipeGraph.State.{DispatchPlan, ProbeDispatch, State, Setup}
use tracer_agent_python.RecipeGraph.Probes.{probe_all, joined_probe, probe_node}
use tracer_agent_python.RecipeGraph.Nodes.{
  Ran, ran, failed, survey_node, investigate_node, repair_node, validate_node, finalize_result,
  empty_result,
}
use tracer_agent_python.RecipeGraph.Run.{
  Node, survey, probe, investigate, validate, repair, finalize, empty, Position, at, finished,
  broken, fan_out, fan_out_or, dispatch, after_investigate, continue_with, step_node, step, run,
}
use tracer_agent_python.RecipeGraph.Ranks.{OnRan}
use tracer_agent_python.RecipeGraph.Mishaps.{
  Trace, survey_fails, probe_fails, repair_fails, seen, trace, Tells, Carries, append-filled_right,
  survey_node-Carries, survey_node-Tells, joined_probe-Carries, probe_node-failed,
  repair_node-Carries, repair_node-Tells, investigate_node-Carries,
}

-- The state tells of what was seen to go wrong, and has the errors of the last validation.
abbrev pub Marks : Trace → State → Type 0
Marks tr s = (tr.harmed ≡ true → Tells s) × (s.validation_errors ≡ tr.errors)

abbrev pub MarksAt : Trace → Position → Type 0
MarksAt tr (at node s) = Marks tr s
MarksAt tr (finished s recorded) = Marks tr s
MarksAt tr (broken error) = Unit

or-parts : (a b : Bool) → (a || b) ≡ true → (a ≡ true) ⊎ (b ≡ true)
or-parts true b h = inl refl
or-parts false b h = inr h

carried : (tr : Trace) (s t : State) → Carries s t → Marks tr s → Marks tr t
carried tr s t c h = ((λ e. c.still_tells (h.0 e)), c.same_errors ∙ h.1)

-- The next state tells of what went wrong in the step as well.
marked :
    (tr : Trace) (s t : State) (harm : Bool)
    → Carries s t
    → (harm ≡ true → Tells t)
    → Marks tr s
    → Marks (record tr { harmed = tr.harmed || harm }) t
marked tr s t harm c tells h = (
  (λ e. elim (or-parts tr.harmed harm e) [ inl k ↦ c.still_tells (h.0 k) | inr k ↦ tells k ]),
  c.same_errors ∙ h.1,
)

marked_ran :
    (tr : Trace) (s : State) (r : Ran) (harm : Bool)
    → OnRan r (Carries s)
    → (harm ≡ true → OnRan r Tells)
    → Marks tr s
    → OnRan r (Marks (record tr { harmed = tr.harmed || harm }))
marked_ran tr s (ran t) harm c tells h = marked tr s t harm c tells h
marked_ran tr s (failed error) harm c tells h = tt

carried_ran :
    (tr : Trace) (s : State) (r : Ran) → OnRan r (Carries s) → Marks tr s → OnRan r (Marks tr)
carried_ran tr s (ran t) c h = carried tr s t c h
carried_ran tr s (failed error) c h = tt

continue-MarksAt :
    (tr : Trace) (r : Ran) (next : State → Position)
    → OnRan r (Marks tr)
    → ((t : State) → Marks tr t → MarksAt tr (next t))
    → MarksAt tr (continue_with r next)
continue-MarksAt tr (ran t) next h step = step t h
continue-MarksAt tr (failed error) next h step = tt

pick-MarksAt :
    (tr : Trace) (other : Node) (dispatches : List ProbeDispatch) (s : State)
    → Marks tr s
    → MarksAt tr (elim dispatches [ [] ↦ at other s | d ∷ more ↦ at (probe (d ∷ more)) s ])
pick-MarksAt tr other [] s h = h
pick-MarksAt tr other (d ∷ more) s h = h

module _ (setup : Setup) where
  plan-MarksAt :
      (tr : Trace) (other : Node) (plan : Option DispatchPlan) (s : State)
      → Marks tr s
      → MarksAt tr (elim plan [ none ↦ at other s | some plan ↦ fan_out_or other setup plan s ])
  plan-MarksAt tr other none s h = h
  plan-MarksAt tr other (some plan) s h = pick-MarksAt tr other (fan_out setup plan _ _) s h

  probe_all-Carries :
      (dispatches : List ProbeDispatch) (s : State) → Carries s (probe_all setup dispatches s)
  unfolding probe_all
  probe_all-Carries [] s = record { still_tells = λ h. h; same_errors = refl }
  probe_all-Carries (d ∷ dispatches) s =
      let first = joined_probe-Carries setup d s in
      let rest = probe_all-Carries dispatches (joined_probe (probe_node setup d) s) in
      record {
        still_tells = λ h. rest.still_tells (first.still_tells h);
        same_errors = rest.same_errors ∙ first.same_errors;
      }

  joined_probe-Tells :
      (d : ProbeDispatch) (s : State)
      → probe_fails setup d ≡ true
      → Tells (joined_probe (probe_node setup d) s)
  unfolding joined_probe
  joined_probe-Tells d s h =
      inr (append-filled_right s.failed_probes _ (probe_node-failed setup d h))

  probe_all-Tells :
      (dispatches : List ProbeDispatch) (s : State)
      → any (probe_fails setup) dispatches ≡ true
      → Tells (probe_all setup dispatches s)
  unfolding probe_all
  probe_all-Tells [] s h = absurd (ground arith)
  probe_all-Tells (d ∷ dispatches) s h =
      elim (or-parts (probe_fails setup d) (any (probe_fails setup) dispatches) h) [
        | inl now ↦
            (probe_all-Carries dispatches (joined_probe (probe_node setup d) s)).still_tells
              (joined_probe-Tells d s now)
        | inr later ↦ probe_all-Tells dispatches (joined_probe (probe_node setup d) s) later
      ]

  step-MarksAt :
      (p : Position) (tr : Trace) → MarksAt tr p → MarksAt (seen setup p tr) (step setup p)
  unfolding step step_node
  step-MarksAt (at survey s) tr h =
      unfold dispatch in
      plan-MarksAt _ empty (survey_node setup s).plan (survey_node setup s) (
        marked tr s (survey_node setup s) (survey_fails setup) (survey_node-Carries setup s)
          (survey_node-Tells setup s) h)
  step-MarksAt (at (probe dispatches) s) tr h =
      marked tr s (probe_all setup dispatches s) (any (probe_fails setup) dispatches)
        (probe_all-Carries dispatches s) (probe_all-Tells dispatches s) h
  step-MarksAt (at investigate s) tr h =
      continue-MarksAt tr (investigate_node setup s) (after_investigate setup)
        (carried_ran tr s (investigate_node setup s) (investigate_node-Carries setup s) h)
        (λ t k. unfold after_investigate in plan-MarksAt tr validate t.redispatch t k)
  step-MarksAt (at validate s) tr h = unfold validate_node in (h.0, refl)
  step-MarksAt (at repair s) tr h =
      continue-MarksAt _ (repair_node setup s) (at validate)
        (marked_ran tr s (repair_node setup s) (repair_fails setup s) (repair_node-Carries setup s)
          (repair_node-Tells setup s) h)
        (λ t k. k)
  step-MarksAt (at finalize s) tr h = unfold finalize_result in h
  step-MarksAt (at empty s) tr h = unfold empty_result in h
  step-MarksAt (finished s recorded) tr h = h
  step-MarksAt (broken error) tr h = h

  -- However far the run goes, its state tells what the trace has seen.
  pub run-MarksAt :
      (fuel : ℕ) (p : Position) (tr : Trace)
      → MarksAt tr p
      → MarksAt (trace setup fuel p tr) (run setup fuel p)
  unfolding run
  run-MarksAt zero p tr h = h
  run-MarksAt (suc fuel) p tr h =
      run-MarksAt fuel (step setup p) (seen setup p tr) (step-MarksAt p tr h)
