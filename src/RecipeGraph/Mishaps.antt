-- ===== src/RecipeGraph/Mishaps.antt =====
-- What goes wrong in a recipe scan, told from the answers of the model at the positions that the run visits, and what
-- the nodes of src/tracer_agent/worker/agents/recipe_scan/nodes record of it.
use tracer_agent_python.Prelude.{
  ℕ, zero, suc, ◌≡◌, ◌≢◌, refl, sym, ◌∙◌, ◌⊎◌, inl, inr, Bool, true, false, not, ◌&&◌, ◌||◌, ◌==◌,
  List, [], ◌∷◌, ◌++◌, any, Option, some, is_some, arith,
}
use tracer_agent_python.Validation.Claims.{RecipesError, validate_recipe_candidates}
use tracer_agent_python.CleanupGraph.State.{Answer, answered, over_budget, raised}
use tracer_agent_python.RecipeGraph.State.{
  ProbeName, generation_degraded, ProbeDispatch, ProbeAnswer, reported, stopped, ProbeAssignment,
  repair_directive, dispatch_plan, Text, RawReport, State, Setup,
}
use tracer_agent_python.RecipeGraph.Salvage.{salvage_probe_report}
use tracer_agent_python.RecipeGraph.Probes.{joined_probe, probe_node, fallen_back}
use tracer_agent_python.RecipeGraph.Nodes.{
  Ran, ran, failed, survey_node, investigate_node, investigated, after_investigation, repair_node,
  repaired, synthesize,
}
use tracer_agent_python.RecipeGraph.Run.{
  survey, probe, investigate, validate, repair, finalize, empty, Position, at, finished, broken,
  step,
}
use tracer_agent_python.RecipeGraph.Ranks.{OnRan}
use tracer_agent_python.RecipeGraph.Kept.{
  IsKept, investigate_node-IsKept, repair_node-IsKept, survey_node-reason,
}

-- What was seen: whether anything went wrong, and what the last validation found.
pub record Trace : Type 0 where
  pub harmed : Bool
  pub errors : List RecipesError

module _ (setup : Setup) where
  -- The survey's answer is a plan of its schema.
  abbrev pub is_plan : Answer (List ProbeAssignment) → Bool
  is_plan (answered probes turns cost) = is_some (dispatch_plan setup.contract probes)
  is_plan (over_budget cost) = false
  is_plan (raised error cost) = false

  -- The model was asked for a plan and gave none.
  abbrev pub survey_fails : Bool
  survey_fails =
      not (setup.survey_lease.max_turns == 0)
      && not (is_plan (setup.model.survey setup.survey_lease))

  abbrev pub leaves_report : ProbeName → ProbeAnswer → Bool
  leaves_report name (reported report turns cost) = true
  leaves_report name (stopped summary rejected cost) =
      is_some (salvage_probe_report setup.contract name rejected)

  -- A probe was run, and its call left no report, not even one to be salvaged.
  abbrev pub probe_fails : ProbeDispatch → Bool
  probe_fails d =
      not (d.lease.max_turns == 0) && not (leaves_report d.assignment.probe (setup.model.probe d).0)

  abbrev pub is_over_budget : {A : Type 0} → Answer A → Bool
  is_over_budget (answered a turns cost) = false
  is_over_budget (over_budget cost) = true
  is_over_budget (raised error cost) = false

  -- The model was asked for a repair and ran out of its budget.
  abbrev pub repair_fails : State → Bool
  repair_fails s = elim s.candidates [
    | [] ↦ false
    | c ∷ cs ↦
        not (setup.repair_lease.max_turns == 0)
        && is_over_budget (
            setup.model.synthesize
              (s.messages ++ (repair_directive (c ∷ cs) s.validation_errors ∷ []))
              setup.repair_lease)
  ]

  -- The trace with what happens at a position.
  abbrev pub seen : Position → Trace → Trace
  seen (at survey s) tr = record tr { harmed = tr.harmed || survey_fails }
  seen (at (probe dispatches) s) tr = record tr { harmed = tr.harmed || any probe_fails dispatches }
  seen (at investigate s) tr = tr
  seen (at validate s) tr = record tr {
    errors =
        validate_recipe_candidates setup.contract.max_candidates s.candidates s.task_id
          s.provenance;
  }
  seen (at repair s) tr = record tr { harmed = tr.harmed || repair_fails s }
  seen (at finalize s) tr = tr
  seen (at empty s) tr = tr
  seen (finished s recorded) tr = tr
  seen (broken error) tr = tr

  -- What is seen in up to `fuel` steps from a position.
  abbrev pub trace : ℕ → Position → Trace → Trace
  trace zero p tr = tr
  trace (suc fuel) p tr = trace fuel (step setup p) (seen p tr)

-- The state tells of a failure.
abbrev pub Tells : State → Type 0
Tells s = (s.empty_result_reason ≡ some generation_degraded) ⊎ (s.failed_probes ≢ [])

-- What is told stays told, and the errors stay.
pub record Carries (s t : State) : Type 0 where
  pub still_tells : Tells s → Tells t
  pub same_errors : t.validation_errors ≡ s.validation_errors

append-filled : (xs ys : List ProbeName) → xs ≢ [] → (xs ++ ys) ≢ []
append-filled [] ys h e = h refl
append-filled (x ∷ xs) ys h e = absurd cc

pub append-filled_right : (xs ys : List ProbeName) → ys ≢ [] → (xs ++ ys) ≢ []
append-filled_right [] ys h e = h e
append-filled_right (x ∷ xs) ys h e = absurd cc

later-Carries :
    (s t : State)
    → (t.empty_result_reason ≡ s.empty_result_reason)
      ⊎ (t.empty_result_reason ≡ some generation_degraded)
    → t.failed_probes ≡ s.failed_probes
    → t.validation_errors ≡ s.validation_errors
    → Carries s t
later-Carries s t (inr e) same errors = record { still_tells = λ h. inl e; same_errors = errors }
later-Carries s t (inl e) same errors = record {
  still_tells = λ h. elim h [ inl d ↦ inl (e ∙ d) | inr f ↦ inr (λ none. f (sym same ∙ none)) ];
  same_errors = errors;
}

-- The probes and the errors of a state are those of the other.
abbrev HasSame : State → State → Type 0
HasSame s t = (t.failed_probes ≡ s.failed_probes) × (t.validation_errors ≡ s.validation_errors)

kept-Carries :
    (s : State) (r : Ran) → OnRan r (IsKept s) → OnRan r (HasSame s) → OnRan r (Carries s)
kept-Carries s (ran t) kept same = later-Carries s t kept.same_reason same.0 same.1
kept-Carries s (failed error) kept same = tt

module _ (setup : Setup) where
  pub survey_node-Carries : (s : State) → Carries s (survey_node setup s)
  survey_node-Carries s =
      later-Carries s (survey_node setup s) (survey_node-reason setup s)
        (unfold survey_node in ground arith) (unfold survey_node in ground arith)

  pub survey_node-Tells : (s : State) → survey_fails setup ≡ true → Tells (survey_node setup s)
  unfolding survey_node
  survey_node-Tells s h = inl (ground arith)

  pub joined_probe-Carries :
      (d : ProbeDispatch) (s : State) → Carries s (joined_probe (probe_node setup d) s)
  unfolding joined_probe
  joined_probe-Carries d s = record {
    still_tells = λ t. elim t [ inl e ↦ inl e | inr e ↦ inr (append-filled s.failed_probes _ e) ];
    same_errors = refl;
  }

  answer-failed :
      (name : ProbeName) (summary : Text) (rejected : Option RawReport)
      → is_some (salvage_probe_report setup.contract name rejected) ≡ false
      → (fallen_back setup.contract name summary rejected).1 ≢ []
  unfolding fallen_back
  answer-failed name summary rejected h e = ground (arith, h, e)

  pub probe_node-failed :
      (d : ProbeDispatch) → probe_fails setup d ≡ true → (probe_node setup d).failed ≢ []
  unfolding probe_node
  probe_node-failed d h e = ground (arith, h, e, answer-failed d.assignment.probe)

  repair_node-HasSame : (s : State) → OnRan (repair_node setup s) (HasSame s)
  unfolding repair_node repaired
  repair_node-HasSame s = ground arith

  pub repair_node-Carries : (s : State) → OnRan (repair_node setup s) (Carries s)
  repair_node-Carries s =
      kept-Carries s (repair_node setup s) (repair_node-IsKept setup s) (repair_node-HasSame s)

  pub repair_node-Tells :
      (s : State) → repair_fails setup s ≡ true → OnRan (repair_node setup s) Tells
  unfolding repair_node synthesize repaired
  repair_node-Tells s h = ground (arith, h)

  investigate_node-HasSame : (s : State) → OnRan (investigate_node setup s) (HasSame s)
  unfolding investigate_node investigated after_investigation
  investigate_node-HasSame s = ground arith

  pub investigate_node-Carries : (s : State) → OnRan (investigate_node setup s) (Carries s)
  investigate_node-Carries s =
      kept-Carries s (investigate_node setup s) (investigate_node-IsKept setup s)
        (investigate_node-HasSame s)
