-- ===== src/RecipeGraph/Reasons.antt =====
-- Why a recipe scan without recipes is empty: src/tracer_agent/worker/agents/recipe_scan/nodes/result.py with the
-- nodes that record a reason.
use tracer_agent_python.Prelude.{
  ℕ, ◌≡◌, ◌≢◌, refl, sym, ◌∙◌, inl, inr, false, [], Option, none, some, is_some, arith, Bool-cases,
}
use tracer_agent_python.RecipeGraph.State.{EmptyReason, generation_degraded, State, Setup, has_no}
use tracer_agent_python.RecipeGraph.Run.{survey, Position, at, finished, broken, run, initial_state}
use tracer_agent_python.RecipeGraph.Told.{IsUnharmed, IsTold, run-IsTold}
use tracer_agent_python.RecipeGraph.Mishaps.{Trace, trace, Tells}
use tracer_agent_python.RecipeGraph.Traced.{Marks, MarksAt, run-MarksAt}

-- Nothing went wrong that was seen: neither the survey nor a probe nor a repair, and the last validation found nothing.
pub record IsHarmless (tr : Trace) : Type 0 where
  pub nothing_failed : tr.harmed ≡ false
  pub nothing_found : tr.errors ≡ []

-- A reason is recorded exactly for a result without recipes, and one other than a failure only if
-- nothing was seen to go wrong.
pub record IsTrue (tr : Trace) (s : State) (recorded : Option EmptyReason) : Type 0 where
  pub told_if_empty : elim s.result as (λ x. Type 0) [
    | none ↦ ⊥
    | some r ↦ is_some recorded ≡ has_no r.recipes
  ]
  pub told_failure :
      (reason : EmptyReason) → recorded ≡ some reason → reason ≢ generation_degraded → IsHarmless tr

abbrev pub FinishesTrue : Trace → Position → Type 0
FinishesTrue tr (at node s) = Unit
FinishesTrue tr (finished s recorded) = IsTrue tr s recorded
FinishesTrue tr (broken error) = Unit

untold : (s : State) → IsUnharmed s → Tells s → ⊥
untold s clean (inl e) = let told = clean.not_cut_off in absurd cc
untold s clean (inr f) = f clean.no_failed_probe

clean-IsHarmless : (tr : Trace) (s : State) → Marks tr s → IsUnharmed s → IsHarmless tr
clean-IsHarmless tr s marks clean = record {
  nothing_failed = elim (Bool-cases tr.harmed) [
    | inl h ↦ absurd (untold s clean (marks.0 h))
    | inr h ↦ h
  ];
  nothing_found = sym marks.1 ∙ clean.no_error;
}

marked-FinishesTrue : (tr : Trace) (p : Position) → IsTold p → MarksAt tr p → FinishesTrue tr p
marked-FinishesTrue tr (at node s) h marks = tt
marked-FinishesTrue tr (finished s recorded) h marks = record {
  told_if_empty = h.told_if_empty;
  told_failure =
      λ reason told different. clean-IsHarmless tr s marks (h.told_failure reason told different);
}
marked-FinishesTrue tr (broken error) h marks = tt

abbrev pub nothing_yet : Trace
nothing_yet = record { harmed = false; errors = [] }

-- A recipe scan that finishes records a reason exactly if its result has no recipes. If the reason is not
-- generation-degraded, then among the positions that the run visited there is no survey in which the
-- model was asked and gave no plan of its schema, no probe that was run and whose call left no report,
-- salvaged ones included, and no repair in which the model ran out of its budget, and the validation at
-- the last visited validation found nothing.
pub scan_reasons_true :
    (setup : Setup) (task_id max_turns max_cost_usd fuel : ℕ)
    → let start = at survey (initial_state task_id max_turns max_cost_usd) in
      FinishesTrue (trace setup fuel start nothing_yet) (run setup fuel start)
unfolding initial_state
scan_reasons_true setup task_id max_turns max_cost_usd fuel =
    let start = at survey (initial_state task_id max_turns max_cost_usd) in
    marked-FinishesTrue _ (run setup fuel start) (run-IsTold setup fuel start (inl refl))
      (run-MarksAt setup fuel start nothing_yet ((λ h. absurd (ground arith)), refl))
