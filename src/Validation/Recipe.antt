-- ===== src/Validation/Recipe.antt =====
-- `validate_recipe_candidate` and `validate_recipe_candidates` of
-- src/tracer_agent/worker/agents/recipe_scan/policy.py, with the fields of the candidate that they read. A message is
-- a constructor with what the message names.
use tracer_agent_python.Prelude.{
  ℕ, suc, List, [], ◌∷◌, ◌++◌, ◌==◌, if◌then◌else◌, Option, none, some,
}
use tracer_agent_python.Validation.Sets.{Dict, lookup, set_at, has_key, unknown_of, report}

-- `RecipeSlice`
pub record Slice : Type 0 where
  pub task_id : ℕ
  pub turn_ids : List ℕ
  pub event_ids : List ℕ

-- `RecipeCandidate`: of its corrections, pitfalls, recoveries and steps, the cited events.
pub record RecipeCandidate : Type 0 where
  pub contributing_slices : List Slice
  pub corrections : List (List ℕ)
  pub pitfalls : List (List ℕ)
  pub recovery : List (List ℕ)
  pub governing_rules : List ℕ
  pub revises_recipe_id : Option ℕ
  pub steps : List (List ℕ)

pub record ProvenanceCatalog : Type 0 where
  pub event_ids_by_task : Dict (List ℕ)
  pub turn_ids_by_task : Dict (List ℕ)
  pub rule_ids : List ℕ
  pub recipe_revs : Dict ℕ

pub data RecipeError : Type 0 where
  missing_anchor : ℕ → RecipeError
  anchor_without_event : RecipeError
  unsupported_task : ℕ → RecipeError
  unsupported_turns : ℕ → List ℕ → RecipeError
  unsupported_events : ℕ → List ℕ → RecipeError
  no_event_cited : RecipeError
  correction_cites : ℕ → List ℕ → RecipeError
  pitfall_cites : ℕ → List ℕ → RecipeError
  recovery_cites : ℕ → List ℕ → RecipeError
  unsupported_rules : List ℕ → RecipeError
  unsupported_revision : ℕ → RecipeError
  step_cites : ℕ → List ℕ → RecipeError

-- `events_by_slice_task.setdefault(task, set()).update(events)`
unfoldable pub add_events : ℕ → List ℕ → Dict (List ℕ) → Dict (List ℕ)
add_events task events [] = (task, events) ∷ []
add_events task events ((k, s) ∷ entries) =
    let rest = add_events task events entries in
    if k == task then (k, s ++ events) ∷ entries else (k, s) ∷ rest

unfoldable pub events_by_slice_task : List Slice → Dict (List ℕ) → Dict (List ℕ)
unfolding add_events
events_by_slice_task [] entries = entries
events_by_slice_task (s ∷ slices) entries =
    events_by_slice_task slices (add_events s.task_id s.event_ids entries)

unfoldable pub anchor_errors : ℕ → Dict (List ℕ) → List RecipeError
unfolding lookup
anchor_errors anchor entries = elim (lookup anchor entries) [
  | none ↦ missing_anchor anchor ∷ []
  | some events ↦ elim events [ [] ↦ anchor_without_event ∷ [] | _ ∷ _ ↦ [] ]
]

-- `set().union(*provenance.eventIdsByTask.values())`
unfoldable pub all_event_ids : Dict (List ℕ) → List ℕ
all_event_ids [] = []
all_event_ids ((k, s) ∷ entries) = s ++ all_event_ids entries

unfoldable pub slice_errors : ProvenanceCatalog → Slice → List RecipeError
unfolding has_key set_at unknown_of report
slice_errors provenance s =
    (if has_key s.task_id provenance.event_ids_by_task then [] else unsupported_task s.task_id ∷ [])
    ++ (report (unsupported_turns s.task_id)
          (unknown_of s.turn_ids (set_at s.task_id provenance.turn_ids_by_task))
        ++ report (unsupported_events s.task_id)
            (unknown_of s.event_ids (set_at s.task_id provenance.event_ids_by_task)))

unfoldable pub all_slice_errors : ProvenanceCatalog → List Slice → List RecipeError
unfolding slice_errors
all_slice_errors provenance [] = []
all_slice_errors provenance (s ∷ slices) =
    slice_errors provenance s ++ all_slice_errors provenance slices

-- `cited_event_ids`
unfoldable pub cited_event_ids : List Slice → List ℕ
cited_event_ids [] = []
cited_event_ids (s ∷ slices) = s.event_ids ++ cited_event_ids slices

unfoldable pub citation_errors : List Slice → List RecipeError
unfolding cited_event_ids
citation_errors slices = elim (cited_event_ids slices) [ [] ↦ no_event_cited ∷ [] | _ ∷ _ ↦ [] ]

-- One loop over the items of a kind, numbered from 1.
unfoldable pub evidence_errors :
    (ℕ → List ℕ → RecipeError) → List ℕ → ℕ → List (List ℕ) → List RecipeError
unfolding unknown_of report
evidence_errors error supported index [] = []
evidence_errors error supported index (evidence ∷ items) =
    report (error (suc index)) (unknown_of evidence supported)
    ++ evidence_errors error supported (suc index) items

-- A step without evidence is skipped.
unfoldable pub step_errors : List ℕ → ℕ → List (List ℕ) → List RecipeError
unfolding unknown_of report
step_errors supported index [] = []
step_errors supported index ([] ∷ steps) = step_errors supported (suc index) steps
step_errors supported index ((e ∷ es) ∷ steps) =
    report (step_cites (suc index)) (unknown_of (e ∷ es) supported)
    ++ step_errors supported (suc index) steps

unfoldable pub revision_errors : ProvenanceCatalog → Option ℕ → List RecipeError
unfolding has_key
revision_errors provenance none = []
revision_errors provenance (some recipe) =
    if has_key recipe provenance.recipe_revs then [] else unsupported_revision recipe ∷ []

unfoldable pub validate_recipe_candidate :
    RecipeCandidate → ℕ → ProvenanceCatalog → List RecipeError
unfolding events_by_slice_task anchor_errors all_event_ids all_slice_errors citation_errors
    evidence_errors unknown_of report revision_errors step_errors
validate_recipe_candidate candidate anchor provenance =
    let supported = all_event_ids provenance.event_ids_by_task in
    anchor_errors anchor (events_by_slice_task candidate.contributing_slices [])
    ++ (all_slice_errors provenance candidate.contributing_slices
        ++ (citation_errors candidate.contributing_slices
            ++ (evidence_errors correction_cites supported 0 candidate.corrections
                ++ (evidence_errors pitfall_cites supported 0 candidate.pitfalls
                    ++ (evidence_errors recovery_cites supported 0 candidate.recovery
                        ++ (report unsupported_rules
                              (unknown_of candidate.governing_rules provenance.rule_ids)
                            ++ (revision_errors provenance candidate.revises_recipe_id
                                ++ step_errors supported 0 candidate.steps)))))))
