-- ===== src/Validation/Provenance.antt =====
-- What a recipe candidate is that src/tracer_agent/worker/agents/recipe_scan/policy.py finds no fault with.
use tracer_agent_python.Prelude.{
  ℕ, suc, ◌≡◌, refl, ◌∙◌, ◌↔◌, Bool, true, false, not, List, [], ◌∷◌, ◌++◌, any, ◌==◌, ◌&&◌, ◌||◌,
  if◌then◌else◌, Option, none, some, All, arith,
}
use tracer_agent_python.Validation.Sets.{
  is_nil, Dict, lookup, set_at, has_key, IsSupported, report-empty, append-both,
}
use tracer_agent_python.Validation.Recipe.{
  Slice, RecipeCandidate, ProvenanceCatalog, RecipeError, add_events, events_by_slice_task,
  anchor_errors, all_event_ids, slice_errors, all_slice_errors, cited_event_ids, citation_errors,
  evidence_errors, step_errors, step_cites, revision_errors, validate_recipe_candidate,
  correction_cites, pitfall_cites, recovery_cites, unsupported_rules, unsupported_task,
  unsupported_turns, unsupported_events,
}

-- The slice is about the anchor task and cites an event.
abbrev pub is_anchor : ℕ → Slice → Bool
is_anchor anchor s = s.task_id == anchor && not (is_nil s.event_ids)

-- The task was read, and its cited turns and events are among those read.
abbrev pub IsReadSlice : ProvenanceCatalog → Slice → Type 0
IsReadSlice provenance s =
    (has_key s.task_id provenance.event_ids_by_task ≡ true)
    × (IsSupported s.turn_ids (set_at s.task_id provenance.turn_ids_by_task)
        × IsSupported s.event_ids (set_at s.task_id provenance.event_ids_by_task))

abbrev pub IsKnownRevision : ProvenanceCatalog → Option ℕ → Type 0
IsKnownRevision provenance none = Unit
IsKnownRevision provenance (some recipe) = has_key recipe provenance.recipe_revs ≡ true

-- The candidate cites only what was collected, and an event of the anchor task among it.
pub record IsProvenanced (candidate : RecipeCandidate) (anchor : ℕ) (provenance : ProvenanceCatalog)
    : Type 0 where
  pub anchored : any (is_anchor anchor) candidate.contributing_slices ≡ true
  pub slices_read : All (IsReadSlice provenance) candidate.contributing_slices
  pub corrections_known :
      All (λ e. IsSupported e (all_event_ids provenance.event_ids_by_task)) candidate.corrections
  pub pitfalls_known :
      All (λ e. IsSupported e (all_event_ids provenance.event_ids_by_task)) candidate.pitfalls
  pub recovery_known :
      All (λ e. IsSupported e (all_event_ids provenance.event_ids_by_task)) candidate.recovery
  pub rules_known : IsSupported candidate.governing_rules provenance.rule_ids
  pub revision_known : IsKnownRevision provenance candidate.revises_recipe_id
  pub steps_known :
      All (λ e. IsSupported e (all_event_ids provenance.event_ids_by_task)) candidate.steps

-- The dictionary has a set with an event under the key.
abbrev filled : ℕ → Dict (List ℕ) → Bool
filled key entries = elim (lookup key entries) [ none ↦ false | some s ↦ not (is_nil s) ]

is_nil-append : (xs ys : List ℕ) → not (is_nil (xs ++ ys)) ≡ not (is_nil xs) || not (is_nil ys)
is_nil-append [] ys = refl
is_nil-append (x ∷ xs) ys = refl

filled-add_events :
    (key task : ℕ) (events : List ℕ) (entries : Dict (List ℕ))
    → filled key (add_events task events entries)
      ≡ filled key entries || (task == key && not (is_nil events))
unfolding add_events lookup
filled-add_events key task events [] = ground arith
filled-add_events key task events ((k, s) ∷ entries) =
    ground (arith, filled-add_events key task events entries, is_nil-append s events)

filled-events_by :
    (key : ℕ) (slices : List Slice) (entries : Dict (List ℕ))
    → filled key (events_by_slice_task slices entries)
      ≡ filled key entries || any (is_anchor key) slices
unfolding events_by_slice_task
filled-events_by key [] entries = ground arith
filled-events_by key (s ∷ slices) entries =
    filled-events_by key slices (add_events s.task_id s.event_ids entries)
    ∙ ground (arith, filled-add_events key s.task_id s.event_ids entries)

anchor_errors-empty :
    (anchor : ℕ) (entries : Dict (List ℕ))
    → (anchor_errors anchor entries ≡ []) ↔ (filled anchor entries ≡ true)
unfolding anchor_errors
anchor_errors-empty anchor entries = ground arith

task_error-empty :
    (task : ℕ) (b : Bool) → ((if b then [] else unsupported_task task ∷ []) ≡ []) ↔ (b ≡ true)
task_error-empty task b = ground arith

slice_errors-empty :
    (provenance : ProvenanceCatalog) (s : Slice)
    → (slice_errors provenance s ≡ []) ↔ IsReadSlice provenance s
unfolding slice_errors
slice_errors-empty provenance s =
    append-both _ _ (task_error-empty s.task_id (has_key s.task_id provenance.event_ids_by_task)) (
      append-both _ _ (report-empty (unsupported_turns s.task_id) s.turn_ids _)
        (report-empty (unsupported_events s.task_id) s.event_ids _))

all_slice_errors-empty :
    (provenance : ProvenanceCatalog) (slices : List Slice)
    → (all_slice_errors provenance slices ≡ []) ↔ All (IsReadSlice provenance) slices
unfolding all_slice_errors
all_slice_errors-empty provenance [] = ((λ _. tt), λ _. refl)
all_slice_errors-empty provenance (s ∷ slices) =
    append-both _ _ (slice_errors-empty provenance s) (all_slice_errors-empty provenance slices)

evidence_errors-empty :
    (error : ℕ → List ℕ → RecipeError) (supported : List ℕ) (index : ℕ) (items : List (List ℕ))
    → (evidence_errors error supported index items ≡ []) ↔ All (λ e. IsSupported e supported) items
unfolding evidence_errors
evidence_errors-empty error supported index [] = ((λ _. tt), λ _. refl)
evidence_errors-empty error supported index (e ∷ items) =
    append-both _ _ (report-empty (error (suc index)) e supported)
      (evidence_errors-empty error supported (suc index) items)

step_errors-empty :
    (supported : List ℕ) (index : ℕ) (items : List (List ℕ))
    → (step_errors supported index items ≡ []) ↔ All (λ e. IsSupported e supported) items
unfolding step_errors
step_errors-empty supported index [] = ((λ _. tt), λ _. refl)
step_errors-empty supported index ([] ∷ items) =
    let rest = step_errors-empty supported (suc index) items in
    ((λ h. (tt, rest.0 h)), λ h. rest.1 h.1)
step_errors-empty supported index ((e ∷ es) ∷ items) =
    append-both _ _ (report-empty (step_cites (suc index)) (e ∷ es) supported)
      (step_errors-empty supported (suc index) items)

revision_errors-empty :
    (provenance : ProvenanceCatalog) (revises : Option ℕ)
    → (revision_errors provenance revises ≡ []) ↔ IsKnownRevision provenance revises
unfolding revision_errors
revision_errors-empty provenance none = ((λ _. tt), λ _. refl)
revision_errors-empty provenance (some recipe) = ground arith

citation-anchored :
    (anchor : ℕ) (slices : List Slice)
    → any (is_anchor anchor) slices ≡ true
    → citation_errors slices ≡ []
unfolding citation_errors cited_event_ids
citation-anchored anchor [] h = absurd (ground arith)
citation-anchored anchor (s ∷ slices) h = ground (arith, citation-anchored anchor slices)

anchored-empty :
    (anchor : ℕ) (slices : List Slice)
    → (anchor_errors anchor (events_by_slice_task slices []) ≡ [])
      ↔ (any (is_anchor anchor) slices ≡ true)
unfolding anchor_errors
anchored-empty anchor slices =
    rw (← filled-events_by anchor slices [])
      (anchor_errors-empty anchor (events_by_slice_task slices []))

-- A candidate has no error exactly if it cites only tasks, turns, events, rules and a recipe that
-- were collected, and at least one event of the anchor task.
pub validate_candidate_iff :
    (candidate : RecipeCandidate) (anchor : ℕ) (provenance : ProvenanceCatalog)
    → (validate_recipe_candidate candidate anchor provenance ≡ [])
      ↔ IsProvenanced candidate anchor provenance
unfolding validate_recipe_candidate
validate_candidate_iff candidate anchor provenance =
    let supported = all_event_ids provenance.event_ids_by_task in
    let slices = candidate.contributing_slices in
    let parts = append-both _ _ (anchored-empty anchor slices) (
      append-both _ _ (all_slice_errors-empty provenance slices) (
        append-both (citation_errors slices) _ ((λ h. h), λ h. h)
          (append-both _ _
            (evidence_errors-empty correction_cites supported 0 candidate.corrections)
            (append-both _ _ (evidence_errors-empty pitfall_cites supported 0 candidate.pitfalls) (
              append-both _ _ (evidence_errors-empty recovery_cites supported 0 candidate.recovery)
                (append-both _ _
                  (report-empty unsupported_rules candidate.governing_rules provenance.rule_ids)
                  (append-both _ _ (revision_errors-empty provenance candidate.revises_recipe_id)
                    (step_errors-empty supported 0 candidate.steps)))))))) in
    (
      (λ h.
          let (a, (s, (_, (c, (p, (r, (g, (v, t)))))))) = parts.0 h in
          record {
            anchored = a;
            slices_read = s;
            corrections_known = c;
            pitfalls_known = p;
            recovery_known = r;
            rules_known = g;
            revision_known = v;
            steps_known = t;
          }),
      λ q. parts.1 (
        q.anchored,
        (
          q.slices_read,
          (
            citation-anchored anchor slices q.anchored,
            (
              q.corrections_known,
              (
                q.pitfalls_known,
                (q.recovery_known, (q.rules_known, (q.revision_known, q.steps_known))),
              ),
            ),
          ),
        ),
      ),
    )
