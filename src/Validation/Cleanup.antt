-- ===== src/Validation/Cleanup.antt =====
-- `filter_valid_suggestions` of src/tracer_agent/worker/agents/task_cleanup/policy.py.
use tracer_agent_python.Prelude.{
  ℕ, Bool, false, not, List, [], ◌∷◌, ◌++◌, ◌&&◌, take, if◌then◌else◌, Option, none, some, is_some,
}
use tracer_agent_python.Validation.Sets.{
  is_nil, Dict, member, lookup, set_at, has_key, unknown_of, report,
}

pub record CleanupCandidate : Type 0 where
  pub has_events : Bool

-- `CleanupDraftSuggestion`, without its rationale
pub record CleanupSuggestion : Type 0 where
  pub task_id : ℕ
  pub evidence_event_ids : List ℕ

-- The part of `TaskCleanupState` that the policy reads.
pub record TaskCleanupState : Type 0 where
  pub exposed_candidates : Dict CleanupCandidate
  pub event_ids_by_task : Dict (List ℕ)
  pub max_suggestions : ℕ

pub data CleanupError : Type 0 where
  unsupported_candidate : ℕ → CleanupError
  unsupported_events : ℕ → List ℕ → CleanupError
  never_inspected : ℕ → CleanupError
  no_inspected_evidence : ℕ → CleanupError

-- `_deduplicated`
unfoldable pub deduplicated : List CleanupSuggestion → List ℕ → List CleanupSuggestion
unfolding member
deduplicated [] seen = []
deduplicated (s ∷ suggestions) seen =
    let skipped = deduplicated suggestions seen in
    let kept = deduplicated suggestions (s.task_id ∷ seen) in
    if member s.task_id seen then skipped else s ∷ kept

unfoldable pub candidate_has_events : Option CleanupCandidate → Bool
candidate_has_events none = false
candidate_has_events (some candidate) = candidate.has_events

-- `_evidence_errors`
unfoldable pub evidence_errors :
    CleanupSuggestion → Dict CleanupCandidate → Dict (List ℕ) → List CleanupError
unfolding lookup has_key set_at unknown_of report candidate_has_events
evidence_errors s exposed event_ids_by_task =
    let candidate = lookup s.task_id exposed in
    let inspected = has_key s.task_id event_ids_by_task in
    let supported_events = set_at s.task_id event_ids_by_task in
    (if is_some candidate then [] else unsupported_candidate s.task_id ∷ [])
    ++ (report (unsupported_events s.task_id) (unknown_of s.evidence_event_ids supported_events)
        ++ (if candidate_has_events candidate && not inspected
            then never_inspected s.task_id ∷ []
            else if not (is_nil supported_events) && is_nil s.evidence_event_ids
            then no_inspected_evidence s.task_id ∷ []
            else []))

-- The loop over the deduplicated suggestions: `valid` and `errors`.
unfoldable pub sort_out :
    TaskCleanupState → List CleanupSuggestion → List CleanupSuggestion × List CleanupError
unfolding evidence_errors
sort_out state [] = ([], [])
sort_out state (s ∷ suggestions) =
    let (valid, errors) = sort_out state suggestions in
    elim (evidence_errors s state.exposed_candidates state.event_ids_by_task) [
      | [] ↦ (s ∷ valid, errors)
      | e ∷ es ↦ (valid, (e ∷ es) ++ errors)
    ]

unfoldable pub filter_valid_suggestions :
    List CleanupSuggestion → TaskCleanupState → List CleanupSuggestion × List CleanupError
unfolding deduplicated sort_out
filter_valid_suggestions suggestions state =
    let (valid, errors) = sort_out state (deduplicated suggestions []) in
    (take state.max_suggestions valid, errors)
