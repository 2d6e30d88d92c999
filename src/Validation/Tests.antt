-- ===== src/Validation/Tests.antt =====
-- Concrete runs of the policies of src/tracer_agent/worker/agents.
use tracer_agent_python.Prelude.{
  ◌≡◌, ◌≤◌, refl, ◌⊎◌, true, false, List, [], ◌∷◌, ◌==◌, ◌&&◌, leb, none, some, All, take, length,
  ◌↔◌,
}
use tracer_agent_python.Redaction.Rules.{lower_ascii}
use tracer_agent_python.Validation.Recipe.{
  RecipeCandidate, ProvenanceCatalog, validate_recipe_candidate, missing_anchor,
}
use tracer_agent_python.Validation.Provenance.{IsProvenanced, validate_candidate_iff}
use tracer_agent_python.Validation.Claims.{
  validate_recipe_candidates, claimed_turn, IsExclusive, validate_candidates_sound,
}
use tracer_agent_python.Validation.Cleanup.{
  CleanupSuggestion, TaskCleanupState, filter_valid_suggestions,
}
use tracer_agent_python.Validation.Firsts.{first_of_each}
use tracer_agent_python.Validation.Grounded.{IsGrounded, HasDistinctTasks, filter_valid_sound}
use tracer_agent_python.Validation.Title.{
  Unicode, TitleSuggestion, normalize_title, normalize_title_candidate, min_title_suggestions,
}
use tracer_agent_python.Validation.Titles.{
  IsNewTitle, HasDistinctTitles, kept_of, normalize_candidate_sound,
}

-- Task 1 was read: its turn 10 and its events 100 and 101.
abbrev catalog : ProvenanceCatalog
catalog = record {
  event_ids_by_task = (1, 100 ∷ 101 ∷ []) ∷ [];
  turn_ids_by_task = (1, 10 ∷ []) ∷ [];
  rule_ids = 7 ∷ [];
  recipe_revs = [];
}

abbrev sound_candidate : RecipeCandidate
sound_candidate = record {
  contributing_slices = record { task_id = 1; turn_ids = 10 ∷ []; event_ids = 101 ∷ [] } ∷ [];
  corrections = (100 ∷ []) ∷ [];
  pitfalls = [];
  recovery = [];
  governing_rules = 7 ∷ [];
  revises_recipe_id = none;
  steps = [] ∷ [];
}

validate_candidate_iff_example :
    (validate_recipe_candidate sound_candidate 1 catalog ≡ [])
    ↔ IsProvenanced sound_candidate 1 catalog
validate_candidate_iff_example = validate_candidate_iff sound_candidate 1 catalog

sound_candidate_passes : validate_recipe_candidate sound_candidate 1 catalog ≡ []
unfolding validate_recipe_candidate
sound_candidate_passes = refl

other_anchor : validate_recipe_candidate sound_candidate 2 catalog ≡ missing_anchor 2 ∷ []
unfolding validate_recipe_candidate
other_anchor = refl

validate_candidates_sound_example :
    (length (sound_candidate ∷ []) ≤ 3)
    × (All (λ c. IsProvenanced c 1 catalog) (sound_candidate ∷ [])
        × IsExclusive (sound_candidate ∷ []))
unfolding validate_recipe_candidates
validate_candidates_sound_example =
    validate_candidates_sound 3 (sound_candidate ∷ []) 1 catalog refl

turn_claimed_twice :
    validate_recipe_candidates 3 (sound_candidate ∷ sound_candidate ∷ []) 1 catalog
    ≡ claimed_turn 2 10 1 ∷ []
unfolding validate_recipe_candidates
turn_claimed_twice = refl

-- Task 1 has events, of which 100 was read; task 2 has none.
abbrev cleanup_state : TaskCleanupState
cleanup_state = record {
  exposed_candidates = (1, record { has_events = true }) ∷ (2, record { has_events = false }) ∷ [];
  event_ids_by_task = (1, 100 ∷ []) ∷ [];
  max_suggestions = 1;
}

abbrev drafted : List CleanupSuggestion
drafted =
    record { task_id = 2; evidence_event_ids = [] }
    ∷ record { task_id = 1; evidence_event_ids = 100 ∷ [] }
    ∷ record { task_id = 2; evidence_event_ids = 9 ∷ [] }
    ∷ []

filter_valid_sound_example :
    All (IsGrounded cleanup_state) (filter_valid_suggestions drafted cleanup_state).0
    × (HasDistinctTasks (filter_valid_suggestions drafted cleanup_state).0
        × ((length (filter_valid_suggestions drafted cleanup_state).0 ≤ 1)
            × ((filter_valid_suggestions drafted cleanup_state).1 ≡ []
                → (filter_valid_suggestions drafted cleanup_state).0
                  ≡ take 1 (first_of_each drafted))))
filter_valid_sound_example = filter_valid_sound drafted cleanup_state

first_is_kept :
    filter_valid_suggestions drafted cleanup_state
    ≡ (record { task_id = 2; evidence_event_ids = [] } ∷ [], [])
unfolding filter_valid_suggestions
first_is_kept = refl

abbrev ascii : Unicode
ascii = record {
  nfkc = λ t. t;
  lower = λ t. lower_ascii t;
  is_space = λ c. c == b' ';
  is_digit = λ c. leb b'0' c && leb c b'9';
}

-- "A", " a ", "Task #12" and "B"
abbrev titles : List TitleSuggestion
titles =
    record { title = b'A' ∷ []; rationale = [] }
    ∷ record { title = b' ' ∷ b'a' ∷ b' ' ∷ []; rationale = [] }
    ∷ record { title = b'T' ∷ b'a' ∷ b's' ∷ b'k' ∷ b' ' ∷ b'#' ∷ b'1' ∷ b'2' ∷ []; rationale = [] }
    ∷ record { title = b'B' ∷ []; rationale = [] }
    ∷ []

normalize_candidate_sound_example :
    All
      (IsNewTitle ascii (normalize_title ascii (b'C' ∷ [])))
      (kept_of ascii (normalize_title_candidate ascii (some titles) (b'C' ∷ [])).0)
    × (HasDistinctTitles ascii
          (kept_of ascii (normalize_title_candidate ascii (some titles) (b'C' ∷ [])).0)
        × ((normalize_title_candidate ascii (some titles) (b'C' ∷ [])).1 ≡ []
            → (some titles ≡ some [])
              ⊎ (min_title_suggestions
                  ≤ length (
                      kept_of ascii
                        (normalize_title_candidate ascii (some titles) (b'C' ∷ [])).0))))
normalize_candidate_sound_example = normalize_candidate_sound ascii (some titles) (b'C' ∷ [])

two_titles_kept : normalize_title_candidate ascii (some titles) (b'C' ∷ []) ≡ (
  some (
      record { title = b'A' ∷ []; rationale = [] }
      ∷ record { title = b'B' ∷ []; rationale = [] }
      ∷ []),
  [],
)
unfolding normalize_title_candidate lower_ascii
two_titles_kept = refl
