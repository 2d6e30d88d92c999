-- ===== src/RecipeGraph/Tests.antt =====
-- Concrete runs of the graph of src/tracer_agent/worker/agents/recipe_scan.
use tracer_agent_python.Prelude.{
  ◌≡◌, refl, ℕ, ◌==◌, true, false, [], ◌∷◌, length, Option, none, some,
}
use tracer_agent_python.Validation.Recipe.{RecipeCandidate}
use tracer_agent_python.Budget.Lease.{AgentBudgetLease}
use tracer_agent_python.CleanupGraph.State.{answered, over_budget, raised}
use tracer_agent_python.RecipeGraph.State.{
  timeline, rules, ProbeAssignment, ProbeReport, EmptyReason, no_pattern, generation_degraded,
  Contract, RawReport, reported, stopped, Model, Setup,
}
use tracer_agent_python.RecipeGraph.Salvage.{salvage_probe_report}
use tracer_agent_python.RecipeGraph.Reports.{IsWithinLimits, salvage_fits}
use tracer_agent_python.RecipeGraph.Run.{run, at, survey, finished, initial_state, Position}
use tracer_agent_python.RecipeGraph.Ends.{HasEnded, scan_ends}
use tracer_agent_python.RecipeGraph.Results.{FinishesSound, scan_results_sound}
use tracer_agent_python.RecipeGraph.Mishaps.{trace}
use tracer_agent_python.RecipeGraph.Reasons.{FinishesTrue, nothing_yet, scan_reasons_true}

abbrev contract : Contract
contract = record {
  max_candidates = 2;
  max_dispatch_probes = 3;
  max_redispatch_rounds = 1;
  max_redispatch_probes = 2;
  max_excerpts = 2;
  max_excerpt_chars = 4;
  max_verdict_chars = 3;
  worker_failed = λ reason. 9 ∷ reason;
  no_turns_allocated = 7 ∷ [];
  slot_of = λ a. a.question;
  depth_share = λ depth. depth;
  default_reason = no_pattern;
  is_space = λ c. c == 0;
}

abbrev asks : ℕ → ProbeAssignment
asks question = record { probe = timeline; depth = 1; question = question }

-- A recipe on task 4 that cites an event.
abbrev cites : ℕ → RecipeCandidate
cites event = record {
  contributing_slices = record { task_id = 4; turn_ids = 70 ∷ []; event_ids = event ∷ [] } ∷ [];
  corrections = [];
  pitfalls = [];
  recovery = [];
  governing_rules = [];
  revises_recipe_id = none;
  steps = [];
}

abbrev found : ProbeReport
found = record {
  probe = timeline;
  verdict = 1 ∷ [];
  excerpts = [];
  exhausted = false;
  truncated = false;
}

-- Two probes read event 100 of task 4, one of them and then fails; the first synthesis cites an event that was not
-- read, and the repair cites the one that was.
abbrev answers : Model
answers = record {
  survey = λ lease. answered (asks 1 ∷ asks 2 ∷ []) 1 3;
  probe = λ d. (
    elim (d.assignment.question == 1) [
      | true ↦ reported found 1 2
      | false ↦ stopped (8 ∷ []) none 2
    ],
    record {
      event_ids_by_task = (4, 100 ∷ []) ∷ [];
      turn_ids_by_task = (4, 70 ∷ []) ∷ [];
      rule_ids = [];
      recipe_revs = [];
    },
  );
  synthesize = λ prompt lease. elim prompt [
    | [] ↦ raised 1 0
    | m ∷ more ↦ elim more [
      | [] ↦ answered (record { recipes = cites 200 ∷ []; redispatch = [] }, m ∷ []) 1 1
      | _ ∷ _ ↦ answered (record { recipes = cites 100 ∷ []; redispatch = [] }, []) 1 1
    ]
  ];
}

abbrev lease : AgentBudgetLease
lease = record { max_turns = 1; max_cost_usd = 10 }

abbrev setup : Setup
setup = record {
  model = answers;
  contract = contract;
  survey_lease = lease;
  synthesis_floor_lease = lease;
  repair_lease = lease;
}

-- The same, but for the repair, which goes over its budget.
abbrev cut_off : Setup
cut_off = record setup {
  model = record answers {
    synthesize = λ prompt lease. elim prompt [
      | [] ↦ raised 1 0
      | m ∷ more ↦ elim more [
        | [] ↦ answered (record { recipes = cites 200 ∷ []; redispatch = [] }, m ∷ []) 1 1
        | _ ∷ _ ↦ over_budget 5
      ]
    ];
  };
}

scan_ends_example : HasEnded (run setup 9 (at survey (initial_state 4 8 50)))
scan_ends_example = scan_ends setup 4 8 50

scan_results_sound_example : FinishesSound setup 4 (run setup 9 (at survey (initial_state 4 8 50)))
scan_results_sound_example = scan_results_sound setup 4 8 50 9

scan_reasons_true_example :
    FinishesTrue
      (trace cut_off 9 (at survey (initial_state 4 8 50)) nothing_yet)
      (run cut_off 9 (at survey (initial_state 4 8 50)))
scan_reasons_true_example = scan_reasons_true cut_off 4 8 50 9

-- How many recipes the run results in and which reason is recorded, if it finishes.
abbrev ended_with : Position → Option (ℕ × Option EmptyReason)
ended_with (finished s recorded) = elim s.result [
  | none ↦ none
  | some r ↦ some (length r.recipes, recorded)
]
ended_with _ = none

repaired_result : ended_with (run setup 9 (at survey (initial_state 4 8 50))) ≡ some (1, none)
unfolding run initial_state
repaired_result = refl

cut_off_result :
    ended_with (run cut_off 9 (at survey (initial_state 4 8 50)))
    ≡ some (0, some generation_degraded)
unfolding run initial_state
cut_off_result = refl

-- A verdict that is too long, with spaces around it, and more excerpts than allowed.
abbrev overlong : RawReport
overlong = record {
  raw_verdict = some (0 ∷ 5 ∷ 6 ∷ 7 ∷ []);
  raw_excerpts = some (
      some (record {
        raw_task_id = some (1 ∷ []);
        raw_event_id = some (0 ∷ 2 ∷ []);
        raw_text = some (3 ∷ 3 ∷ 3 ∷ 3 ∷ 3 ∷ []);
      })
      ∷ some (record {
        raw_task_id = some (1 ∷ []);
        raw_event_id = some (2 ∷ []);
        raw_text = some (3 ∷ 0 ∷ []);
      })
      ∷ none
      ∷ []);
  raw_exhausted = false;
}

abbrev salvaged : ProbeReport
salvaged = record {
  probe = rules;
  verdict = 5 ∷ 6 ∷ [];
  excerpts =
      record { task_id = 1 ∷ []; event_id = 2 ∷ []; text = 3 ∷ 3 ∷ 3 ∷ 3 ∷ [] }
      ∷ record { task_id = 1 ∷ []; event_id = 2 ∷ []; text = 3 ∷ [] }
      ∷ [];
  exhausted = false;
  truncated = true;
}

is_salvaged : salvage_probe_report contract rules (some overlong) ≡ some salvaged
unfolding salvage_probe_report
is_salvaged = refl

salvage_fits_example :
    (salvaged.probe ≡ rules) × ((salvaged.truncated ≡ true) × IsWithinLimits contract salvaged)
salvage_fits_example = salvage_fits contract rules (some overlong) salvaged is_salvaged
