-- ===== src/CleanupGraph/Tests.antt =====
-- Concrete runs of the graph of src/tracer_agent/worker/agents/task_cleanup.
use tracer_agent_python.Prelude.{◌≡◌, refl, ℕ, true, List, [], ◌∷◌, Option, none, some}
use tracer_agent_python.CleanupGraph.State.{
  own_words, user_prompt, said, answered, over_budget, raised, Model, Setup,
}
use tracer_agent_python.CleanupGraph.Run.{run, at, triage, finished, initial_state, Position}
use tracer_agent_python.CleanupGraph.Ends.{HasEnded, graph_ends}
use tracer_agent_python.CleanupGraph.Results.{FinishesSound, graph_results_sound}

-- A model that inspects task 1, asks once for another inspection, suggests a task that it was not shown
-- and then, in the repair, task 1 with the event that was read.
abbrev answers : Model
answers = record {
  triage = λ lease.
      answered (record { task_id = 1; depth = 1 } ∷ record { task_id = 5; depth = 1 } ∷ []) 1 3;
  inspect = λ task lease. (
    answered
        (record {
          task_id = task;
          archivable = true;
          reason = own_words 0;
          cited_event_ids = 100 ∷ [];
        })
        1 2,
    (task, 100 ∷ []) ∷ [],
  );
  decide = λ prompt lease. elim prompt [
    | [] ↦ raised 1 0
    | m ∷ more ↦ elim more [
      | [] ↦ elim m [
        | user_prompt reports ↦ elim reports [
          | [] ↦ over_budget 0
          | r ∷ rs ↦ elim rs [
            | [] ↦
                answered
                  (
                    record {
                      suggestions = [];
                      redispatch = record { task_id = 1; depth = 2 } ∷ [];
                    },
                    said 0 ∷ [],
                  )
                  1 1
            | _ ∷ _ ↦
                answered
                  (
                    record {
                      suggestions = record { task_id = 5; evidence_event_ids = [] } ∷ [];
                      redispatch = [];
                    },
                    said 0 ∷ [],
                  )
                  1 1
          ]
        ]
        | _ ↦ raised 2 0
      ]
      | _ ∷ _ ↦
          answered
            (
              record {
                suggestions = record { task_id = 1; evidence_event_ids = 100 ∷ [] } ∷ [];
                redispatch = [];
              },
              [],
            )
            1 1
    ]
  ];
}

abbrev setup : Setup
setup = record {
  model = answers;
  triage_lease = record { max_turns = 1; max_cost_usd = 10 };
  decision_floor_lease = record { max_turns = 1; max_cost_usd = 10 };
  repair_lease = record { max_turns = 1; max_cost_usd = 10 };
  listed = (1, record { has_events = true }) ∷ [];
  depth_share = λ depth. depth;
}

graph_ends_example : HasEnded (run setup 9 (at triage (initial_state 5 1 8 50)))
graph_ends_example = graph_ends setup 5 1 8 50

graph_results_sound_example : FinishesSound (run setup 9 (at triage (initial_state 5 1 8 50)))
graph_results_sound_example = graph_results_sound setup 5 1 8 50 9

-- How many suggestions the run results in, if it finishes.
abbrev suggested : Position → Option (List ℕ)
suggested (finished s) = elim s.result [
  | none ↦ none
  | some r ↦ elim r.result_suggestions [
    | [] ↦ some []
    | s ∷ _ ↦ some (s.task_id ∷ s.evidence_event_ids)
  ]
]
suggested _ = none

repaired_result : suggested (run setup 9 (at triage (initial_state 5 1 8 50))) ≡ some (1 ∷ 100 ∷ [])
unfolding run initial_state
repaired_result = refl

no_result_earlier : suggested (run setup 8 (at triage (initial_state 5 1 8 50))) ≡ none
unfolding run initial_state
no_result_earlier = refl
