-- ===== src/JobRuns/Tests.antt =====
-- Concrete runs of the workflow of src/tracer_agent/worker/workflows/jobs_workflows.py.
use tracer_agent_python.Prelude.{
  ◌≡◌, refl, ℕ, ◌==◌, true, false, [], ◌∷◌, Option, none, some, inl, inr, if◌then◌else◌,
}
use tracer_agent_python.Jobs.Rows.{JobStatus, completed, failed, Job}
use tracer_agent_python.Jobs.Ledger.{find, has_id}
use tracer_agent_python.Jobs.Closed.{IsClosed}
use tracer_agent_python.JobRuns.World.{
  title_suggestion, World, Payload, run_failed, returned, raised, Cut, whole, before, midway,
}
use tracer_agent_python.JobRuns.Outcome.{Response, GeneratedAgentJob, outcome_of}
use tracer_agent_python.JobRuns.Activities.{settle_ledger}
use tracer_agent_python.JobRuns.Service.{Settings, Service}
use tracer_agent_python.JobRuns.Workflow.{Schedule, run_job}
use tracer_agent_python.JobRuns.Stable.{IsCompleted}
use tracer_agent_python.JobRuns.Handed.{times_handed, finalizes, user_cancels, after_activities}
use tracer_agent_python.JobRuns.Once.{IsOnce, after_activities-IsOnce}
use tracer_agent_python.JobRuns.Lost.{lost_outputs}
use tracer_agent_python.JobRuns.Closes.{run_job-IsClosed}

abbrev row : Job
row = record {
  id = 5;
  user_id = 1;
  kind = 0;
  executor = 0;
  status = JobStatus.pending;
  attempts = 0;
  task_id = none;
  idempotency_key = none;
  idempotency_input_hash = none;
  input = "{}";
  result = "{}";
  usage = "{}";
  error = none;
  created_at = 0;
  updated_at = 0;
  started_at = none;
  completed_at = none;
}

abbrev world : World
world = record {
  db = record { jobs = row ∷ []; steps = [] };
  observations = [];
  notified = [];
  outputs = [];
}

abbrev payload : Payload
payload = record {
  user_id = some 1;
  execution_id = some 5;
  attempt_id = none;
  context = none;
  language = none;
  max_suggestions = none;
  api_key = none;
  model = none;
}

abbrev settings : Settings
settings = record {
  languages = [];
  default_language = [];
  default_max_suggestions = 5;
  max_suggestions_cap = 20;
  carries_language = λ kind. true;
  carries_max_suggestions = λ kind. false;
  normal_text = λ t. t;
  read_number = λ t. none;
  stored_language = λ user. none;
  stored_max_suggestions = λ user. none;
}

abbrev response : Response
response = record {
  error = none;
  result = some "{title}";
  usage = none;
  model_used = "sonnet";
  duration_ms = 10;
  num_turns = some 1;
  provider_request_id = none;
  steps = [];
  observation = some (record { execution_id = 5; attempt_id = 1; rest = "{}" });
}

-- The first attempt of the graph fails.
abbrev service : Service
service = record {
  settings = settings;
  load_context = λ kind p. some 3;
  issue_envelope = some (λ kind user. some (record { issued_key = 1; issued_model = 2 }));
  is_request = λ kind p. true;
  run_graph = λ kind p attempt. if attempt == 1 then raised (run_failed 7) else returned response;
  estimate_cost_usd = λ r. some 4;
  rendered_usage = λ u. "{}";
  failure_message = λ f. "failed";
  is_space = λ c. false;
}

-- The first attempts to finalize and to close are lost before they write.
abbrev lost_first : ℕ → Cut
lost_first n = if n == 1 then before else whole

abbrev schedule : Schedule
schedule = record {
  prepared_at = λ n. 10;
  finalized_at = λ n. 20;
  closed_at = λ n. 30;
  prepare_cut = λ n. whole;
  generate_cut = λ n. whole;
  finalize_cut = lost_first;
  close_cut = lost_first;
  more_generate_attempts = 2;
  canceled_first = false;
  canceled_prepared = false;
  canceled_generated = false;
  canceled_finalized = false;
}

run_job-IsClosed_example : IsClosed 5 (run_job service schedule title_suggestion payload world).1.db
run_job-IsClosed_example =
    run_job-IsClosed 5 service schedule title_suggestion payload world refl (unfold has_id in refl)
      (inr (inl tt))

-- The graph fails in both attempts that are left to it.
abbrev once_only : Schedule
once_only = record schedule { more_generate_attempts = 0 }

abbrev status_after : Schedule → Option JobStatus
status_after at = elim (find 5 (run_job service at title_suggestion payload world).1.db) [
  | none ↦ none
  | some r ↦ some r.status
]

completes : status_after schedule ≡ some completed
unfolding run_job find
completes = refl

fails : status_after once_only ≡ some failed
unfolding run_job find
fails = refl

abbrev generated : GeneratedAgentJob
generated = record { outcome = outcome_of payload 1 response (some 4); response = response }

after_activities-IsOnce_example : IsOnce 5 (
    after_activities service
      (finalizes generated 20 whole ∷ finalizes generated 21 whole ∷ user_cancels 5 22 ∷ [])
      world)
after_activities-IsOnce_example =
    after_activities-IsOnce 5 service
      (finalizes generated 20 whole ∷ finalizes generated 21 whole ∷ user_cancels 5 22 ∷ []) world
      (unfold times_handed in refl)

is_accepted : (settle_ledger service generated.outcome 20 world).0 ≡ true
unfolding settle_ledger outcome_of
is_accepted = refl

lost_outputs_example :
    (IsClosed 5
        (after_activities service
          (finalizes generated 20 midway ∷ finalizes generated 21 whole ∷ [])
          world).db
      × IsCompleted 5
          (after_activities service
            (finalizes generated 20 midway ∷ finalizes generated 21 whole ∷ [])
            world).db)
    × (times_handed 5
          (after_activities service
            (finalizes generated 20 midway ∷ finalizes generated 21 whole ∷ [])
            world).outputs
        ≡ times_handed 5 world.outputs)
lost_outputs_example =
    lost_outputs 5 service generated 20 world (finalizes generated 21 whole ∷ [])
      (unfold outcome_of in refl) (unfold outcome_of in refl) is_accepted
