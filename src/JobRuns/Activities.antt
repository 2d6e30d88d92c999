-- ===== src/JobRuns/Activities.antt =====
-- `AgentJobActivities` of src/tracer_agent/worker/workflows/jobs_activities.py and `JobExecutionWriter` of
-- jobs_writer.py.
use Prim.Native.String.{String}
use tracer_agent_python.Prelude.{
  ℕ, Bool, true, false, Option, none, some, List, [], ◌∷◌, ◌++◌, any, ◌==◌, ◌&&◌, if◌then◌else◌,
}
use tracer_agent_python.Jobs.Rows.{JobStatus, running, completed, failed, canceled}
use tracer_agent_python.Jobs.Ledger.{mark_running, settle_job, record_steps}
use tracer_agent_python.JobRuns.World.{
  JobKind, Observation, World, Payload, Fault, no_user, no_credentials, envelope_unavailable,
  invalid_request, context_unavailable, closed_before_start, lost, Ended, returned, raised, M, Cut,
  whole, before, midway, at_end,
}
use tracer_agent_python.JobRuns.Outcome.{ObservationDto, JobOutcome, GeneratedAgentJob, outcome_of}
use tracer_agent_python.JobRuns.Service.{Envelope, Service, carry_settings, collect_context}

-- `_notify`, which never raises.
abbrev pub notify : ℕ → JobStatus → World → World
notify job_id status w = record w { notified = w.notified ++ ((job_id, status) ∷ []) }

-- `prepare` with what it collected: its write.
unfoldable pub mark_of : Option ℕ → Payload → ℕ → M Payload
unfolding mark_running
mark_of none prepared now w = (returned prepared, w)
mark_of (some job_id) prepared now w =
    let (accepted, db) = mark_running job_id now w.db in
    if accepted
    then (returned prepared, notify job_id running (record w { db = db }))
    else (raised closed_before_start, record w { db = db })

unfoldable pub prepared_for : Service → JobKind → Option ℕ → Option Payload → ℕ → M Payload
unfolding carry_settings mark_of
prepared_for service kind none collected now w = (raised no_user, w)
prepared_for service kind (some user_id) none now w = (raised context_unavailable, w)
prepared_for service kind (some user_id) (some collected) now w =
    let prepared = carry_settings service.settings kind user_id collected in
    mark_of prepared.execution_id prepared now w

unfoldable pub prepare : Service → JobKind → Payload → ℕ → M Payload
unfolding collect_context prepared_for
prepare service kind payload now w =
    prepared_for service kind payload.user_id (collect_context service kind payload) now w

-- `merge_envelope`
unfoldable pub merge_envelope : Payload → Envelope → Payload
merge_envelope payload envelope = record payload {
  api_key = some envelope.issued_key;
  model = elim payload.model [ none ↦ some envelope.issued_model | some m ↦ some m ];
}

-- `_resolve_payload`
unfoldable pub resolve_payload : Service → JobKind → Payload → Ended Payload
unfolding merge_envelope
resolve_payload service kind payload = elim payload.api_key [
  | some key ↦ returned payload
  | none ↦ elim service.issue_envelope [
    | none ↦ raised no_credentials
    | some issue ↦ elim payload.user_id [
      | none ↦ raised no_user
      | some user_id ↦ elim (issue kind user_id) [
        | none ↦ raised envelope_unavailable
        | some envelope ↦ returned (merge_envelope payload envelope)
      ]
    ]
  ]
]

unfoldable pub generated_for : Service → JobKind → ℕ → Payload → Option ℕ → Ended GeneratedAgentJob
unfolding outcome_of
generated_for service kind attempt payload none = raised no_user
generated_for service kind attempt payload (some user_id) =
    if service.is_request kind payload
    then elim (service.run_graph kind payload attempt) [
      | returned response ↦ returned (record {
        outcome = outcome_of payload user_id response (service.estimate_cost_usd response);
        response = response;
      })
      | raised f ↦ raised f
    ]
    else raised invalid_request

unfoldable pub generated_from : Service → JobKind → ℕ → Ended Payload → Ended GeneratedAgentJob
unfolding generated_for
generated_from service kind attempt (returned payload) =
    generated_for service kind attempt payload payload.user_id
generated_from service kind attempt (raised f) = raised f

-- `generate`, which writes nothing.
unfoldable pub generate : Service → JobKind → Payload → ℕ → M GeneratedAgentJob
unfolding resolve_payload generated_from
generate service kind payload attempt w =
    (generated_from service kind attempt (resolve_payload service kind payload), w)

-- `ON CONFLICT (execution_id, attempt_id) DO NOTHING`
unfoldable pub insert_observation : ℕ → ObservationDto → ℕ → List Observation → List Observation
insert_observation user_id o now rows =
    if any (λ (r : Observation). r.execution_id == o.execution_id && r.attempt_id == o.attempt_id)
      rows
    then rows
    else rows
      ++ (record {
        execution_id = o.execution_id;
        attempt_id = o.attempt_id;
        user_id = user_id;
        payload = o.rest;
        created_at = now;
      }
          ∷ [])

-- `outcome.result`, as the settlement gets it.
abbrev result_text : Option String → String
result_text none = "{}"
result_text (some result) = result

-- `JobExecutionWriter.finalize`, one transaction.
unfoldable pub finalize_job : Service → JobOutcome → ℕ → ℕ → World → Bool × World
unfolding insert_observation record_steps settle_job
finalize_job service o job_id now w =
    let observed : List Observation = elim o.observation [
      | none ↦ w.observations
      | some observation ↦ insert_observation o.user_id observation now w.observations
    ] in
    let (settled, db) =
      settle_job job_id o.status (result_text o.result) (service.rendered_usage o.usage) o.error now
        (record_steps service.is_space job_id o.user_id o.attempt o.steps now w.db) in
    (settled, record w { db = db; observations = observed })

abbrev pub is_completed : JobStatus → Bool
is_completed completed = true
is_completed _ = false

-- `settle_outputs`, which swallows what its writing raises: the job is handed over.
unfoldable pub hand_over : Bool → JobOutcome → World → World
hand_over settled o w =
    if settled && is_completed o.status
    then record w { outputs = w.outputs ++ (o.job_id ∷ []) }
    else w

-- The settlement in the ledger and its notification; without a job there is nothing to settle.
unfoldable pub settled_for : Service → JobOutcome → Option ℕ → ℕ → World → Bool × World
unfolding finalize_job
settled_for service o none now w = (true, w)
settled_for service o (some job_id) now w =
    let (settled, later) = finalize_job service o job_id now w in
    (settled, if settled then notify job_id o.status later else later)

unfoldable pub settle_ledger : Service → JobOutcome → ℕ → World → Bool × World
unfolding settled_for
settle_ledger service o now w = settled_for service o o.job_id now w

-- `finalize`, lost somewhere; the callback at its end never raises.
unfoldable pub finalize : Service → GeneratedAgentJob → ℕ → Cut → M (Unit {0})
unfolding settle_ledger hand_over
finalize service generated now cut w =
    let (settled, later) = settle_ledger service generated.outcome now w in
    elim cut [
      | whole ↦ (returned tt, hand_over settled generated.outcome later)
      | before ↦ (raised lost, w)
      | midway ↦ (raised lost, later)
      | at_end ↦ (raised lost, hand_over settled generated.outcome later)
    ]

-- A settlement without a result, and its notification if it was accepted.
unfoldable pub close_job : ℕ → JobStatus → String → Bool → ℕ → World → World
unfolding settle_job
close_job job_id status message tells now w =
    let (settled, db) = settle_job job_id status "{}" "{}" (some message) now w.db in
    if settled && tells then notify job_id status (record w { db = db }) else record w { db = db }

abbrev has_user : Payload → Bool
has_user payload = elim payload.user_id [ none ↦ false | some _ ↦ true ]

-- Without a job there is nothing to close.
unfoldable pub failed_for : Service → Option ℕ → Payload → Fault → ℕ → World → World
unfolding close_job
failed_for service none payload fault now w = w
failed_for service (some job_id) payload fault now w =
    close_job job_id failed (service.failure_message fault) (has_user payload) now w

unfoldable pub fail : Service → Payload → Fault → ℕ → M (Unit {0})
unfolding failed_for
fail service payload fault now w =
    (returned tt, failed_for service payload.execution_id payload fault now w)

-- `CANCELED_WITHOUT_SETTLEMENT`
abbrev canceled_without_settlement : String
canceled_without_settlement = "canceled without a settlement from this attempt"

unfoldable pub settle_canceled : ℕ → ℕ → M (Unit {0})
unfolding close_job
settle_canceled job_id now w =
    (returned tt, close_job job_id canceled canceled_without_settlement false now w)
