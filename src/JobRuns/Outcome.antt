-- ===== src/JobRuns/Outcome.antt =====
-- What a run's response becomes in the ledger: src/tracer_agent/worker/workflows/jobs_outcome.py and `_outcome` of
-- jobs_activities.py.
use Prim.Native.String.{String}
use tracer_agent_python.Prelude.{ℕ, Option, none, some, List, [], ◌∷◌}
use tracer_agent_python.Jobs.Rows.{JobStatus, completed, failed, canceled, Step}
use tracer_agent_python.JobRuns.World.{Payload}

pub data Subtype : Type 0 where
  cancelled : Subtype
  other : ℕ → Subtype

pub record AgentError : Type 0 where
  pub subtype : Subtype
  pub summary : String

pub record TokenUsage : Type 0 where
  pub input_tokens : ℕ
  pub output_tokens : ℕ
  pub cache_read_tokens : ℕ
  pub cache_creation_tokens : ℕ

-- `AgentRunObservationDTO`: its key, and the rest as one.
pub record ObservationDto : Type 0 where
  pub execution_id : ℕ
  pub attempt_id : ℕ
  pub rest : String

-- `AgentResponse`, as far as a job reads it.
pub record Response : Type 0 where
  pub error : Option AgentError
  pub result : Option String
  pub usage : Option TokenUsage
  pub model_used : String
  pub duration_ms : ℕ
  pub num_turns : Option ℕ
  pub provider_request_id : Option String
  pub steps : List Step
  pub observation : Option ObservationDto

pub record AttemptRecord : Type 0 where
  pub attempt : ℕ
  pub subtype : Subtype
  pub model : String
  pub cost_usd : Option ℕ
  pub duration_ms : ℕ
  pub usage : Option TokenUsage
  pub error_message : String
  pub provider_request_id : Option String

pub data JobUsage : Type 0 where
  failed_attempts : List AttemptRecord → JobUsage
  finished : String → ℕ → Option ℕ → Option ℕ → Option TokenUsage → JobUsage

unfoldable pub status_and_error : Response → JobStatus × Option String
status_and_error response = elim response.error [
  | none ↦ (completed, none)
  | some error ↦ elim error.subtype [
    | cancelled ↦ (canceled, some error.summary)
    | other n ↦ (failed, some error.summary)
  ]
]

unfoldable pub attempt_record : Response → AgentError → Option ℕ → ℕ → AttemptRecord
attempt_record response error cost_usd attempt = record {
  attempt = attempt;
  subtype = error.subtype;
  model = response.model_used;
  cost_usd = cost_usd;
  duration_ms = response.duration_ms;
  usage = response.usage;
  error_message = error.summary;
  provider_request_id = response.provider_request_id;
}

unfoldable pub job_usage : Response → Option ℕ → ℕ → JobUsage
unfolding attempt_record
job_usage response cost_usd attempt = elim response.error [
  | none ↦
      finished response.model_used response.duration_ms cost_usd response.num_turns response.usage
  | some error ↦ failed_attempts (attempt_record response error cost_usd attempt ∷ [])
]

pub record JobOutcome : Type 0 where
  pub job_id : Option ℕ
  pub user_id : ℕ
  pub status : JobStatus
  pub attempt : ℕ
  pub result : Option String
  pub usage : JobUsage
  pub error : Option String
  pub steps : List Step
  pub observation : Option ObservationDto

-- `_attempt`
abbrev pub attempt_number : Option ℕ → ℕ
attempt_number none = 1
attempt_number (some n) = n

-- `_outcome`; the request has the execution, the user and the attempt of its payload.
unfoldable pub outcome_of : Payload → ℕ → Response → Option ℕ → JobOutcome
unfolding status_and_error job_usage
outcome_of payload user_id response cost_usd = record {
  job_id = payload.execution_id;
  user_id = user_id;
  status = (status_and_error response).0;
  attempt = attempt_number payload.attempt_id;
  result = response.result;
  usage = job_usage response cost_usd (attempt_number payload.attempt_id);
  error = (status_and_error response).1;
  steps = response.steps;
  observation = response.observation;
}

pub record GeneratedAgentJob : Type 0 where
  pub outcome : JobOutcome
  pub response : Response
