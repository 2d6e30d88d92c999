-- ===== src/ChatTurns/Turn.antt =====
-- A run of the model as a turn's outcome: src/tracer_agent/worker/workflows/chat_turn.py, with the
-- response of src/tracer_agent/worker/agents/runtime/execution/runner.py and the observation of
-- trace.py there. Rates, the envelope's check and Python's test for a space are parameters; a usage
-- and what a turn carries unread are texts.
use Prim.Native.String.{String}
use tracer_agent_python.Prelude.{
  ℕ, Bool, true, false, not, Option, none, some, List, [], ◌∷◌, ◌==◌, if◌then◌else◌, any,
}
use tracer_agent_python.ChatLedger.Rows.{ObservationStatus, succeeded, cancelled}
use tracer_agent_python.ChatTurns.Tables.{
  Text, Role, assistant, Step, ObservationDto, ChatTurnOutcome,
}
use tracer_agent_python.ChatTurns.Ended.{
  Subtype, deadline_exceeded, run_failed, M, pure, raise, invalid_envelope, no_response,
}

-- `ChatRequest`, which is also what an issued envelope carries.
pub record ChatRequest : Type 0 where
  pub execution_id : ℕ
  pub thread_id : ℕ
  pub user_id : ℕ
  pub language : String
  pub model : String
  pub others : String

pub record PreparedChatExecution : Type 0 where
  pub execution_id : ℕ
  pub thread_id : ℕ
  pub user_id : ℕ
  pub language : String
  pub model : Option String

pub record GeneratedChatExecution : Type 0 where
  pub execution_id : ℕ
  pub thread_id : ℕ
  pub user_id : ℕ
  pub attempt : ℕ
  pub canceled : Bool
  pub text : Text
  pub model_used : String
  pub stop_reason : String
  pub cost_usd : Option ℕ
  pub num_turns : Option ℕ
  pub usage : String
  pub tool_calls : List ℕ
  pub steps : List Step
  pub observation : Option ObservationDto

-- `if prepared.model`
unfoldable pub model_or : Option String → String → String
model_or none issued = issued
model_or (some String.[]) issued = issued
model_or (some (String.◌∷◌ c s)) issued = String.◌∷◌ c s

unfoldable pub turn_request :
    (ChatRequest → Bool) → PreparedChatExecution → ChatRequest → M ChatRequest
unfolding model_or
turn_request validates prepared envelope =
    let request : ChatRequest = record envelope {
      execution_id = prepared.execution_id;
      thread_id = prepared.thread_id;
      user_id = prepared.user_id;
      language = prepared.language;
      model = model_or prepared.model envelope.model;
    } in
    if validates request then pure request else raise invalid_envelope

-- What a run has gathered, however it ended (`ExecutionTrace`).
pub record ExecutionTrace : Type 0 where
  pub steps : List Step
  pub usage : String
  pub turns : ℕ
  pub actual_model : Option String
  pub landed : Bool
  pub first_token_ms : Option ℕ
  pub body : Text

pub data ProposedWrite : Type 0 where
  write : ℕ → ProposedWrite
  not_a_write : ProposedWrite

-- `AgentResponse.data` of a chat.
pub record ChatData : Type 0 where
  pub assistant_text : Text
  pub proposed_writes : Option (List ProposedWrite)

-- How the awaited body of a run ends.
pub data Finish : Type 0 where
  finishes : ChatData → Finish
  overruns interrupted : Finish
  fails : Subtype → Finish

pub record AgentResponse : Type 0 where
  pub answer : Option ChatData
  pub model_used : String
  pub num_turns : Option ℕ
  pub usage : String
  pub error : Option Subtype
  pub steps : List Step
  pub landed : Bool
  pub actual_model : Option String
  pub observation : Option ObservationDto

-- The status that `to_observation` gives.
unfoldable pub observation_status : Option Subtype → ObservationStatus
observation_status none = succeeded
observation_status (some Subtype.cancelled) = cancelled
observation_status (some _) = ObservationStatus.failed

unfoldable pub to_observation : ExecutionTrace → ℕ → ℕ → Option Subtype → Option ℕ → ObservationDto
unfolding observation_status
to_observation trace execution_id attempt subtype ttft_ms = record {
  execution_id = execution_id;
  attempt_id = attempt;
  status = observation_status subtype;
  ttft_ms = ttft_ms;
  body = trace.body;
}

unfoldable pub finish_error : Finish → Option Subtype
finish_error (finishes _) = none
finish_error overruns = some deadline_exceeded
finish_error interrupted = some Subtype.cancelled
finish_error (fails subtype) = some subtype

unfoldable pub finish_data : Finish → Option ChatData
finish_data (finishes answer) = some answer
finish_data _ = none

-- `trace.turns or None`
unfoldable pub turns_or_none : ExecutionTrace → Option ℕ
turns_or_none trace = if trace.turns == 0 then none else some trace.turns

-- The end of `execute`.
unfoldable pub execute : ChatRequest → ℕ → Finish → ExecutionTrace → AgentResponse
unfolding finish_error finish_data turns_or_none to_observation
execute request attempt finish trace = record {
  answer = finish_data finish;
  model_used = request.model;
  num_turns = turns_or_none trace;
  usage = trace.usage;
  error = finish_error finish;
  steps = trace.steps;
  landed = trace.landed;
  actual_model = trace.actual_model;
  observation = some (
      to_observation trace request.execution_id attempt (finish_error finish) trace.first_token_ms);
}

unfoldable pub raise_for_error : AgentResponse → M (Unit {0})
raise_for_error response = elim response.error [
  | none ↦ pure tt
  | some subtype ↦ raise (run_failed subtype)
]

unfoldable pub is_assistant : Role → Bool
is_assistant assistant = true
is_assistant _ = false

abbrev pub is_nonempty : Text → Bool
is_nonempty [] = false
is_nonempty (c ∷ cs) = true

-- `_last_assistant_text`: the last one is the first of the reversed steps.
unfoldable pub last_assistant_text : List Step → Text
unfolding is_assistant
last_assistant_text [] = []
last_assistant_text (s ∷ steps) =
    let later = last_assistant_text steps in
    if is_nonempty later then later else if is_assistant s.role then s.content else []

unfoldable pub model_used : Option String → String → String
unfolding model_or
model_used actual requested = model_or actual requested

-- `_tool_calls`
unfoldable pub confirmations : List ProposedWrite → List ℕ
confirmations [] = []
confirmations (write id ∷ writes) = id ∷ confirmations writes
confirmations (not_a_write ∷ writes) = confirmations writes

unfoldable pub tool_calls : ChatData → List ℕ
unfolding confirmations
tool_calls answer = elim answer.proposed_writes [ none ↦ [] | some writes ↦ confirmations writes ]

module _ (estimate_cost : ChatRequest → String → String → Option ℕ) where
  unfoldable pub canceled_turn :
      PreparedChatExecution → ℕ → ChatRequest → ExecutionTrace → GeneratedChatExecution
  unfolding last_assistant_text model_used turns_or_none to_observation
  canceled_turn prepared attempt request trace = record {
    execution_id = prepared.execution_id;
    thread_id = prepared.thread_id;
    user_id = prepared.user_id;
    attempt = attempt;
    canceled = true;
    text = last_assistant_text trace.steps;
    model_used = model_used trace.actual_model request.model;
    stop_reason = "canceled";
    cost_usd = estimate_cost request (model_used trace.actual_model request.model) trace.usage;
    num_turns = turns_or_none trace;
    usage = trace.usage;
    tool_calls = [];
    steps = trace.steps;
    observation =
        some (to_observation trace prepared.execution_id attempt (some Subtype.cancelled) none);
  }

  unfoldable pub completed_turn :
      (ℕ → Bool)
      → PreparedChatExecution
      → ℕ
      → ChatRequest
      → AgentResponse
      → M GeneratedChatExecution
  unfolding tool_calls model_used
  completed_turn is_space prepared attempt request response =
      let text : Text = elim response.answer [ none ↦ [] | some d ↦ d.assistant_text ] in
      let generated : GeneratedChatExecution = record {
        execution_id = prepared.execution_id;
        thread_id = prepared.thread_id;
        user_id = prepared.user_id;
        attempt = attempt;
        canceled = false;
        text = text;
        model_used = model_used response.actual_model response.model_used;
        stop_reason = if response.landed then "budget_landed" else "completed";
        cost_usd =
            estimate_cost request (model_used response.actual_model response.model_used)
              response.usage;
        num_turns = response.num_turns;
        usage = response.usage;
        tool_calls = elim response.answer [ none ↦ [] | some d ↦ tool_calls d ];
        steps = response.steps;
        observation = response.observation;
      } in
      if any (λ c. not (is_space c)) text then pure generated else raise no_response

unfoldable pub ledger_outcome : GeneratedChatExecution → ChatTurnOutcome
ledger_outcome g = record {
  execution_id = g.execution_id;
  user_id = g.user_id;
  thread_id = g.thread_id;
  attempt = g.attempt;
  canceled = g.canceled;
  text = g.text;
  spend = record {
    model_used = g.model_used;
    cost_usd = g.cost_usd;
    num_turns = g.num_turns;
    stop_reason = g.stop_reason;
    usage = g.usage;
  };
  tool_calls = g.tool_calls;
  steps = g.steps;
  observation = g.observation;
}
