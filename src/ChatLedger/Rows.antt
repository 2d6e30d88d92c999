-- ===== src/ChatLedger/Rows.antt =====
-- The rows of `chat_executions` and of the observations that its statements read
-- (src/tracer_agent/shared/agents/runtime/__fakes__/sqlite_ledger.py has the table's columns and
-- indexes; src/tracer_agent/shared/agents/chat/models.py the statuses). Identifiers and times are
-- only compared, so they are numbers; a cost is whole multiples of a small unit.
use Prim.Native.String.{String}
use tracer_agent_python.Prelude.{ℕ, Bool, true, false, Option, List}

pub data Status : Type 0 where
  queued running completed failed canceled : Status

pub data Phase : Type 0 where
  starting thinking responding tool done : Phase

pub data Backend : Type 0 where
  ts python : Backend

-- The axis of this service (`AGENT_BACKEND`).
abbrev pub agent_backend : Backend
agent_backend = python

pub data ObservationStatus : Type 0 where
  succeeded failed cancelled : ObservationStatus

unfoldable pub is_queued : Status → Bool
is_queued queued = true
is_queued _ = false

unfoldable pub is_running : Status → Bool
is_running running = true
is_running _ = false

unfoldable pub is_canceled : Status → Bool
is_canceled canceled = true
is_canceled _ = false

-- TERMINAL_CHAT_EXECUTION_STATUSES
unfoldable pub is_terminal : Status → Bool
is_terminal completed = true
is_terminal Status.failed = true
is_terminal canceled = true
is_terminal _ = false

unfoldable pub is_agent : Backend → Bool
is_agent python = true
is_agent ts = false

unfoldable pub same_observation : ObservationStatus → ObservationStatus → Bool
same_observation succeeded succeeded = true
same_observation ObservationStatus.failed ObservationStatus.failed = true
same_observation cancelled cancelled = true
same_observation _ _ = false

-- `ChatExecutionSpend`
pub record ChatExecutionSpend : Type 0 where
  pub model_used : String
  pub cost_usd : Option ℕ
  pub num_turns : Option ℕ
  pub stop_reason : String
  pub usage : String

pub record Execution : Type 0 where
  pub id : ℕ
  pub user_id : ℕ
  pub thread_id : ℕ
  pub replay_anchor_message_id : ℕ
  pub client_request_id : ℕ
  pub input_hash : ℕ
  pub model : Option String
  pub language : Option String
  pub requested_backend : Option Backend
  pub status : Status
  pub phase : Phase
  pub draft_text : String
  pub draft_seq : ℕ
  pub attempt : ℕ
  pub assistant_message_id : Option ℕ
  pub spend : Option ChatExecutionSpend
  pub error : Option String
  pub created_at : ℕ
  pub updated_at : ℕ
  pub started_at : Option ℕ
  pub completed_at : Option ℕ

-- The time to the first token stands alone, the other columns are one text.
pub record Observation : Type 0 where
  pub execution_id : ℕ
  pub attempt_id : ℕ
  pub user_id : ℕ
  pub status : ObservationStatus
  pub ttft_ms : Option ℕ
  pub body : List ℕ

pub record Ledger : Type 0 where
  pub executions : List Execution
  pub observations : List Observation
