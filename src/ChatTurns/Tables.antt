-- ===== src/ChatTurns/Tables.antt =====
-- The tables that a turn writes beside the executions (columns and indexes in
-- src/tracer_agent/shared/agents/runtime/__fakes__/sqlite_ledger.py) and the values that pass between
-- the stages of a turn (src/tracer_agent/shared/workflows/chat_spec.py,
-- src/tracer_agent/worker/agents/chat/execution_writer.py). A text is its code points.
use Prim.Native.String.{String}
use tracer_agent_python.Prelude.{ℕ, Bool, Option, List}
use tracer_agent_python.ChatLedger.Rows.{Backend, ObservationStatus, ChatExecutionSpend, Ledger}

abbrev pub Text : Type 0
Text = List ℕ

pub data Role : Type 0 where
  user assistant tool orchestration : Role

pub record Message : Type 0 where
  pub id : ℕ
  pub thread_id : ℕ
  pub role : Role
  pub content : Text
  pub tool_calls : Option (List ℕ)
  pub created_at : ℕ

pub record Thread : Type 0 where
  pub id : ℕ
  pub user_id : ℕ
  pub backend : Option Backend
  pub updated_at : ℕ

-- `AgentStepDTO`
pub record Step : Type 0 where
  pub seq : ℕ
  pub role : Role
  pub content : Text
  pub others : String

pub record StepRow : Type 0 where
  pub execution_id : ℕ
  pub user_id : ℕ
  pub attempt : ℕ
  pub step : Step
  pub created_at : ℕ

pub record Store : Type 0 where
  pub ledger : Ledger
  pub messages : List Message
  pub threads : List Thread
  pub steps : List StepRow

-- `AgentRunObservationDTO`
pub record ObservationDto : Type 0 where
  pub execution_id : ℕ
  pub attempt_id : ℕ
  pub status : ObservationStatus
  pub ttft_ms : Option ℕ
  pub body : Text

-- `ChatTurnOutcome`. An observation that is not there is the empty payload.
pub record ChatTurnOutcome : Type 0 where
  pub execution_id : ℕ
  pub user_id : ℕ
  pub thread_id : ℕ
  pub attempt : ℕ
  pub canceled : Bool
  pub text : Text
  pub spend : ChatExecutionSpend
  pub tool_calls : List ℕ
  pub steps : List Step
  pub observation : Option ObservationDto
