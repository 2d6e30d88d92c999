-- ===== src/ChatTurns/Tests.antt =====
-- Runs of a chat's turn and the theorems at concrete inputs.
use tracer_agent_python.Prelude.{
  ◌≡◌, ◌≢◌, refl, true, false, none, some, [], ◌∷◌, arith, ◌==◌, ◌+◌, inl, inr,
}
use tracer_agent_python.ChatLedger.Rows.{
  Execution, queued, running, starting, python, succeeded, ChatExecutionSpend, is_queued,
}
use tracer_agent_python.ChatLedger.Statements.{
  find_by_id, complete_running, claim_queued, begin_attempt,
}
use tracer_agent_python.ChatLedger.Update.{count_rows}
use tracer_agent_python.ChatLedger.Serial.{IsSerial}
use tracer_agent_python.ChatTurns.Tables.{Store, Thread, assistant, ObservationDto, ChatTurnOutcome}
use tracer_agent_python.ChatTurns.Ended.{returned, raised, observation_conflict}
use tracer_agent_python.ChatTurns.Writer.{finalize}
use tracer_agent_python.ChatTurns.Redelivery.{redelivered, finalized_once}
use tracer_agent_python.ChatTurns.Written.{IsWritten, HasNothingOf, finalize_all_or_nothing}
use tracer_agent_python.ChatTurns.Turn.{
  ChatRequest, ChatData, ExecutionTrace, finishes, finish_error,
}
use tracer_agent_python.ChatTurns.Activities.{Service, ran}
use tracer_agent_python.ChatTurns.Execution.{Schedule, before, whole, run_execution}
use tracer_agent_python.ChatTurns.Lives.{IsClosed}
use tracer_agent_python.ChatTurns.Closes.{run_execution-IsClosed}
use tracer_agent_python.ChatTurns.Drain.{Child, ThreadState, drain}
use tracer_agent_python.ChatTurns.DrainEnds.{TellsOf, drain_ends}

abbrev waiting : Execution
waiting = record {
  id = 1;
  user_id = 7;
  thread_id = 3;
  replay_anchor_message_id = 90;
  client_request_id = 1;
  input_hash = 1;
  model = none;
  language = none;
  requested_backend = some python;
  status = queued;
  phase = starting;
  draft_text = "";
  draft_seq = 0;
  attempt = 0;
  assistant_message_id = none;
  spend = none;
  error = none;
  created_at = 10;
  updated_at = 10;
  started_at = none;
  completed_at = none;
}

abbrev active : Execution
active = record waiting { status = running; attempt = 1 }

abbrev home : Thread
home = record { id = 3; user_id = 7; backend = none; updated_at = 0 }

abbrev store_of : Execution → Store
store_of r = record {
  ledger = record { executions = r ∷ []; observations = [] };
  messages = [];
  threads = home ∷ [];
  steps = [];
}

abbrev spend : ChatExecutionSpend
spend = record {
  model_used = "m";
  cost_usd = none;
  num_turns = some 1;
  stop_reason = "completed";
  usage = "{}";
}

abbrev streamed : ObservationDto
streamed = record {
  execution_id = 1;
  attempt_id = 1;
  status = succeeded;
  ttft_ms = some 40;
  body = 1 ∷ [];
}

abbrev answered : ChatTurnOutcome
answered = record {
  execution_id = 1;
  user_id = 7;
  thread_id = 3;
  attempt = 1;
  canceled = false;
  text = 104 ∷ 105 ∷ [];
  spend = spend;
  tool_calls = [];
  steps = (record { seq = 0; role = assistant; content = 104 ∷ 105 ∷ []; others = "" }) ∷ [];
  observation = some streamed;
}

store-IsSerial : (r : Execution) → IsSerial (store_of r).ledger
unfolding count_rows
store-IsSerial r = record { one_row = λ k. ground arith; one_running = λ t. ground arith }

-- The turn of a run that streamed is written once; the retry ends with an error.
finalize_streamed : (finalize answered 50 (store_of active)).0 ≡ returned true
unfolding finalize complete_running
finalize_streamed = refl

finalize_streamed_again :
    (finalize answered 60 (finalize answered 50 (store_of active)).1).0
    ≡ raised observation_conflict
unfolding finalize complete_running
finalize_streamed_again = refl

redelivered_example :
    let s' = (finalize answered 50 (store_of active)).1 in
    finalize answered 60 s' ≡ (raised observation_conflict, s')
redelivered_example =
    redelivered answered 50 (store_of active) active (store-IsSerial active)
      (unfold find_by_id in refl) finalize_streamed 60

finalized_once_example :
    let other : ChatTurnOutcome = record answered { attempt = 2; observation = none } in
    let s' = (finalize answered 50 (store_of active)).1 in
    let (again, s'') = finalize other 60 s' in
    (again ≢ returned true)
    × (s''.ledger.executions ≡ s'.ledger.executions)
    × (s''.messages ≡ s'.messages)
    × (s''.threads ≡ s'.threads)
    × (s''.steps ≡ s'.steps)
finalized_once_example =
    finalized_once answered (record answered { attempt = 2; observation = none }) 50 60
      (store_of active) active (store-IsSerial active) (unfold find_by_id in refl) finalize_streamed
      refl

finalize_all_or_nothing_example :
    ((finalize answered 50 (store_of active)).0 ≡ returned true
      → IsWritten answered 50 active (store_of active) (finalize answered 50 (store_of active)).1)
    × ((finalize answered 50 (store_of active)).0 ≢ returned true
        → HasNothingOf (store_of active) (finalize answered 50 (store_of active)).1)
finalize_all_or_nothing_example =
    finalize_all_or_nothing answered 50 (store_of active) active (store-IsSerial active)
      (unfold find_by_id in refl)

abbrev said : ChatData
said = record { assistant_text = 104 ∷ 105 ∷ []; proposed_writes = none }

abbrev trace : ExecutionTrace
trace = record {
  steps = [];
  usage = "{}";
  turns = 1;
  actual_model = none;
  landed = false;
  first_token_ms = some 40;
  body = [];
}

abbrev envelope : ChatRequest
envelope = record {
  execution_id = 0;
  thread_id = 0;
  user_id = 0;
  language = "en";
  model = "m";
  others = "";
}

abbrev service : Service
service = record {
  issue = λ id n. some envelope;
  validates = λ request. true;
  run_chat = λ request n. ran (finishes said) trace;
  estimate_cost = λ request model usage. none;
  is_space = λ c. c == 32;
  summarizes = λ n. true;
  describe = λ f. "failed";
}

abbrev at : Schedule
at = record {
  lease_s = 1200;
  seats_at = λ k. record { first = 20; second = 21; third = 22 };
  begun_at = λ n. 30;
  observed_at = λ n. 40;
  settled_at = λ n. 50;
  failed_at = λ n. 60 + n;
  fail_cut = λ n. elim (n == 1) [ true ↦ before | false ↦ whole ];
  meanwhile = λ k s. s;
  canceled_first = false;
  canceled_wait = λ k. false;
  canceled_settling = true;
  prepare_lost = false;
  generate_lost = false;
  settle_lost = false;
}

-- The execution is settled, though the workflow was cancelled meanwhile.
run_canceled_settling : (run_execution service at 1 3 (store_of waiting)).0 ≡ false
unfolding run_execution find_by_id claim_queued begin_attempt complete_running finalize
run_canceled_settling = refl

run_answers :
    (run_execution service (record at { canceled_settling = false }) 1 3 (store_of waiting)).0
    ≡ true
unfolding run_execution find_by_id claim_queued begin_attempt complete_running finalize
run_answers = refl

run_execution-IsClosed_example :
    IsClosed 1 (run_execution service at 1 3 (store_of waiting)).1.ledger
unfolding find_by_id is_queued finish_error
run_execution-IsClosed_example =
    run_execution-IsClosed service (λ request n t h. absurd cc) at 1 3 (λ k s a. a)
      (record { starts = refl; waits = λ k. refl }) (store_of waiting)
      (inl (record {
        serial = store-IsSerial waiting;
        row = waiting;
        found = refl;
        waits = refl;
        unanswered = refl;
        failed_only = tt;
      }))
      (inr (inl tt))

abbrev thread_state : ThreadState
thread_state = record {
  last_failed = none;
  completed = 0;
  started = [];
  wake = false;
  store = store_of waiting;
}

-- A child that gives up at once.
abbrev giving_up : Child
giving_up id s = (false, s)

drain_ends_example :
    TellsOf 100 3 (drain 100 giving_up 3 3 thread_state).0 (drain 100 giving_up 3 3 thread_state).1
drain_ends_example = drain_ends 100 giving_up 3 (λ id s. refl) 3 thread_state (omega arith)
