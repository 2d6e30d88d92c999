-- ===== src/ChatTurns/Writer.antt =====
-- `ChatExecutionWriter` of src/tracer_agent/worker/agents/chat/execution_writer.py. The wake-up
-- after the transaction is left out: nothing here reads it.
use tracer_agent_python.Prelude.{
  ℕ, Bool, true, false, not, Option, none, some, List, [], ◌∷◌, ◌==◌, if◌then◌else◌, ◌&&◌, any,
  same_text,
}
use tracer_agent_python.ChatLedger.Rows.{agent_backend, same_observation, Observation, Ledger}
use tracer_agent_python.ChatLedger.Statements.{complete_running, record_canceled_outcome}
use tracer_agent_python.ChatTurns.Tables.{
  assistant, Message, Thread, Step, StepRow, Store, ObservationDto, ChatTurnOutcome,
}
use tracer_agent_python.ChatTurns.Ended.{
  M, Ended, returned, raised, invalid_observation, observation_mismatch, observation_lost,
  observation_conflict, thread_missing, pure, raise, ◌>>=◌, ◌>>◌, transaction,
}

-- The primary key of `agent_run_observations`.
unfoldable pub is_observation : ℕ → ℕ → Observation → Bool
is_observation execution_id attempt o = o.execution_id == execution_id && o.attempt_id == attempt

unfoldable pub find_observation : ℕ → ℕ → List Observation → Option Observation
unfolding is_observation
find_observation execution_id attempt [] = none
find_observation execution_id attempt (o ∷ os) =
    if is_observation execution_id attempt o
    then some o
    else find_observation execution_id attempt os

unfoldable pub observation_row : ℕ → ObservationDto → Observation
observation_row user_id o = record {
  execution_id = o.execution_id;
  attempt_id = o.attempt_id;
  user_id = user_id;
  status = o.status;
  ttft_ms = o.ttft_ms;
  body = o.body;
}

-- `_observation_payload` and the model's default: the time to the first token is not read back.
unfoldable pub observation_payload : Observation → ObservationDto
observation_payload o = record {
  execution_id = o.execution_id;
  attempt_id = o.attempt_id;
  status = o.status;
  ttft_ms = none;
  body = o.body;
}

abbrev pub same_option : Option ℕ → Option ℕ → Bool
same_option none none = true
same_option (some a) (some b) = a == b
same_option _ _ = false

unfoldable pub same_dto : ObservationDto → ObservationDto → Bool
unfolding same_observation
same_dto a b =
    a.execution_id == b.execution_id
    && (a.attempt_id == b.attempt_id
        && (same_observation a.status b.status
            && (same_option a.ttft_ms b.ttft_ms && same_text a.body b.body)))

-- `INSERT … ON CONFLICT (execution_id, attempt_id) DO NOTHING`, and what is made of no row.
unfoldable pub insertion : ℕ → ObservationDto → List Observation → Ended (List Observation)
unfolding find_observation observation_row observation_payload same_dto
insertion user_id o observations =
    elim (find_observation o.execution_id o.attempt_id observations) [
      | none ↦ returned (observation_row user_id o ∷ observations)
      | some stored ↦
          if not (stored.user_id == user_id)
          then raised observation_lost
          else if not (same_dto (observation_payload stored) o)
          then raised observation_conflict
          else returned observations
    ]

unfoldable pub insertion_of_values :
    ℕ → ℕ → ℕ → Option ObservationDto → List Observation → Ended (List Observation)
unfolding insertion
insertion_of_values execution_id user_id attempt none observations = raised invalid_observation
insertion_of_values execution_id user_id attempt (some o) observations =
    if not (o.execution_id == execution_id && o.attempt_id == attempt)
    then raised observation_mismatch
    else insertion user_id o observations

abbrev pub with_observations : Store → List Observation → Store
with_observations s observations = record s {
  ledger = record s.ledger { observations = observations };
}

-- `_insert_observation_values`
unfoldable pub insert_observation_values : ℕ → ℕ → ℕ → Option ObservationDto → M (Unit {0})
unfolding insertion_of_values
insert_observation_values execution_id user_id attempt payload s =
    elim (insertion_of_values execution_id user_id attempt payload s.ledger.observations) [
      | returned observations ↦ (returned tt, with_observations s observations)
      | raised f ↦ (raised f, s)
    ]

unfoldable pub record_observation : ℕ → ℕ → ℕ → Option ObservationDto → M (Unit {0})
unfolding insert_observation_values
record_observation execution_id user_id attempt payload =
    transaction (insert_observation_values execution_id user_id attempt payload)

-- `_settle`: the message's identifier is the execution's.
unfoldable pub settle_ledger : ChatTurnOutcome → ℕ → Ledger → Bool × Ledger
settle_ledger o now db =
    if o.canceled
    then record_canceled_outcome o.execution_id o.execution_id o.spend now db
    else complete_running o.execution_id o.execution_id o.spend now db

unfoldable pub settle : ChatTurnOutcome → ℕ → M Bool
unfolding settle_ledger
settle o now s = (
  returned (settle_ledger o now s.ledger).0,
  record s { ledger = (settle_ledger o now s.ledger).1 },
)

-- `ON CONFLICT (id) DO UPDATE SET content = …, tool_calls = …`
unfoldable pub put_message : Message → List Message → List Message
put_message m [] = m ∷ []
put_message m (x ∷ xs) =
    if x.id == m.id
    then (record x { content = m.content; tool_calls = m.tool_calls }) ∷ xs
    else x ∷ put_message m xs

-- `outcome.tool_calls or None`
unfoldable pub calls_or_none : List ℕ → Option (List ℕ)
calls_or_none [] = none
calls_or_none (c ∷ cs) = some (c ∷ cs)

unfoldable pub assistant_message : ChatTurnOutcome → ℕ → Message
unfolding calls_or_none
assistant_message o now = record {
  id = o.execution_id;
  thread_id = o.thread_id;
  role = assistant;
  content = o.text;
  tool_calls = calls_or_none o.tool_calls;
  created_at = now;
}

unfoldable pub append_message : ChatTurnOutcome → ℕ → M (Unit {0})
unfolding put_message assistant_message
append_message o now s =
    pure tt (record s { messages = put_message (assistant_message o now) s.messages })

-- The unique index on `(execution_id, attempt, seq)`.
unfoldable pub same_place : ℕ → ℕ → ℕ → StepRow → Bool
same_place execution_id attempt seq r =
    r.execution_id == execution_id && (r.attempt == attempt && r.step.seq == seq)

unfoldable pub insert_step : ChatTurnOutcome → Step → ℕ → List StepRow → List StepRow
unfolding same_place
insert_step o step now rows =
    if any (same_place o.execution_id o.attempt step.seq) rows
    then rows
    else record {
      execution_id = o.execution_id;
      user_id = o.user_id;
      attempt = o.attempt;
      step = step;
      created_at = now;
    }
      ∷ rows

unfoldable pub insert_steps : ChatTurnOutcome → List Step → ℕ → List StepRow → List StepRow
unfolding insert_step
insert_steps o [] now rows = rows
insert_steps o (step ∷ steps) now rows = insert_steps o steps now (insert_step o step now rows)

unfoldable pub write_steps : ChatTurnOutcome → ℕ → M (Unit {0})
unfolding insert_steps
write_steps o now s = pure tt (record s { steps = insert_steps o o.steps now s.steps })

unfoldable pub owns : ℕ → ℕ → Thread → Bool
owns thread_id user_id t = t.id == thread_id && t.user_id == user_id

unfoldable pub touch_threads : ℕ → ℕ → ℕ → List Thread → List Thread
unfolding owns
touch_threads thread_id user_id now [] = []
touch_threads thread_id user_id now (t ∷ ts) =
    (if owns thread_id user_id t
      then record t { backend = some agent_backend; updated_at = now }
      else t)
    ∷ touch_threads thread_id user_id now ts

-- `_record_thread_turn`
unfoldable pub record_thread_turn : ChatTurnOutcome → ℕ → M (Unit {0})
unfolding owns touch_threads
record_thread_turn o now s =
    if any (owns o.thread_id o.user_id) s.threads
    then pure tt (record s { threads = touch_threads o.thread_id o.user_id now s.threads })
    else raise thread_missing s

-- What follows an accepted settlement.
unfoldable pub write_turn : ChatTurnOutcome → ℕ → M Bool
unfolding append_message write_steps record_thread_turn
write_turn o now = do append_message o now; write_steps o now; record_thread_turn o now; pure true

-- `finalize`
unfoldable pub finalize : ChatTurnOutcome → ℕ → M Bool
unfolding insert_observation_values settle write_turn
finalize o now = transaction do
  insert_observation_values o.execution_id o.user_id o.attempt o.observation
  settled ← settle o now
  if settled then write_turn o now else pure false
