-- ===== src/ChatLedger/Tests.antt =====
-- Runs of the chat execution ledger and the theorems at concrete inputs.
use tracer_agent_python.Prelude.{
  ◌≡◌, refl, false, ◌&&◌, none, some, List, [], ◌∷◌, arith, ◌==◌, ltb, leb, if◌then◌else◌,
}
use tracer_agent_python.ChatLedger.Rows.{
  Execution, Ledger, queued, running, canceled, starting, responding, python, ChatExecutionSpend,
  is_running,
}
use tracer_agent_python.ChatLedger.Statements.{
  find_by_id, claim_queued, claimed, thread_busy, next_queued_in_thread, checkpoint_running,
  write_draft, begin_attempt, open_attempt, record_canceled_outcome, cancel_active,
  close_canceled_outcome, recover_stale_running,
}
use tracer_agent_python.ChatLedger.Update.{count_rows}
use tracer_agent_python.ChatLedger.Requests.{
  Request, claim, begin, checkpoint, complete, cancel, record_canceled, after_all,
}
use tracer_agent_python.ChatLedger.Pairs.{Pairs}
use tracer_agent_python.ChatLedger.Advance.{Advances, after_all-Advances}
use tracer_agent_python.ChatLedger.Serial.{IsSerial}
use tracer_agent_python.ChatLedger.Turns.{after_all-IsSerial}
use tracer_agent_python.ChatLedger.Outcomes.{checkpoint_outcome, begin_outcome}
use tracer_agent_python.ChatLedger.Held.{IsHeld}
use tracer_agent_python.ChatLedger.Closing.{
  completing, canceling, close, closed, closings_exclude, canceled_outcome_once,
}

abbrev waiting : Execution
waiting = record {
  id = 1;
  user_id = 7;
  thread_id = 3;
  replay_anchor_message_id = 90;
  client_request_id = 1;
  input_hash = 1;
  model = none;
  language = none;
  requested_backend = some python;
  status = queued;
  phase = starting;
  draft_text = "";
  draft_seq = 0;
  attempt = 0;
  assistant_message_id = none;
  spend = none;
  error = none;
  created_at = 10;
  updated_at = 10;
  started_at = none;
  completed_at = none;
}

abbrev active : Execution
active = record waiting { id = 2; status = running; attempt = 1; draft_seq = 4; created_at = 5 }

abbrev ledger : Ledger
ledger = record { executions = waiting ∷ active ∷ []; observations = [] }

-- The thread is taken, until the owner of its running execution is given up.
claim_busy : (claim_queued 1 20 ledger).0 ≡ thread_busy
unfolding claim_queued
claim_busy = refl

claim_after_recovery :
    let (n, freed) = recover_stale_running 100 101 (some 3) ledger in
    ((claim_queued 1 102 freed).0 ≡ claimed) × (n ≡ 1) × (next_queued_in_thread 3 freed ≡ some 2)
unfolding recover_stale_running claim_queued next_queued_in_thread
claim_after_recovery = (refl, refl, refl)

abbrev spend : ChatExecutionSpend
spend = record {
  model_used = "m";
  cost_usd = none;
  num_turns = some 2;
  stop_reason = "completed";
  usage = "{}";
}

abbrev script : List Request
script =
    checkpoint 2 1 "hi" 5 responding 20
    ∷ complete 2 2 spend 30
    ∷ claim 1 31
    ∷ begin 1 1 32
    ∷ cancel 1 40
    ∷ []

after_all-Advances_example : Pairs Advances ledger.executions (after_all script ledger).executions
after_all-Advances_example = after_all-Advances script ledger

ledger-IsSerial : IsSerial ledger
unfolding count_rows is_running
ledger-IsSerial = record { one_row = λ k. ground arith; one_running = λ t. ground arith }

after_all-IsSerial_example : IsSerial (after_all script ledger)
after_all-IsSerial_example = after_all-IsSerial script ledger ledger-IsSerial

checkpoint_outcome_example :
    let (stored, db') = checkpoint_running 2 1 "hi" 5 responding 20 ledger in
    (stored ≡ (is_running running && (◌==◌ 1 1 && ltb 4 5)))
    × (find_by_id 2 db' ≡ some (if stored then write_draft "hi" 5 responding 20 active else active))
unfolding find_by_id
checkpoint_outcome_example =
    checkpoint_outcome 2 1 "hi" 5 responding 20 ledger active ledger-IsSerial refl

begin_outcome_example :
    let (opened, db') = begin_attempt 2 2 20 ledger in
    (opened ≡ (is_running running && leb 1 2))
    × (find_by_id 2 db' ≡ some (if opened then open_attempt 2 20 active else active))
unfolding find_by_id
begin_outcome_example = begin_outcome 2 2 20 ledger active ledger-IsSerial refl

closings_exclude_example :
    let later = after_all (record_canceled 2 1 spend 21 ∷ []) (close (canceling 20) 2 ledger).1 in
    (s : Execution) × (find_by_id 2 later ≡ some s)
    × IsHeld (closed (canceling 20) active) s
    × ((close (completing 2 spend 22) 2 later).0 ≡ false)
    × (find_by_id 2 (close (completing 2 spend 22) 2 later).1 ≡ some s)
unfolding find_by_id close cancel_active
closings_exclude_example =
    closings_exclude (canceling 20) (completing 2 spend 22) (record_canceled 2 1 spend 21 ∷ []) 2
      ledger active ledger-IsSerial refl refl

abbrev stopped : Execution
stopped = record active { status = canceled }

abbrev stopped_ledger : Ledger
stopped_ledger = record { executions = stopped ∷ []; observations = [] }

stopped-IsSerial : IsSerial stopped_ledger
unfolding count_rows is_running
stopped-IsSerial = record { one_row = λ k. ground arith; one_running = λ t. ground arith }

canceled_outcome_once_example :
    let (_, db') = record_canceled_outcome 2 2 spend 50 stopped_ledger in
    let (again, db'') = record_canceled_outcome 2 9 spend 60 db' in
    (again ≡ false) × (find_by_id 2 db'' ≡ some (close_canceled_outcome 2 spend 50 stopped))
unfolding find_by_id record_canceled_outcome
canceled_outcome_once_example =
    canceled_outcome_once 2 2 9 spend spend 50 60 stopped_ledger stopped stopped-IsSerial refl refl
