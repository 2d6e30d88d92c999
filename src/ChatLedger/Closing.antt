-- ===== src/ChatLedger/Closing.antt =====
-- Completion, failure and cancellation race for one execution
-- (src/tracer_agent/shared/agents/chat/execution_ledger.py): the first to be accepted is the last.
use Prim.Native.String.{String}
use tracer_agent_python.Prelude.{
  ℕ, ◌≡◌, refl, ◌∙◌, Bool, true, false, not, some, List, arith, ◌&&◌, ◌||◌, if◌then◌else◌, is_some,
}
use tracer_agent_python.ChatLedger.Rows.{
  Execution, Ledger, Observation, ObservationStatus, succeeded, cancelled, ChatExecutionSpend,
  is_running, is_queued, is_canceled, is_terminal,
}
use tracer_agent_python.ChatLedger.Statements.{
  find_by_id, complete_running, may_close_as, close_completed, record_canceled_outcome, observed_as,
  close_canceled_outcome, fail_active, close_failed, cancel_active, close_canceled,
}
use tracer_agent_python.ChatLedger.Serial.{IsSerial}
use tracer_agent_python.ChatLedger.Requests.{
  complete, record_canceled, fail, cancel, after, after_all, Request,
}
use tracer_agent_python.ChatLedger.Turns.{after-IsSerial, after_all-IsSerial}
use tracer_agent_python.ChatLedger.Held.{IsHeld, outcome_terminal, after_all-IsHeld}
use tracer_agent_python.ChatLedger.Outcomes.{keyed_answer}

pub data Closing : Type 0 where
  completing : ℕ → ChatExecutionSpend → ℕ → Closing
  failing : String → ℕ → Closing
  canceling : ℕ → Closing

unfoldable pub close : Closing → ℕ → Ledger → Bool × Ledger
close (completing message spend now) id db = complete_running id message spend now db
close (failing error now) id db = fail_active id error now db
close (canceling now) id db = cancel_active id now db

-- Whether a row may be closed that way, and as what.
abbrev pub may_close : Closing → List Observation → Execution → Bool
may_close (completing _ _ _) obs r = is_running r.status && may_close_as succeeded obs r
may_close (failing _ _) obs r =
    is_queued r.status || is_running r.status && may_close_as ObservationStatus.failed obs r
may_close (canceling _) obs r =
    is_queued r.status || is_running r.status && may_close_as cancelled obs r

abbrev pub closed : Closing → Execution → Execution
closed (completing message spend now) r = close_completed message spend now r
closed (failing error now) r = close_failed error now r
closed (canceling now) r = close_canceled now r

-- A closing of an execution that is there is accepted exactly under its statement's condition, and changes the row
-- as the statement says; otherwise the row stays.
pub close_outcome :
    (c : Closing) (id : ℕ) (db : Ledger) (r : Execution)
    → IsSerial db
    → find_by_id id db ≡ some r
    → let (accepted, db') = close c id db in
      (accepted ≡ may_close c db.observations r)
      × (find_by_id id db' ≡ some (if accepted then closed c r else r))
unfolding close find_by_id
close_outcome (completing message spend now) id db r h found =
    unfold complete_running in
    let answer =
      keyed_answer id (may_close (completing message spend now) db.observations)
        (close_completed message spend now) db h (λ s. refl) r found in
    (answer.0, rw answer.0 answer.1)
close_outcome (failing error now) id db r h found =
    unfold fail_active in
    let answer =
      keyed_answer id (may_close (failing error now) db.observations) (close_failed error now) db h
        (λ s. refl) r found in
    (answer.0, rw answer.0 answer.1)
close_outcome (canceling now) id db r h found =
    unfold cancel_active in
    let answer =
      keyed_answer id (may_close (canceling now) db.observations) (close_canceled now) db h
        (λ s. refl) r found in
    (answer.0, rw answer.0 answer.1)

close-IsSerial : (c : Closing) (id : ℕ) (db : Ledger) → IsSerial db → IsSerial (close c id db).1
unfolding close after
close-IsSerial (completing message spend now) id db h =
    after-IsSerial (complete id message spend now) db h
close-IsSerial (failing error now) id db h = after-IsSerial (fail id error now) db h
close-IsSerial (canceling now) id db h = after-IsSerial (cancel id now) db h

pub closed-terminal : (c : Closing) (r : Execution) → is_terminal (closed c r).status ≡ true
unfolding is_terminal close_completed close_failed close_canceled
closed-terminal (completing message spend now) r = refl
closed-terminal (failing error now) r = refl
closed-terminal (canceling now) r = refl

pub terminal_refuses :
    (c : Closing) (obs : List Observation) (r : Execution)
    → is_terminal r.status ≡ true
    → may_close c obs r ≡ false
unfolding is_terminal is_queued is_running
terminal_refuses (completing message spend now) obs r t = ground arith
terminal_refuses (failing error now) obs r t = ground arith
terminal_refuses (canceling now) obs r t = ground arith

-- Once a completion, failure or cancellation of an execution was accepted, whatever is written to the
-- ledger after that, every later one is refused. The row is there as the first wrote it, save that
-- a canceled row without a message may have been given the outcome of its cancellation, and the
-- refused one does not change it.
pub closings_exclude :
    (c c' : Closing) (qs : List Request) (id : ℕ) (db : Ledger) (r : Execution)
    → IsSerial db
    → find_by_id id db ≡ some r
    → (close c id db).0 ≡ true
    → let later = after_all qs (close c id db).1 in
      (s : Execution) × (find_by_id id later ≡ some s)
      × IsHeld (closed c r) s
      × ((close c' id later).0 ≡ false)
      × (find_by_id id (close c' id later).1 ≡ some s)
closings_exclude c c' qs id db r h found accepted =
    let first = close_outcome c id db r h found in
    let db' = (close c id db).1 in
    let later = after_all qs db' in
    let found' : find_by_id id db' ≡ some (closed c r) = first.1 ∙ rw accepted refl in
    let (s, still, held) =
      after_all-IsHeld qs db' id (closed c r) (unfold find_by_id in found') (closed-terminal c r) in
    let still' : find_by_id id later ≡ some s = unfold find_by_id in still in
    let second =
      close_outcome c' id later s (after_all-IsSerial qs db' (close-IsSerial c id db h)) still' in
    let refused : (close c' id later).0 ≡ false =
      second.0
      ∙ terminal_refuses c' _ s (outcome_terminal (closed c r) s (closed-terminal c r) held) in
    (s, still', held, refused, second.1 ∙ rw refused refl)

-- The outcome of a canceled execution is written exactly if it is canceled, or running and
-- observed as cancelled, and has no message yet.
pub canceled_outcome :
    (id message : ℕ) (spend : ChatExecutionSpend) (now : ℕ) (db : Ledger) (r : Execution)
    → IsSerial db
    → find_by_id id db ≡ some r
    → let (written, db') = record_canceled_outcome id message spend now db in
      (written ≡ (
        not (is_some r.assistant_message_id)
        && (is_canceled r.status
            || is_running r.status && observed_as cancelled db.observations r)))
      × (find_by_id id db'
          ≡ some (if written then close_canceled_outcome message spend now r else r))
unfolding find_by_id record_canceled_outcome
canceled_outcome id message spend now db r h found =
    let cond = λ (s : Execution).
      not (is_some s.assistant_message_id)
      && (is_canceled s.status || is_running s.status && observed_as cancelled db.observations s) in
    let answer =
      keyed_answer id cond (close_canceled_outcome message spend now) db h (λ s. refl) r found in
    (answer.0, rw answer.0 answer.1)

-- A second outcome of a canceled execution is refused, and the first one stays.
pub canceled_outcome_once :
    (id message message' : ℕ) (spend spend' : ChatExecutionSpend) (now now' : ℕ) (db : Ledger)
    (r : Execution)
    → IsSerial db
    → find_by_id id db ≡ some r
    → (record_canceled_outcome id message spend now db).0 ≡ true
    → let (_, db') = record_canceled_outcome id message spend now db in
      let (again, db'') = record_canceled_outcome id message' spend' now' db' in
      (again ≡ false) × (find_by_id id db'' ≡ some (close_canceled_outcome message spend now r))
unfolding after
canceled_outcome_once id message message' spend spend' now now' db r h found written =
    let first = canceled_outcome id message spend now db r h found in
    let r' = close_canceled_outcome message spend now r in
    let db' = (record_canceled_outcome id message spend now db).1 in
    let found' : find_by_id id db' ≡ some r' = first.1 ∙ rw written refl in
    let second =
      canceled_outcome id message' spend' now' db' r'
        (after-IsSerial (record_canceled id message spend now) db h) found' in
    let refused : (record_canceled_outcome id message' spend' now' db').0 ≡ false =
      second.0 ∙ unfold close_canceled_outcome in refl in
    (refused, second.1 ∙ rw refused refl)
