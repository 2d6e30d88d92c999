-- ===== src/ChatTurns/Settled.antt =====
-- The settlement of a turn (src/tracer_agent/worker/agents/chat/execution_writer.py) on the ledger:
-- when it is accepted, and what a closed row refuses.
use tracer_agent_python.Prelude.{
  ℕ, ◌≡◌, refl, ◌∙◌, Bool, true, false, not, some, List, [], ◌∷◌, arith, ◌&&◌, ◌||◌, if◌then◌else◌,
  is_some, Bool-cases, inl, inr,
}
use tracer_agent_python.ChatLedger.Rows.{
  Execution, Ledger, Observation, is_running, is_canceled, is_terminal, succeeded, cancelled,
}
use tracer_agent_python.ChatLedger.Update.{update_rows, count_rows, find_row}
use tracer_agent_python.ChatLedger.Statements.{
  find_by_id, complete_running, may_complete, close_completed, may_close_as, may_record_canceled,
  record_canceled_outcome, close_canceled_outcome, observed_as,
}
use tracer_agent_python.ChatLedger.Serial.{IsSerial}
use tracer_agent_python.ChatLedger.Requests.{complete, record_canceled, after}
use tracer_agent_python.ChatLedger.Turns.{after-IsSerial}
use tracer_agent_python.ChatLedger.Outcomes.{keyed, keyed_answer, count-keyed}
use tracer_agent_python.ChatTurns.Tables.{ChatTurnOutcome}
use tracer_agent_python.ChatTurns.Writer.{settle_ledger}

-- A statement that meets no row changes no row.
update-none :
    (test : Execution → Bool) (change : Execution → Execution) (rs : List Execution)
    → count_rows test rs ≡ 0
    → update_rows test change rs ≡ rs
unfolding count_rows update_rows
update-none test change [] h = refl
update-none test change (r ∷ rs) h = ground (arith, update-none test change rs)

-- A keyed statement whose condition the row does not meet changes nothing.
pub keyed_refused :
    (key : ℕ) (cond : Execution → Bool) (change : Execution → Execution) (db : Ledger)
    → IsSerial db
    → (r : Execution) → find_row key db.executions ≡ some r
    → cond r ≡ false
    → update_rows (keyed key cond) change db.executions ≡ db.executions
keyed_refused key cond change db h r found refused =
    update-none (keyed key cond) change db.executions
      (count-keyed key cond db.executions (h.one_row key) ∙ rw (found, refused) refl)

module _ (o : ChatTurnOutcome) where
  -- Whether a row may be settled by the outcome, and as what.
  abbrev pub may_settle : List Observation → Execution → Bool
  may_settle obs r =
      if o.canceled
      then not (is_some r.assistant_message_id)
        && (is_canceled r.status || is_running r.status && observed_as cancelled obs r)
      else is_running r.status && may_close_as succeeded obs r

  abbrev pub settled : ℕ → Execution → Execution
  settled now r =
      if o.canceled
      then close_canceled_outcome o.execution_id o.spend now r
      else close_completed o.execution_id o.spend now r

  pub settle-IsSerial : (now : ℕ) (db : Ledger) → IsSerial db → IsSerial (settle_ledger o now db).1
  unfolding settle_ledger after
  settle-IsSerial now db h = elim (Bool-cases o.canceled) [
    | inl c ↦ rw c (after-IsSerial (record_canceled o.execution_id o.execution_id o.spend now) db h)
    | inr c ↦ rw c (after-IsSerial (complete o.execution_id o.execution_id o.spend now) db h)
  ]

  module _ (now : ℕ) (db : Ledger) (h : IsSerial db) (r : Execution)
      (found : find_by_id o.execution_id db ≡ some r) where
    pub settle_answer :
        ((settle_ledger o now db).0 ≡ may_settle db.observations r)
        × (find_by_id o.execution_id (settle_ledger o now db).1
            ≡ some (if may_settle db.observations r then settled now r else r))
    unfolding settle_ledger record_canceled_outcome complete_running find_by_id may_record_canceled
        may_complete
    settle_answer = elim (Bool-cases o.canceled) [
      | inl c ↦ rw c (
          keyed_answer o.execution_id
            (λ s.
              not (is_some s.assistant_message_id)
              && (is_canceled s.status
                  || is_running s.status && observed_as cancelled db.observations s))
            (close_canceled_outcome o.execution_id o.spend now) db h (λ s. refl) r found)
      | inr c ↦ rw c (
          keyed_answer o.execution_id
            (λ s. is_running s.status && may_close_as succeeded db.observations s)
            (close_completed o.execution_id o.spend now) db h (λ s. refl) r found)
    ]

    pub settle_refused :
        may_settle db.observations r ≡ false → (settle_ledger o now db).1.executions ≡ db.executions
    unfolding settle_ledger record_canceled_outcome complete_running find_by_id may_record_canceled
        may_complete
    settle_refused refused = elim (Bool-cases o.canceled) [
      | inl c ↦ rw c (
          keyed_refused o.execution_id
            (λ s.
              not (is_some s.assistant_message_id)
              && (is_canceled s.status
                  || is_running s.status && observed_as cancelled db.observations s))
            (close_canceled_outcome o.execution_id o.spend now) db h r found (rw c at refused))
      | inr c ↦ rw c (
          keyed_refused o.execution_id
            (λ s. is_running s.status && may_close_as succeeded db.observations s)
            (close_completed o.execution_id o.spend now) db h r found (rw c at refused))
    ]

  pub settle-observations :
      (now : ℕ) (db : Ledger) → (settle_ledger o now db).1.observations ≡ db.observations
  unfolding settle_ledger record_canceled_outcome complete_running
  settle-observations now db = elim (Bool-cases o.canceled) [
    | inl c ↦ rw c refl
    | inr c ↦ rw c refl
  ]

-- A row that a settlement closed: it does not run and has its message.
pub record IsDone (r : Execution) : Type 0 where
  pub stopped : is_running r.status ≡ false
  pub answered : is_some r.assistant_message_id ≡ true
  pub terminal : is_terminal r.status ≡ true

pub settled-IsDone : (o : ChatTurnOutcome) (now : ℕ) (r : Execution) → IsDone (settled o now r)
unfolding close_canceled_outcome close_completed is_running is_terminal
settled-IsDone o now r = elim (Bool-cases o.canceled) [
  | inl c ↦ rw c (record { stopped = refl; answered = refl; terminal = refl })
  | inr c ↦ rw c (record { stopped = refl; answered = refl; terminal = refl })
]

pub done_refuses :
    (o : ChatTurnOutcome) (obs : List Observation) (r : Execution)
    → IsDone r
    → may_settle o obs r ≡ false
done_refuses o obs r d = elim (Bool-cases o.canceled) [
  | inl c ↦ rw (c, d.answered) refl
  | inr c ↦ rw (c, d.stopped) refl
]
