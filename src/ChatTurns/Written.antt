-- ===== src/ChatTurns/Written.antt =====
-- A finalization writes the whole turn or nothing of it
-- (src/tracer_agent/worker/agents/chat/execution_writer.py).
use tracer_agent_python.Prelude.{
  ◌==◌, ℕ, ◌≡◌, ◌≢◌, refl, sym, ◌∙◌, ap, true, false, some, none, List, [], ◌∷◌, arith, any, map,
  ◌&&◌, ◌⊎◌, if◌then◌else◌, Bool-cases, inl, inr,
}
use tracer_agent_python.ChatLedger.Rows.{
  Execution, Ledger, Observation, agent_backend, canceled, completed, done,
}
use tracer_agent_python.ChatLedger.Statements.{find_by_id, close_completed, close_canceled_outcome}
use tracer_agent_python.ChatLedger.Serial.{IsSerial}
use tracer_agent_python.ChatTurns.Tables.{Store, Thread, ChatTurnOutcome}
use tracer_agent_python.ChatTurns.Content.{
  find_message, find_step, first_numbered, said_over, stepped_over, put_message-said,
  put_message-others, insert_steps-found, insert_steps-others,
}
use tracer_agent_python.ChatTurns.Ended.{Ended-cases, returned}
use tracer_agent_python.ChatTurns.Writer.{settle_ledger, finalize, owns, touch_threads}
use tracer_agent_python.ChatTurns.Settled.{settle_answer, settle_refused, settled}
use tracer_agent_python.ChatTurns.Insertion.{
  observing, ledger_with, settled_store, written_store, finalize-unobserved, finalize-refused,
  finalize-homeless, finalize-written, WasWritten, finalize-WasWritten,
}
use tracer_agent_python.ChatTurns.Redelivery.{observations-IsSerial, find-observations}

module _ (o : ChatTurnOutcome) (now : ℕ) where
  -- The row of an execution that the turn closed.
  abbrev pub closed_over : Execution → Execution
  closed_over r =
      if o.canceled
      then record r {
        status = canceled;
        phase = done;
        assistant_message_id = some o.execution_id;
        spend = some o.spend;
        completed_at = elim r.completed_at [ none ↦ some now | some t ↦ some t ];
        updated_at = now;
      }
      else record r {
        status = completed;
        phase = done;
        assistant_message_id = some o.execution_id;
        spend = some o.spend;
        completed_at = some now;
        updated_at = now;
      }

  settled-closed_over : (r : Execution) → settled o now r ≡ closed_over r
  unfolding close_completed close_canceled_outcome
  settled-closed_over r = refl

  -- A thread after the turn: the user's one is marked with it, any other is the same.
  abbrev pub marked_over : Thread → Thread
  marked_over t =
      if t.id == o.thread_id && t.user_id == o.user_id
      then record t { backend = some agent_backend; updated_at = now }
      else t

  touch_threads-marked_over :
      (ts : List Thread) → touch_threads o.thread_id o.user_id now ts ≡ map marked_over ts
  unfolding touch_threads owns
  touch_threads-marked_over [] = refl
  touch_threads-marked_over (t ∷ ts) = ap (λ us. marked_over t ∷ us) (touch_threads-marked_over ts)

  -- All that an accepted turn leaves of a store, and nothing else in its tables of messages, steps and threads.
  pub record IsWritten (r : Execution) (before s : Store) : Type 0 where
    pub closed : find_by_id o.execution_id s.ledger ≡ some (closed_over r)
    pub says :
        find_message o.execution_id s.messages
        ≡ some (said_over o now (find_message o.execution_id before.messages))
    pub other_messages :
        (id : ℕ)
        → id ≢ o.execution_id
        → find_message id s.messages ≡ find_message id before.messages
    pub has_steps :
        (seq : ℕ)
        → find_step o.execution_id o.attempt seq s.steps
          ≡ stepped_over o now
              (find_step o.execution_id o.attempt seq before.steps)
              (first_numbered seq o.steps)
    pub other_steps :
        (execution attempt seq : ℕ)
        → (execution ≢ o.execution_id) ⊎ (attempt ≢ o.attempt)
        → find_step execution attempt seq s.steps ≡ find_step execution attempt seq before.steps
    pub marked : s.threads ≡ map marked_over before.threads

-- Nothing of a turn is in a store that was not in another one, but for observations.
pub record HasNothingOf (s t : Store) : Type 0 where
  pub executions : t.ledger.executions ≡ s.ledger.executions
  pub messages : t.messages ≡ s.messages
  pub threads : t.threads ≡ s.threads
  pub steps : t.steps ≡ s.steps

module _ (o : ChatTurnOutcome) (now : ℕ) (s : Store) (r : Execution) (serial : IsSerial s.ledger)
    (found : find_by_id o.execution_id s.ledger ≡ some r) where
  store-IsWritten : (w : WasWritten o now s) → IsWritten o now r s (written_store o now s w.obs)
  store-IsWritten w =
      let db : Ledger = ledger_with o now s w.obs in
      let answer =
        settle_answer o now db (observations-IsSerial s.ledger w.obs serial) r
          (find-observations o.execution_id s.ledger w.obs ∙ found) in
      let settled_row : find_by_id o.execution_id (settle_ledger o now db).1
          ≡ some (settled o now r) =
        ground (arith, answer, w.accepted) in
      record {
        closed = settled_row ∙ ap some (settled-closed_over o now r);
        says = put_message-said o now s.messages;
        other_messages = λ id h. put_message-others o now id s.messages h;
        has_steps = λ seq. insert_steps-found o now seq o.steps s.steps;
        other_steps = λ execution attempt seq h.
            insert_steps-others o now execution attempt seq o.steps s.steps h;
        marked = touch_threads-marked_over o now s.threads;
      }

  refused-HasNothingOf :
      (obs : List Observation)
      → (settle_ledger o now (ledger_with o now s obs)).0 ≡ false
      → HasNothingOf s (settled_store o now s obs)
  refused-HasNothingOf obs refused =
      let db : Ledger = ledger_with o now s obs in
      let home : find_by_id o.execution_id db ≡ some r =
        find-observations o.execution_id s.ledger obs ∙ found in
      let good = observations-IsSerial s.ledger obs serial in
      record {
        executions =
            settle_refused o now db good r home
              (sym (settle_answer o now db good r home).0 ∙ refused);
        messages = refl;
        threads = refl;
        steps = refl;
      }

  same-HasNothingOf : HasNothingOf s s
  same-HasNothingOf = record { executions = refl; messages = refl; threads = refl; steps = refl }

  -- A finalization that answers true closed the execution as the outcome says. The message of the
  -- execution is new, with the thread, the answer and its calls, or is the one that was there with
  -- the answer and its calls; the other messages stay. Under each number of the turn's steps
  -- stands the row that was there, or that of the first of its steps with the number, and the
  -- steps of other executions and attempts stay. The user's thread is marked, and the others stay.
  -- Any other finalization, an error included, left executions, messages, threads and steps as
  -- they were.
  pub finalize_all_or_nothing :
      ((finalize o now s).0 ≡ returned true → IsWritten o now r s (finalize o now s).1)
      × ((finalize o now s).0 ≢ returned true → HasNothingOf s (finalize o now s).1)
  finalize_all_or_nothing = (
    (λ accepted.
        let w : WasWritten o now s = finalize-WasWritten o now s accepted in
        rw (finalize-written o now s w.obs w.inserted w.accepted w.at_home) (store-IsWritten w)),
    (λ other. elim (Ended-cases (observing o now s)) [
      | inl (f, e) ↦ rw (finalize-unobserved o now s f e) same-HasNothingOf
      | inr (obs, e) ↦ elim (Bool-cases (settle_ledger o now (ledger_with o now s obs)).0) [
        | inr no_row ↦ rw (finalize-refused o now s obs e no_row) (refused-HasNothingOf obs no_row)
        | inl a ↦ elim (Bool-cases (any (owns o.thread_id o.user_id) s.threads)) [
          | inr away ↦ rw (finalize-homeless o now s obs e a away) same-HasNothingOf
          | inl t ↦ absurd (other (ap (λ z. z.0) (finalize-written o now s obs e a t)))
        ]
      ]
    ]),
  )
