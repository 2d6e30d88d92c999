-- ===== src/ChatTurns/Redelivery.antt =====
-- A finalization that is delivered again, as the retries of
-- src/tracer_agent/worker/workflows/chat_workflows.py do, on
-- src/tracer_agent/worker/agents/chat/execution_writer.py.
use mathlib.Core.Path.{subst}
use tracer_agent_python.Prelude.{
  ℕ, ◌≡◌, ◌≢◌, refl, sym, ◌∙◌, ap, Bool, true, false, some, List, arith, if◌then◌else◌, is_some,
  Bool-cases, inl, inr,
}
use tracer_agent_python.ChatLedger.Rows.{Execution, Ledger, Observation}
use tracer_agent_python.ChatLedger.Statements.{find_by_id}
use tracer_agent_python.ChatLedger.Serial.{IsSerial}
use tracer_agent_python.ChatTurns.Tables.{Store, ChatTurnOutcome}
use tracer_agent_python.ChatTurns.Ended.{Ended-cases, returned, raised, observation_conflict}
use tracer_agent_python.ChatTurns.Writer.{settle_ledger, with_observations, finalize}
use tracer_agent_python.ChatTurns.Settled.{
  settle-IsSerial, settle_answer, settle_refused, settle-observations, settled, IsDone,
  settled-IsDone, done_refuses,
}
use tracer_agent_python.ChatTurns.Insertion.{
  observing, ledger_with, finalize-unobserved, finalize-refused, finalize-written, WasWritten,
  finalize-WasWritten, first_token, values_again,
}

-- A ledger with other observations has the same rows.
pub observations-IsSerial :
    (db : Ledger) (obs : List Observation)
    → IsSerial db
    → IsSerial (record db { observations = obs })
observations-IsSerial db obs h = record { one_row = h.one_row; one_running = h.one_running }

pub find-observations :
    (id : ℕ) (db : Ledger) (obs : List Observation)
    → find_by_id id (record db { observations = obs }) ≡ find_by_id id db
unfolding find_by_id
find-observations id db obs = refl

-- A store in which an execution's row is there and done.
pub record HasDone (id : ℕ) (s : Store) : Type 0 where
  pub serial : IsSerial s.ledger
  pub row : Execution
  pub found : find_by_id id s.ledger ≡ some row
  pub is_done : IsDone row

-- A refused settlement leaves the ledger as it was.
pub settle_done :
    (o : ChatTurnOutcome) (now : ℕ) (s : Store) (obs : List Observation)
    → HasDone o.execution_id s
    → settle_ledger o now (ledger_with o now s obs) ≡ (false, ledger_with o now s obs)
settle_done o now s obs d =
    let db : Ledger = ledger_with o now s obs in
    let serial : IsSerial db = observations-IsSerial s.ledger obs d.serial in
    let found : find_by_id o.execution_id db ≡ some d.row =
      find-observations o.execution_id s.ledger obs ∙ d.found in
    let refused = done_refuses o obs d.row d.is_done in
    ground (
      arith,
      (settle_answer o now db serial d.row found).0,
      settle_refused o now db serial d.row found refused,
      settle-observations o now db,
    )

-- What a finalization of a done execution does: it keeps the observation, or raises.
pub finalize_done :
    (o : ChatTurnOutcome) (now : ℕ) (s : Store) (obs : List Observation)
    → HasDone o.execution_id s
    → observing o now s ≡ returned obs
    → finalize o now s ≡ (returned false, with_observations s obs)
finalize_done o now s obs d h =
    let refused = settle_done o now s obs d in
    finalize-refused o now s obs h (ap (λ z. z.0) refused)
    ∙ ap (λ (z : Bool × Ledger). (returned false, record s { ledger = z.1 })) refused

module _ (o : ChatTurnOutcome) (now : ℕ) (s : Store) (r : Execution) (serial : IsSerial s.ledger)
    (found : find_by_id o.execution_id s.ledger ≡ some r)
    (accepted : (finalize o now s).0 ≡ returned true) where
  -- After an accepted finalization the row is done.
  pub finalized-HasDone : HasDone o.execution_id (finalize o now s).1
  finalized-HasDone =
      let w : WasWritten o now s = finalize-WasWritten o now s accepted in
      let db : Ledger = ledger_with o now s w.obs in
      let answer =
        settle_answer o now db (observations-IsSerial s.ledger w.obs serial) r
          (find-observations o.execution_id s.ledger w.obs ∙ found) in
      rw (finalize-written o now s w.obs w.inserted w.accepted w.at_home) (record {
        serial = settle-IsSerial o now db (observations-IsSerial s.ledger w.obs serial);
        row = settled o now r;
        found = ground (arith, answer, w.accepted);
        is_done = settled-IsDone o now r;
      })

  kept_observations : (w : WasWritten o now s) → (finalize o now s).1.ledger.observations ≡ w.obs
  kept_observations w =
      rw (finalize-written o now s w.obs w.inserted w.accepted w.at_home)
        (settle-observations o now (ledger_with o now s w.obs))

  observed_again :
      (now' : ℕ)
      → observing o now' (finalize o now s).1 ≡ (
          if is_some (first_token o.observation)
          then raised observation_conflict
          else returned (finalize o now s).1.ledger.observations)
  observed_again now' =
      let w : WasWritten o now s = finalize-WasWritten o now s accepted in
      rw (kept_observations w) (
        values_again o.execution_id o.user_id o.attempt o.observation s.ledger.observations w.obs
          w.inserted)

  -- The same outcome delivered again changes nothing at all. It is answered with false if its
  -- observation has no time to the first token; with one it ends with the error that the
  -- observation conflicts, since that time is not read back.
  pub redelivered :
      (now' : ℕ)
      → let s' = (finalize o now s).1 in
        finalize o now' s' ≡ (
          if is_some (first_token o.observation)
              then raised observation_conflict
              else returned false,
          s',
        )
  redelivered now' = elim (Bool-cases (is_some (first_token o.observation))) [
    | inl e ↦ rw e (
        finalize-unobserved o now' (finalize o now s).1 observation_conflict
          (observed_again now' ∙ rw e refl))
    | inr e ↦ rw e (
        finalize_done o now' (finalize o now s).1 (finalize o now s).1.ledger.observations
          finalized-HasDone (observed_again now' ∙ rw e refl))
  ]

-- After an accepted finalization no finalization of the same execution is accepted, whatever it
-- carries, and none changes an execution, a message, a thread or a step.
pub finalized_once :
    (o o' : ChatTurnOutcome) (now now' : ℕ) (s : Store) (r : Execution)
    → IsSerial s.ledger
    → find_by_id o.execution_id s.ledger ≡ some r
    → (finalize o now s).0 ≡ returned true
    → o'.execution_id ≡ o.execution_id
    → let s' = (finalize o now s).1 in
      let (again, s'') = finalize o' now' s' in
      (again ≢ returned true)
      × (s''.ledger.executions ≡ s'.ledger.executions)
      × (s''.messages ≡ s'.messages)
      × (s''.threads ≡ s'.threads)
      × (s''.steps ≡ s'.steps)
finalized_once o o' now now' s r serial found accepted same =
    let s' = (finalize o now s).1 in
    let d : HasDone o'.execution_id s' =
      subst (λ id. HasDone id s') (sym same) (finalized-HasDone o now s r serial found accepted) in
    elim (Ended-cases (observing o' now' s')) [
      | inl (f, e) ↦ rw (finalize-unobserved o' now' s' f e) ((λ z. cc), refl, refl, refl, refl)
      | inr (obs, e) ↦ rw (finalize_done o' now' s' obs d e) ((λ z. cc), refl, refl, refl, refl)
    ]
