-- ===== src/ChatTurns/Finals.antt =====
-- The finalization of a turn that fits its running execution
-- (src/tracer_agent/worker/agents/chat/execution_writer.py) raises, or closes the execution.
use mathlib.Core.Path.{subst}
use tracer_agent_python.Prelude.{
  ℕ, ◌≡◌, refl, ◌∙◌, ap, Bool, true, false, some, List, [], ◌∷◌, arith, ◌==◌, any, All, ◌⊎◌,
  if◌then◌else◌, Bool-cases, Option-cases, inl, inr, ==_refl, ==_iff, is_some,
}
use tracer_agent_python.ChatLedger.Rows.{
  Execution, Observation, ObservationStatus, succeeded, cancelled, same_observation, is_running,
}
use tracer_agent_python.ChatLedger.Statements.{find_by_id, observed_as, may_close_as}
use tracer_agent_python.ChatTurns.Tables.{Store, ObservationDto, ChatTurnOutcome}
use tracer_agent_python.ChatTurns.Ended.{
  Ended, Ended-cases, Fault, returned, raised, thread_missing,
}
use tracer_agent_python.ChatTurns.Writer.{
  is_observation, find_observation, observation_row, observation_payload, same_dto, insertion,
  insertion_of_values, settle_ledger, owns, finalize,
}
use tracer_agent_python.ChatTurns.Settled.{may_settle, settle_answer}
use tracer_agent_python.ChatTurns.Insertion.{
  observing, ledger_with, finalize-unobserved, finalize-homeless, finalize-written,
}
use tracer_agent_python.ChatTurns.Redelivery.{
  HasDone, finalized-HasDone, observations-IsSerial, find-observations,
}
use tracer_agent_python.ChatTurns.Turn.{GeneratedChatExecution, ledger_outcome}
use tracer_agent_python.ChatTurns.Activities.{Service}
use tracer_agent_python.ChatTurns.Lives.{IsRunning, FailedOf, find_row-id}
use tracer_agent_python.ChatTurns.Tried.{Fits}

-- An observation that is found under a key is one of the list, with that key.
found_in :
    (id user e a : ℕ) (obs : List Observation) (o : Observation)
    → find_observation e a obs ≡ some o
    → All (FailedOf id user) obs
    → ((o.execution_id == e) ≡ true) × FailedOf id user o
unfolding find_observation
found_in id user e a [] o h only = absurd cc
found_in id user e a (q ∷ obs) o h only = elim (Bool-cases (is_observation e a q)) [
  | inl y ↦
      let same : q ≡ o = ground arith in
      let key : (q.execution_id == e) ≡ true = unfold is_observation in ground arith in
      rw (← same) (key, only.0)
  | inr n ↦ found_in id user e a obs o (rw n at h) only.1
]

same_as_failed :
    (a b : ObservationStatus)
    → same_observation a b ≡ true
    → same_observation a ObservationStatus.failed ≡ true
    → same_observation b ObservationStatus.failed ≡ true
unfolding same_observation
same_as_failed a b h k = ground arith

observed_head :
    (status : ObservationStatus) (user : ℕ) (d : ObservationDto) (obs : List Observation)
    (r : Execution)
    → (d.execution_id == r.id) ≡ true
    → (user == r.user_id) ≡ true
    → same_observation d.status status ≡ true
    → observed_as status (observation_row user d ∷ obs) r ≡ true
unfolding observed_as observation_row
observed_head status user d obs r e u t = rw (e, u, t) refl

-- An observation of a turn that did not fail is not among those of failed attempts, so it is
-- inserted.
insertion-new :
    (id user : ℕ) (d : ObservationDto) (obs obs' : List Observation)
    → insertion user d obs ≡ returned obs'
    → All (FailedOf id user) obs
    → d.execution_id ≡ id
    → same_observation d.status ObservationStatus.failed ≡ false
    → obs' ≡ observation_row user d ∷ obs
insertion-new id user d obs obs' h only its other =
    elim (Option-cases (find_observation d.execution_id d.attempt_id obs)) [
      | inl e ↦ unfold insertion in ground arith
      | inr (o, e) ↦
          let place = found_in id user d.execution_id d.attempt_id obs o e only in
          let same : same_dto (observation_payload o) d ≡ true = unfold insertion in ground arith in
          let alike : same_observation o.status d.status ≡ true =
            unfold same_dto observation_payload in ground arith in
          let mine : (o.execution_id == id) ≡ true = rw its at place.0 in
          absurd (ground (arith, same_as_failed o.status d.status alike (place.1 mine).0))
    ]

not_failed :
    (status : ObservationStatus) (canceled : Bool)
    → same_observation status (if canceled then cancelled else succeeded) ≡ true
    → same_observation status ObservationStatus.failed ≡ false
unfolding same_observation
not_failed status canceled h = ground arith

module _ (service : Service) (id user : ℕ) where
  module _ (g : GeneratedChatExecution) (fits : Fits service id user g) where
    abbrev pub outcome : ChatTurnOutcome
    outcome = ledger_outcome g

    -- A finalization of a running execution raises, or closes it.
    abbrev pub FinalAs : Store → Ended Bool × Store → Type 0
    FinalAs s z = ((f : Fault) × (z ≡ (raised f, s))) ⊎ ((z.0 ≡ returned true) × HasDone id z.1)

    home :
        (s : Store) (w : IsRunning id user s.ledger) (obs : List Observation)
        → find_by_id outcome.execution_id (record s.ledger { observations = obs }) ≡ some w.row
    home s w obs =
        unfold ledger_outcome in rw fits.its_execution (find-observations id s.ledger obs ∙ w.found)

    may :
        (r : Execution) (obs : List Observation)
        → is_running r.status ≡ true
        → is_some r.assistant_message_id ≡ false
        → observed_as (if g.canceled then cancelled else succeeded) obs r ≡ true
        → may_settle outcome obs r ≡ true
    unfolding ledger_outcome may_close_as
    may r obs runs unanswered seen = elim (Bool-cases g.canceled) [
      | inl c ↦
          let seen' : observed_as cancelled obs r ≡ true = rw c at seen in
          rw (c, unanswered, runs, seen') (ground arith)
      | inr c ↦
          let seen' : observed_as succeeded obs r ≡ true = rw c at seen in rw (c, runs, seen') refl
    ]

    accepted :
        (s : Store) (now : ℕ) (obs : List Observation) (w : IsRunning id user s.ledger)
        → observing outcome now s ≡ returned obs
        → (settle_ledger outcome now (ledger_with outcome now s obs)).0 ≡ true
    accepted s now obs w e =
        let d = fits.observation in
        let e0 : insertion_of_values g.execution_id g.user_id g.attempt g.observation
              s.ledger.observations
            ≡ returned obs =
          unfold ledger_outcome in e in
        let e' : insertion_of_values g.execution_id g.user_id g.attempt (some d)
              s.ledger.observations
            ≡ returned obs =
          rw fits.carried at e0 in
        let mine : (d.execution_id == g.execution_id) ≡ true =
          unfold insertion_of_values in ground arith in
        let inner : insertion g.user_id d s.ledger.observations ≡ returned obs =
          unfold insertion_of_values in ground arith in
        let its : d.execution_id ≡ id =
          (==_iff d.execution_id g.execution_id).0 mine ∙ fits.its_execution in
        let inner' : insertion user d s.ledger.observations ≡ returned obs =
          rw fits.its_user at inner in
        let new : obs ≡ observation_row user d ∷ s.ledger.observations =
          insertion-new id user d s.ledger.observations obs inner' w.failed_only its
            (not_failed d.status g.canceled fits.tells) in
        let answer =
          settle_answer outcome now (ledger_with outcome now s obs)
            (observations-IsSerial s.ledger obs w.serial) w.row (home s w obs) in
        let here : w.row.id ≡ id =
          (==_iff w.row.id id).0
            (find_row-id id s.ledger.executions w.row (unfold find_by_id in w.found)) in
        let at_row : (d.execution_id == w.row.id) ≡ true = rw here (rw its (==_refl id)) in
        let its_own : (user == w.row.user_id) ≡ true = rw w.its_user (==_refl user) in
        let seen : (status : ObservationStatus)
            → same_observation d.status status ≡ true
            → observed_as status obs w.row ≡ true =
          λ status t.
            rw new (observed_head status user d s.ledger.observations w.row at_row its_own t) in
        answer.0
        ∙ may w.row obs w.runs w.unanswered
            (seen (if g.canceled then cancelled else succeeded) fits.tells)

    pub finalize-FinalAs :
        (now : ℕ) (s : Store) → IsRunning id user s.ledger → FinalAs s (finalize outcome now s)
    finalize-FinalAs now s w = elim (Ended-cases (observing outcome now s)) [
      | inl (f, e) ↦ inl (f, finalize-unobserved outcome now s f e)
      | inr (obs, e) ↦
          let yes = accepted s now obs w e in
          elim (Bool-cases (any (owns outcome.thread_id outcome.user_id) s.threads)) [
            | inr away ↦ inl (thread_missing, finalize-homeless outcome now s obs e yes away)
            | inl at_home ↦
                let done = finalize-written outcome now s obs e yes at_home in
                let its : outcome.execution_id ≡ id = unfold ledger_outcome in fits.its_execution in
                let answer : (finalize outcome now s).0 ≡ returned true = ap (λ z. z.0) done in
                inr (
                  answer,
                  subst (λ k. HasDone k (finalize outcome now s).1) its
                      (finalized-HasDone outcome now s w.row w.serial
                        (home s w s.ledger.observations) answer),
                )
          ]
    ]
