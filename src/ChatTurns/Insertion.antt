-- ===== src/ChatTurns/Insertion.antt =====
-- The insertion of an observation (src/tracer_agent/worker/agents/chat/execution_writer.py) and the
-- four ways in which a finalization ends.
use tracer_agent_python.Prelude.{
  ℕ, ◌≡◌, refl, true, false, not, Option, some, none, List, ◌∷◌, arith, ◌==◌, ◌&&◌, any,
  if◌then◌else◌, is_some, Bool-cases, Option-cases, inl, inr, same_text_refl, ==_refl,
}
use tracer_agent_python.ChatLedger.Rows.{
  Ledger, Observation, ObservationStatus, succeeded, cancelled, same_observation,
}
use tracer_agent_python.ChatTurns.Tables.{Store, ObservationDto, ChatTurnOutcome}
use tracer_agent_python.ChatTurns.Ended.{
  Ended, Ended-cases, Fault, returned, raised, observation_conflict, thread_missing,
}
use tracer_agent_python.ChatTurns.Writer.{
  is_observation, find_observation, observation_row, observation_payload, same_dto, insertion,
  insertion_of_values, settle_ledger, owns, touch_threads, put_message, assistant_message,
  insert_steps, finalize,
}

same_observation_refl : (o : ObservationStatus) → same_observation o o ≡ true
unfolding same_observation
same_observation_refl succeeded = refl
same_observation_refl ObservationStatus.failed = refl
same_observation_refl cancelled = refl

-- What is read back of a stored observation equals it exactly if it has no time to the first token.
read_back :
    (user_id : ℕ) (d : ObservationDto)
    → same_dto (observation_payload (observation_row user_id d)) d ≡ not (is_some d.ttft_ms)
unfolding same_dto observation_payload observation_row
read_back user_id d = elim (Option-cases d.ttft_ms) [
  | inl e ↦
      rw
        (
          e,
          ==_refl d.execution_id,
          ==_refl d.attempt_id,
          same_observation_refl d.status,
          same_text_refl d.body,
        )
        refl
  | inr e ↦
      rw (e.1, ==_refl d.execution_id, ==_refl d.attempt_id, same_observation_refl d.status) refl
]

same_has_no_time :
    (o : Observation) (d : ObservationDto)
    → same_dto (observation_payload o) d ≡ true
    → is_some d.ttft_ms ≡ false
unfolding same_dto observation_payload
same_has_no_time o d h = elim (Option-cases d.ttft_ms) [
  | inl e ↦ rw e refl
  | inr e ↦ absurd (ground (arith, e.1))
]

-- An observation that was accepted is accepted again exactly if it has no time to the first token.
pub insertion_again :
    (user_id : ℕ) (d : ObservationDto) (obs obs' : List Observation)
    → insertion user_id d obs ≡ returned obs'
    → insertion user_id d obs'
      ≡ (if is_some d.ttft_ms then raised observation_conflict else returned obs')
unfolding insertion find_observation is_observation
insertion_again user_id d obs obs' h =
    elim (Option-cases (find_observation d.execution_id d.attempt_id obs)) [
      | inl e ↦
          let same : obs' ≡ observation_row user_id d ∷ obs = ground arith in
          ground (arith, read_back user_id d)
      | inr e ↦ ground (arith, same_has_no_time e.0 d)
    ]

module _ (o : ChatTurnOutcome) (now : ℕ) (s : Store) where
  -- What is inserted for the outcome.
  abbrev pub observing : Ended (List Observation)
  observing =
      insertion_of_values o.execution_id o.user_id o.attempt o.observation s.ledger.observations

  abbrev pub ledger_with : List Observation → Ledger
  ledger_with obs = record s.ledger { observations = obs }

  abbrev pub settled_store : List Observation → Store
  settled_store obs = record s { ledger = (settle_ledger o now (ledger_with obs)).1 }

  abbrev pub written_store : List Observation → Store
  written_store obs = record s {
    ledger = (settle_ledger o now (ledger_with obs)).1;
    messages = put_message (assistant_message o now) s.messages;
    threads = touch_threads o.thread_id o.user_id now s.threads;
    steps = insert_steps o o.steps now s.steps;
  }

  pub finalize-unobserved : (f : Fault) → observing ≡ raised f → finalize o now s ≡ (raised f, s)
  unfolding finalize
  finalize-unobserved f h = ground arith

  module _ (obs : List Observation) (h : observing ≡ returned obs) where
    pub finalize-refused :
        (settle_ledger o now (ledger_with obs)).0 ≡ false
        → finalize o now s ≡ (returned false, settled_store obs)
    unfolding finalize
    finalize-refused e = ground arith

    pub finalize-homeless :
        (settle_ledger o now (ledger_with obs)).0 ≡ true
        → any (owns o.thread_id o.user_id) s.threads ≡ false
        → finalize o now s ≡ (raised thread_missing, s)
    unfolding finalize
    finalize-homeless e t = ground arith

    pub finalize-written :
        (settle_ledger o now (ledger_with obs)).0 ≡ true
        → any (owns o.thread_id o.user_id) s.threads ≡ true
        → finalize o now s ≡ (returned true, written_store obs)
    unfolding finalize
    finalize-written e t = ground arith

  -- An accepted finalization went through all of its steps.
  pub record WasWritten : Type 0 where
    pub obs : List Observation
    pub inserted : observing ≡ returned obs
    pub accepted : (settle_ledger o now (ledger_with obs)).0 ≡ true
    pub at_home : any (owns o.thread_id o.user_id) s.threads ≡ true

  pub finalize-WasWritten : (finalize o now s).0 ≡ returned true → WasWritten
  finalize-WasWritten h = elim (Ended-cases observing) [
    | inl (f, e) ↦ absurd (ground (arith, finalize-unobserved f e))
    | inr (obs, e) ↦ elim (Bool-cases (settle_ledger o now (ledger_with obs)).0) [
      | inr no_row ↦ absurd (ground (arith, finalize-refused obs e no_row))
      | inl a ↦ elim (Bool-cases (any (owns o.thread_id o.user_id) s.threads)) [
        | inr away ↦ absurd (ground (arith, finalize-homeless obs e a away))
        | inl t ↦ record { obs = obs; inserted = e; accepted = a; at_home = t }
      ]
    ]
  ]

-- The time to the first token that an outcome carries.
abbrev pub first_token : Option ObservationDto → Option ℕ
first_token none = none
first_token (some d) = d.ttft_ms

pub values_again :
    (execution_id user_id attempt : ℕ) (payload : Option ObservationDto)
    (obs obs' : List Observation)
    → insertion_of_values execution_id user_id attempt payload obs ≡ returned obs'
    → insertion_of_values execution_id user_id attempt payload obs'
      ≡ (if is_some (first_token payload) then raised observation_conflict else returned obs')
unfolding insertion_of_values
values_again execution_id user_id attempt none obs obs' h = absurd cc
values_again execution_id user_id attempt (some d) obs obs' h =
    elim (Bool-cases (d.execution_id == execution_id && d.attempt_id == attempt)) [
      | inl e ↦ rw e (insertion_again user_id d obs obs' (rw e at h))
      | inr e ↦ absurd (ground arith)
    ]
