-- ===== src/ChatTurns/Tried.antt =====
-- What an attempt to generate a turn does to its execution
-- (src/tracer_agent/worker/workflows/chat_activities.py): it runs on, and what the attempt returns
-- fits it.
use mathlib.Core.Path.{subst}
use tracer_agent_python.Prelude.{
  ℕ, ◌≡◌, refl, ◌∙◌, Bool, true, not, Option, some, none, List, ◌∷◌, arith, any, All, ◌⊎◌,
  if◌then◌else◌, Bool-cases, Option-cases, inl, inr, ==_refl,
}
use tracer_agent_python.ChatLedger.Rows.{
  Observation, ObservationStatus, succeeded, cancelled, same_observation,
}
use tracer_agent_python.ChatTurns.Tables.{Text, Store, ObservationDto}
use tracer_agent_python.ChatTurns.Ended.{
  Ended, Ended-cases, Subtype, returned, returned-inj, raised, run_failed, M,
}
use tracer_agent_python.ChatTurns.Writer.{
  find_observation, observation_row, insertion, insertion_of_values, with_observations,
  insert_observation_values, record_observation,
}
use tracer_agent_python.ChatTurns.Turn.{
  ChatRequest, PreparedChatExecution, GeneratedChatExecution, ExecutionTrace, ChatData, finishes,
  overruns, interrupted, fails, finish_error, last_assistant_text, to_observation,
  observation_status, execute, canceled_turn, completed_turn, raise_for_error,
}
use tracer_agent_python.ChatTurns.Activities.{Run, ran, cut_off, Service, after_run}
use tracer_agent_python.ChatTurns.Redelivery.{observations-IsSerial, find-observations}
use tracer_agent_python.ChatTurns.Lives.{IsRunning, FailedOf}

abbrev pub has_text : (ℕ → Bool) → Text → Bool
has_text is_space t = any (λ c. not (is_space c)) t

-- The trace of a run that was cancelled.
abbrev pub cut_trace : Run → Option ExecutionTrace
cut_trace (cut_off trace) = some trace
cut_trace (ran finish trace) = elim (finish_error finish) [
  | some Subtype.cancelled ↦ some trace
  | _ ↦ none
]

-- A cancelled run has said something.
abbrev pub Speaks : Service → Type 0
Speaks service =
    (request : ChatRequest) (n : ℕ) (trace : ExecutionTrace)
    → cut_trace (service.run_chat request n) ≡ some trace
    → has_text service.is_space (last_assistant_text trace.steps) ≡ true

-- What a turn is written with: it is of the execution and its user, and its observation tells how
-- it ended.
pub record Fits (service : Service) (id user : ℕ) (g : GeneratedChatExecution) : Type 0 where
  pub its_execution : g.execution_id ≡ id
  pub its_user : g.user_id ≡ user
  pub observation : ObservationDto
  pub carried : g.observation ≡ some observation
  pub tells :
      same_observation observation.status (if g.canceled then cancelled else succeeded) ≡ true
  pub spoken : g.canceled ≡ true → has_text service.is_space g.text ≡ true

pub insertion-grows :
    (user : ℕ) (d : ObservationDto) (obs obs' : List Observation)
    → insertion user d obs ≡ returned obs'
    → (obs' ≡ obs) ⊎ (obs' ≡ observation_row user d ∷ obs)
insertion-grows user d obs obs' h =
    elim (Option-cases (find_observation d.execution_id d.attempt_id obs)) [
      | inl e ↦ inr (unfold insertion in ground arith)
      | inr e ↦ inl (unfold insertion in ground arith)
    ]

pub with-IsRunning :
    (id user : ℕ) (s : Store) (obs : List Observation)
    → IsRunning id user s.ledger
    → All (FailedOf id user) obs
    → IsRunning id user (with_observations s obs).ledger
with-IsRunning id user s obs w only = record {
  serial = observations-IsSerial s.ledger obs w.serial;
  row = w.row;
  found = find-observations id s.ledger obs ∙ w.found;
  runs = w.runs;
  its_user = w.its_user;
  unanswered = w.unanswered;
  failed_only = only;
}

inserted-FailedOf :
    (id user attempt : ℕ) (d : ObservationDto) (obs obs' : List Observation)
    → same_observation d.status ObservationStatus.failed ≡ true
    → All (FailedOf id user) obs
    → insertion_of_values id user attempt (some d) obs ≡ returned obs'
    → All (FailedOf id user) obs'
inserted-FailedOf id user attempt d obs obs' failed only e =
    let inner : insertion user d obs ≡ returned obs' = unfold insertion_of_values in ground arith in
    elim (insertion-grows user d obs obs' inner) [
      | inl same ↦ rw same only
      | inr more ↦ rw more ((λ h. unfold observation_row in (failed, ==_refl user)), only)
    ]

-- A failed observation keeps the execution running, whether it is accepted or not.
record-IsRunning :
    (id user attempt : ℕ) (d : ObservationDto) (s : Store)
    → same_observation d.status ObservationStatus.failed ≡ true
    → IsRunning id user s.ledger
    → IsRunning id user (record_observation id user attempt (some d) s).1.ledger
record-IsRunning id user attempt d s failed w =
    let obs = s.ledger.observations in
    let r = insertion_of_values id user attempt (some d) obs in
    elim (Ended-cases r) [
      | inl (f, e) ↦
          let end : (record_observation id user attempt (some d) s).1 ≡ s =
            unfold record_observation insert_observation_values in ground arith in
          rw end w
      | inr (obs', e) ↦
          let end : (record_observation id user attempt (some d) s).1 ≡ with_observations s obs' =
            unfold record_observation insert_observation_values in ground arith in
          rw end (
            with-IsRunning id user s obs' w
              (inserted-FailedOf id user attempt d obs obs' failed w.failed_only e))
    ]

module _ (service : Service) (speaks : Speaks service) (id user : ℕ) where
  abbrev pub GeneratedAs : Ended GeneratedChatExecution × Store → Type 0
  GeneratedAs z =
      IsRunning id user z.1.ledger
      × ((g : GeneratedChatExecution) → z.0 ≡ returned g → Fits service id user g)

  module _ (p : PreparedChatExecution) (its_execution : p.execution_id ≡ id)
      (its_user : p.user_id ≡ user) (n now : ℕ) (request : ChatRequest) (s : Store)
      (w : IsRunning id user s.ledger) where
    after_cut :
        (trace : ExecutionTrace)
        → has_text service.is_space (last_assistant_text trace.steps) ≡ true
        → Fits service id user (canceled_turn service.estimate_cost p n request trace)
    unfolding canceled_turn to_observation observation_status same_observation
    after_cut trace said = record {
      its_execution = its_execution;
      its_user = its_user;
      observation = to_observation trace p.execution_id n (some Subtype.cancelled) none;
      carried = refl;
      tells = refl;
      spoken = λ c. said;
    }

    -- A failed run is observed, and its error raised.
    abbrev failing : ExecutionTrace → Subtype → M GeneratedChatExecution
    failing trace subtype t =
        let observed =
          record_observation p.execution_id p.user_id n
            (some (to_observation trace request.execution_id n (some subtype) trace.first_token_ms))
            t in
        elim observed.0 [
          | returned _ ↦ (raised (run_failed subtype), observed.1)
          | raised f ↦ (raised f, observed.1)
        ]

    failing-GeneratedAs :
        (trace : ExecutionTrace) (subtype : Subtype)
        → observation_status (some subtype) ≡ ObservationStatus.failed
        → GeneratedAs (failing trace subtype s)
    failing-GeneratedAs trace subtype e =
        let d = to_observation trace request.execution_id n (some subtype) trace.first_token_ms in
        let observed = record_observation p.execution_id p.user_id n (some d) s in
        let failed : same_observation d.status ObservationStatus.failed ≡ true =
          unfold to_observation same_observation in rw e refl in
        let still : IsRunning id user observed.1.ledger =
          rw (its_execution, its_user) (record-IsRunning id user n d s failed w) in
        elim (Ended-cases observed.0) [
          | inl (f, h) ↦
              let end : failing trace subtype s ≡ (raised f, observed.1) = ground arith in
              rw end (still, λ g h. absurd (ground arith))
          | inr (u, h) ↦
              let end : failing trace subtype s ≡ (raised (run_failed subtype), observed.1) =
                ground arith in
              rw end (still, λ g h. absurd (ground arith))
        ]

    cut-GeneratedAs :
        (trace : ExecutionTrace)
        → has_text service.is_space (last_assistant_text trace.steps) ≡ true
        → GeneratedAs (returned (canceled_turn service.estimate_cost p n request trace), s)
    cut-GeneratedAs trace said = (
      w,
      λ g h.
          let same : canceled_turn service.estimate_cost p n request trace ≡ g = ground arith in
          subst (Fits service id user) same (after_cut trace said),
    )

    completed-GeneratedAs :
        (answer : ChatData) (trace : ExecutionTrace)
        → GeneratedAs (
            completed_turn service.estimate_cost service.is_space p n request
              (execute request n (finishes answer) trace)
              s)
    unfolding completed_turn execute
    completed-GeneratedAs answer trace =
        elim (Bool-cases (has_text service.is_space answer.assistant_text)) [
          | inl e ↦ rw e (
            w,
            λ g h. subst (Fits service id user) (returned-inj _ g h) (record {
              its_execution = its_execution;
              its_user = its_user;
              observation = to_observation trace request.execution_id n none trace.first_token_ms;
              carried = refl;
              tells = unfold to_observation observation_status same_observation in refl;
              spoken = λ c. absurd cc;
            }),
          )
          | inr e ↦ rw e (w, λ g h. absurd (ground arith))
        ]

    pub after_run-GeneratedAs :
        (run : Run)
        → ((trace : ExecutionTrace)
            → cut_trace run ≡ some trace
            → has_text service.is_space (last_assistant_text trace.steps) ≡ true)
        → GeneratedAs (after_run service p n now request run s)
    unfolding after_run execute finish_error observation_status same_observation raise_for_error
    after_run-GeneratedAs (cut_off trace) said = cut-GeneratedAs trace (said trace refl)
    after_run-GeneratedAs (ran (finishes answer) trace) said = completed-GeneratedAs answer trace
    after_run-GeneratedAs (ran overruns trace) said =
        failing-GeneratedAs trace Subtype.deadline_exceeded refl
    after_run-GeneratedAs (ran interrupted trace) said = cut-GeneratedAs trace (said trace refl)
    after_run-GeneratedAs (ran (fails Subtype.cancelled) trace) said =
        cut-GeneratedAs trace (said trace refl)
    after_run-GeneratedAs (ran (fails Subtype.deadline_exceeded) trace) said =
        failing-GeneratedAs trace Subtype.deadline_exceeded refl
    after_run-GeneratedAs (ran (fails Subtype.budget_exceeded) trace) said =
        failing-GeneratedAs trace Subtype.budget_exceeded refl
    after_run-GeneratedAs (ran (fails Subtype.max_tokens) trace) said =
        failing-GeneratedAs trace Subtype.max_tokens refl
    after_run-GeneratedAs (ran (fails Subtype.max_turns_exceeded) trace) said =
        failing-GeneratedAs trace Subtype.max_turns_exceeded refl
    after_run-GeneratedAs (ran (fails Subtype.invalid_request_error) trace) said =
        failing-GeneratedAs trace Subtype.invalid_request_error refl
    after_run-GeneratedAs (ran (fails Subtype.agent_execution_error) trace) said =
        failing-GeneratedAs trace Subtype.agent_execution_error refl
    after_run-GeneratedAs (ran (fails (Subtype.other k)) trace) said =
        failing-GeneratedAs trace (Subtype.other k) refl
