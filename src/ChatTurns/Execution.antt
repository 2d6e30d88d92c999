-- ===== src/ChatTurns/Execution.antt =====
-- `ChatExecutionWorkflow` of src/tracer_agent/worker/workflows/chat_workflows.py with its limits of
-- src/tracer_agent/shared/workflows/chat_spec.py. An activity is tried again while its error may be
-- retried and attempts are left; a lost attempt is one that raises. The wait for a busy thread is a
-- step in which others write. The workflow's own cancellation arrives before the first stage, in such a wait or
-- while it settles: a `CancelledError`, which is no `Exception`, so that the failure is not recorded.
-- A cancellation in another stage is an error of that stage's activity, which may have written.
use tracer_agent_python.Prelude.{ℕ, zero, suc, ◌+◌, Bool, true, false, not, if◌then◌else◌}
use tracer_agent_python.ChatTurns.Tables.{Store}
use tracer_agent_python.ChatTurns.Ended.{
  Subtype, deadline_exceeded, budget_exceeded, max_tokens, max_turns_exceeded,
  invalid_request_error, agent_execution_error, Fault, not_active, thread_busy, invalid_envelope,
  run_failed, lost, returned, raised, M, pure, ◌>>=◌, ◌>>◌,
}
use tracer_agent_python.ChatTurns.Turn.{PreparedChatExecution, GeneratedChatExecution}
use tracer_agent_python.ChatTurns.Activities.{
  Service, Readings, prepare, generate, finalize_turn, fail,
}

-- NON_RETRYABLE_SUBTYPES
unfoldable pub is_final : Subtype → Bool
is_final deadline_exceeded = true
is_final budget_exceeded = true
is_final max_tokens = true
is_final max_turns_exceeded = true
is_final invalid_request_error = true
is_final agent_execution_error = true
is_final _ = false

-- Whether an error is not raised as `non_retryable`.
unfoldable pub is_retryable : Fault → Bool
unfolding is_final
is_retryable not_active = false
is_retryable thread_busy = false
is_retryable invalid_envelope = false
is_retryable (run_failed subtype) = not (is_final subtype)
is_retryable _ = true

-- `RetryPolicy(maximum_attempts = more + 1)`: the attempts are numbered from 1.
unfoldable pub attempts : {A : Type 0} → ℕ → ℕ → (ℕ → M A) → M A
unfolding is_retryable
attempts zero attempt activity s = activity attempt s
attempts (suc more) attempt activity s =
    let again = attempts more (attempt + 1) activity (activity attempt s).1 in
    elim (activity attempt s).0 [
      | returned a ↦ (returned a, (activity attempt s).1)
      | raised f ↦ if is_retryable f then again else (raised f, (activity attempt s).1)
    ]

-- Where an attempt of an activity is lost: nowhere, before it writes, or after.
pub data Cut : Type 0 where
  whole before at_end : Cut

-- A stage that wrote all it does may still end with an error: its answer is lost, or it is cancelled.
abbrev pub unless_lost : Bool → M (Unit {0})
unless_lost is_lost s = (if is_lost then raised lost else returned tt, s)

abbrev pub interrupted : {A : Type 0} → Cut → M A → M A
interrupted whole m s = m s
interrupted before m s = (raised lost, s)
interrupted at_end m s = (raised lost, (m s).1)

-- The times at which the stages read the clock, where attempts to record the failure are lost, what
-- others write in a wait, where the workflow's cancellation arrives, and which stages' answers are lost.
pub record Schedule : Type 0 where
  pub lease_s : ℕ
  pub seats_at : ℕ → Readings
  pub begun_at : ℕ → ℕ
  pub observed_at : ℕ → ℕ
  pub settled_at : ℕ → ℕ
  pub failed_at : ℕ → ℕ
  pub fail_cut : ℕ → Cut
  pub meanwhile : ℕ → Store → Store
  pub canceled_first : Bool
  pub canceled_wait : ℕ → Bool
  pub canceled_settling : Bool
  pub prepare_lost : Bool
  pub generate_lost : Bool
  pub settle_lost : Bool

-- What the workflow waits for, or its own `CancelledError`.
pub data Awaited (A : Type 0) : Type 0 where
  arrived : A → Awaited A
  cancelled_error : Awaited A

unfoldable pub is_thread_busy : Fault → Bool
is_thread_busy thread_busy = true
is_thread_busy _ = false

-- `_prepare_until_thread_frees` from a round on, with so many rounds left. An error of a claim is not
-- retryable, so each round claims once.
unfoldable pub prepare_rounds : Schedule → ℕ → ℕ → ℕ → ℕ → M (Awaited PreparedChatExecution)
unfolding prepare is_thread_busy
prepare_rounds at execution_id thread_id zero round s =
    let tried = prepare at.lease_s execution_id thread_id (at.seats_at round) s in
    elim tried.0 [ returned p ↦ (returned (arrived p), tried.1) | raised f ↦ (raised f, tried.1) ]
prepare_rounds at execution_id thread_id (suc more) round s =
    let tried = prepare at.lease_s execution_id thread_id (at.seats_at round) s in
    let later =
      prepare_rounds at execution_id thread_id more (round + 1) (at.meanwhile round tried.1) in
    elim tried.0 [
      | returned p ↦ (returned (arrived p), tried.1)
      | raised f ↦
          if is_thread_busy f
          then if at.canceled_wait round then (returned cancelled_error, tried.1) else later
          else (raised f, tried.1)
    ]

-- THREAD_BUSY_MAX_ROUNDS is 45, GENERATE_MAX_ATTEMPTS 3, STAGE_MAX_ATTEMPTS 5; each counts the
-- first one.
abbrev pub more_busy_rounds : ℕ
more_busy_rounds = 44

abbrev pub more_generate_attempts : ℕ
more_generate_attempts = 2

abbrev pub more_stage_attempts : ℕ
more_stage_attempts = 4

module _ (service : Service) (at : Schedule) where
  unfoldable pub generate_attempts : PreparedChatExecution → M GeneratedChatExecution
  unfolding attempts generate
  generate_attempts prepared =
      attempts more_generate_attempts 1
        (λ n. generate service prepared (at.begun_at n) (at.observed_at n) n)

  unfoldable pub settle_attempts : GeneratedChatExecution → M (Unit {0})
  unfolding attempts finalize_turn
  settle_attempts generated =
      attempts more_stage_attempts 1 (λ n. finalize_turn service generated (at.settled_at n) n)

  -- A cancellation while it settles is raised once the settlement ended.
  unfoldable pub after_generated : GeneratedChatExecution → M (Awaited (Unit {0}))
  unfolding settle_attempts
  after_generated generated = do
    settle_attempts generated
    unless_lost at.settle_lost
    pure (if at.canceled_settling then cancelled_error else arrived tt)

  unfoldable pub after_prepared : Awaited PreparedChatExecution → M (Awaited (Unit {0}))
  unfolding generate_attempts after_generated
  after_prepared cancelled_error = pure cancelled_error
  after_prepared (arrived prepared) = do
    unless_lost at.prepare_lost
    generated ← generate_attempts prepared
    unless_lost at.generate_lost
    after_generated generated

  unfoldable pub stages : ℕ → ℕ → M (Awaited (Unit {0}))
  unfolding prepare_rounds after_prepared
  stages execution_id thread_id s =
      if at.canceled_first
      then (returned cancelled_error, s)
      else (prepare_rounds at execution_id thread_id more_busy_rounds 1 >>= after_prepared) s

  unfoldable pub fail_attempts : ℕ → Fault → M Bool
  unfolding attempts fail
  fail_attempts execution_id f =
      attempts more_stage_attempts 1
        (λ n. interrupted (at.fail_cut n) (fail service execution_id f (at.failed_at n)))

  -- `run`, and whether it ends without an error.
  unfoldable pub run_execution : ℕ → ℕ → Store → Bool × Store
  unfolding stages fail_attempts
  run_execution execution_id thread_id s =
      let done = stages execution_id thread_id s in
      elim done.0 [
        | returned (arrived _) ↦ (true, done.1)
        | returned cancelled_error ↦ (false, done.1)
        | raised f ↦ (false, (fail_attempts execution_id f done.1).1)
      ]
