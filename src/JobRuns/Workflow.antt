-- ===== src/JobRuns/Workflow.antt =====
-- `AgentJobWorkflow` of src/tracer_agent/worker/workflows/jobs_workflows.py with the limits of
-- src/tracer_agent/shared/workflows/jobs_spec.py. A cancellation takes effect between two stages, or after the last;
-- the closing activities are shielded from it.
use tracer_agent_python.Prelude.{ℕ, Bool, true, false, Option, none, some, if◌then◌else◌}
use tracer_agent_python.JobRuns.World.{
  JobKind, World, Payload, Fault, canceled, returned, raised, M, ◌>>=◌, ◌>>◌, Cut, interrupted,
  attempts_of,
}
use tracer_agent_python.JobRuns.Outcome.{GeneratedAgentJob}
use tracer_agent_python.JobRuns.Activities.{prepare, generate, finalize, fail, settle_canceled}
use tracer_agent_python.JobRuns.Service.{Service}

-- The clock of each attempt, where attempts are lost, and where a cancellation arrives; the attempts
-- of a generation are the contract's.
pub record Schedule : Type 0 where
  pub prepared_at : ℕ → ℕ
  pub finalized_at : ℕ → ℕ
  pub closed_at : ℕ → ℕ
  pub prepare_cut : ℕ → Cut
  pub generate_cut : ℕ → Cut
  pub finalize_cut : ℕ → Cut
  pub close_cut : ℕ → Cut
  pub more_generate_attempts : ℕ
  pub canceled_first : Bool
  pub canceled_prepared : Bool
  pub canceled_generated : Bool
  pub canceled_finalized : Bool

-- JOB_PREPARE_MAX_ATTEMPTS and JOB_FINALIZE_MAX_ATTEMPTS are 5, the first one counted.
abbrev pub more_prepare_attempts : ℕ
more_prepare_attempts = 4

abbrev pub more_finalize_attempts : ℕ
more_finalize_attempts = 4

abbrev pub checked : Bool → M (Unit {0})
checked is_canceled w = (if is_canceled then raised canceled else returned tt, w)

-- `is_cancelled_exception`
unfoldable pub is_canceled : Fault → Bool
is_canceled canceled = true
is_canceled _ = false

-- `_settle_canceled`, which does nothing without a job.
unfoldable pub canceled_attempts : Schedule → Option ℕ → M (Unit {0})
unfolding attempts_of settle_canceled
canceled_attempts at none w = (returned tt, w)
canceled_attempts at (some job_id) w =
    attempts_of more_finalize_attempts 1
      (λ n. interrupted (at.close_cut n) (settle_canceled job_id (at.closed_at n))) w

-- `_fail`
unfoldable pub fail_attempts : Service → Schedule → Payload → Fault → M (Unit {0})
unfolding attempts_of fail
fail_attempts service at payload fault =
    attempts_of more_finalize_attempts 1
      (λ n. interrupted (at.close_cut n) (fail service payload fault (at.closed_at n)))

-- What the workflow does about the error of a stage.
unfoldable pub close_attempts : Service → Schedule → Payload → Fault → M (Unit {0})
unfolding is_canceled canceled_attempts fail_attempts
close_attempts service at payload fault w =
    if is_canceled fault
    then canceled_attempts at payload.execution_id w
    else fail_attempts service at payload fault w

module _ (service : Service) (at : Schedule) (kind : JobKind) where
  unfoldable pub prepare_attempts : Payload → M Payload
  unfolding attempts_of prepare
  prepare_attempts payload =
      attempts_of more_prepare_attempts 1
        (λ n. interrupted (at.prepare_cut n) (prepare service kind payload (at.prepared_at n)))

  unfoldable pub generate_attempts : Payload → M GeneratedAgentJob
  unfolding attempts_of generate
  generate_attempts prepared =
      attempts_of at.more_generate_attempts 1
        (λ n. interrupted (at.generate_cut n) (generate service kind prepared n))

  unfoldable pub finalize_attempts : GeneratedAgentJob → M (Unit {0})
  unfolding attempts_of finalize
  finalize_attempts generated =
      attempts_of more_finalize_attempts 1
        (λ n. finalize service generated (at.finalized_at n) (at.finalize_cut n))

  unfoldable pub stages : Payload → M (Unit {0})
  unfolding prepare_attempts generate_attempts finalize_attempts
  stages payload = do
    checked at.canceled_first
    prepared ← prepare_attempts payload
    checked at.canceled_prepared
    generated ← generate_attempts prepared
    checked at.canceled_generated
    finalize_attempts generated
    checked at.canceled_finalized

  -- `run`: whether it ends without an error.
  unfoldable pub run_job : Payload → World → Bool × World
  unfolding stages close_attempts
  run_job payload w =
      let done = stages payload w in
      elim done.0 [
        | returned _ ↦ (true, done.1)
        | raised fault ↦ (false, (close_attempts service at payload fault done.1).1)
      ]
