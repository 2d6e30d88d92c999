-- ===== src/JobRuns/Closes.antt =====
-- The stages of a job's workflow (src/tracer_agent/worker/workflows/jobs_workflows.py) close the job if they end
-- without an error, and the workflow closes it if they do not.
use tracer_agent_python.Prelude.{ℕ, ◌≡◌, refl, Bool, true, false, Option, none, some, arith}
use tracer_agent_python.Jobs.Rows.{is_live}
use tracer_agent_python.Jobs.Ledger.{record_steps}
use tracer_agent_python.Jobs.Closed.{IsClosed}
use tracer_agent_python.JobRuns.World.{
  JobKind, World, Payload, Ended, returned, raised, M, ◌>>=◌, ◌>>◌, Cut, whole, before, midway,
  at_end, interrupted,
}
use tracer_agent_python.JobRuns.Outcome.{JobOutcome, GeneratedAgentJob}
use tracer_agent_python.JobRuns.Activities.{
  prepare, generate, finalize_job, settled_for, settle_ledger, finalize,
}
use tracer_agent_python.JobRuns.Service.{Service}
use tracer_agent_python.JobRuns.Workflow.{
  Schedule, checked, close_attempts, prepare_attempts, generate_attempts, finalize_attempts, stages,
  run_job,
}
use tracer_agent_python.JobRuns.Stable.{
  Exists, Exists-IsStable, Keeps, prepare-Keeps, finalize-Keeps, interrupted-Keeps, attempts-Keeps,
}
use tracer_agent_python.JobRuns.Once.{settled-db, handed-db}
use tracer_agent_python.JobRuns.Ends.{Lands, settle_job-IsClosed, close_attempts-Closes}
use tracer_agent_python.JobRuns.Returns.{Returns, attempts-Returns, bind-Returns, bind-Keeps}
use tracer_agent_python.JobRuns.Made.{
  NamesJob, prepare_attempts-NamesJob, EndsJob, generate_attempts-EndsJob,
}

module _ (job_id : ℕ) where
  abbrev EndsClosed : {A : Type 0} → A → World → Type 0
  EndsClosed a w = IsClosed job_id w.db

  settled-IsClosed :
      (service : Service) (o : JobOutcome) (id : Option ℕ) (now : ℕ) (w : World)
      → id ≡ some job_id
      → is_live o.status ≡ false
      → Exists job_id w.db
      → IsClosed job_id (settled_for service o id now w).1.db
  settled-IsClosed service o none now w own ends h = absurd (ground arith)
  settled-IsClosed service o (some other) now w own ends h =
      let same : other ≡ job_id = ground (arith, own) in
      rw (settled-db job_id service o other now w, same)
        (unfold finalize_job record_steps in
          settle_job-IsClosed job_id o.status _ _ o.error now _ ends h)

  finalize-Returns :
      (service : Service) (g : GeneratedAgentJob) (now : ℕ) (cut : Cut)
      → g.outcome.job_id ≡ some job_id
      → is_live g.outcome.status ≡ false
      → Returns job_id (finalize service g now cut) EndsClosed
  unfolding finalize settle_ledger
  finalize-Returns service g now whole own ends w h a e =
      rw
        (handed-db job_id (settled_for service g.outcome g.outcome.job_id now w).0 g.outcome
          (settled_for service g.outcome g.outcome.job_id now w).1)
        (settled-IsClosed service g.outcome g.outcome.job_id now w own ends h)
  finalize-Returns service g now before own ends w h a e = absurd cc
  finalize-Returns service g now midway own ends w h a e = absurd cc
  finalize-Returns service g now at_end own ends w h a e = absurd cc

  checked-Returns :
      (is_canceled : Bool) (V : World → Type 0) (w : World) (a : Unit {0})
      → V w
      → (checked is_canceled w).0 ≡ returned a
      → V (checked is_canceled w).1
  checked-Returns is_canceled V w a h e = h

  module _ (service : Service) (at : Schedule) (kind : JobKind) where
    prepare_attempts-Keeps :
        (payload : Payload) → Keeps (Exists job_id) (prepare_attempts service at kind payload)
    unfolding prepare_attempts
    prepare_attempts-Keeps payload =
        attempts-Keeps (Exists job_id) (Exists-IsStable job_id) 4 1
          (λ n. interrupted (at.prepare_cut n) (prepare service kind payload (at.prepared_at n)))
          (λ n.
            interrupted-Keeps (Exists job_id) (Exists-IsStable job_id) (at.prepare_cut n)
              (prepare service kind payload (at.prepared_at n))
              (prepare-Keeps (Exists job_id) (Exists-IsStable job_id) service kind payload
                (at.prepared_at n)))

    generate_attempts-Keeps :
        (payload : Payload) → Keeps (Exists job_id) (generate_attempts service at kind payload)
    unfolding generate_attempts
    generate_attempts-Keeps payload =
        attempts-Keeps (Exists job_id) (Exists-IsStable job_id) at.more_generate_attempts 1
          (λ n. interrupted (at.generate_cut n) (generate service kind payload n))
          (λ n.
            interrupted-Keeps (Exists job_id) (Exists-IsStable job_id) (at.generate_cut n)
              (generate service kind payload n) (λ w h. unfold generate in h))

    finalize_attempts-Keeps :
        (g : GeneratedAgentJob) → Keeps (Exists job_id) (finalize_attempts service at kind g)
    unfolding finalize_attempts
    finalize_attempts-Keeps g =
        attempts-Keeps (Exists job_id) (Exists-IsStable job_id) 4 1
          (λ n. finalize service g (at.finalized_at n) (at.finalize_cut n))
          (λ n.
            finalize-Keeps (Exists job_id) (Exists-IsStable job_id) service g (at.finalized_at n)
              (at.finalize_cut n))

    finalize_attempts-Returns :
        (g : GeneratedAgentJob)
        → g.outcome.job_id ≡ some job_id
        → is_live g.outcome.status ≡ false
        → Returns job_id (finalize_attempts service at kind g) EndsClosed
    unfolding finalize_attempts
    finalize_attempts-Returns g own ends =
        attempts-Returns job_id 4 1
          (λ n. finalize service g (at.finalized_at n) (at.finalize_cut n)) EndsClosed
          (λ n.
            finalize-Keeps (Exists job_id) (Exists-IsStable job_id) service g (at.finalized_at n)
              (at.finalize_cut n))
          (λ n. finalize-Returns service g (at.finalized_at n) (at.finalize_cut n) own ends)

    -- The stages up to one, in the order in which they run.
    abbrev last_stages : GeneratedAgentJob → M (Unit {0})
    last_stages g = finalize_attempts service at kind g >> checked at.canceled_finalized

    abbrev later_stages : Payload → M (Unit {0})
    later_stages prepared = do
      generated ← generate_attempts service at kind prepared
      checked at.canceled_generated
      last_stages generated

    abbrev prepared_stages : Payload → M (Unit {0})
    prepared_stages payload = do
      prepared ← prepare_attempts service at kind payload
      checked at.canceled_prepared
      later_stages prepared

    last_stages-Keeps : (g : GeneratedAgentJob) → Keeps (Exists job_id) (last_stages g)
    last_stages-Keeps g =
        bind-Keeps job_id (finalize_attempts service at kind g) (λ _. checked at.canceled_finalized)
          (finalize_attempts-Keeps g) (λ _ w h. h)

    later_stages-Keeps : (prepared : Payload) → Keeps (Exists job_id) (later_stages prepared)
    later_stages-Keeps prepared =
        bind-Keeps job_id (generate_attempts service at kind prepared)
          (λ g. checked at.canceled_generated >> last_stages g) (generate_attempts-Keeps prepared)
          (λ g.
            bind-Keeps job_id (checked at.canceled_generated) (λ _. last_stages g) (λ w h. h)
              (λ _. last_stages-Keeps g))

    stages-Keeps : (payload : Payload) → Keeps (Exists job_id) (stages service at kind payload)
    unfolding stages
    stages-Keeps payload =
        bind-Keeps job_id (checked at.canceled_first) (λ _. prepared_stages payload) (λ w h. h)
          (λ _.
            bind-Keeps job_id (prepare_attempts service at kind payload)
              (λ p. checked at.canceled_prepared >> later_stages p) (prepare_attempts-Keeps payload)
              (λ p.
                bind-Keeps job_id (checked at.canceled_prepared) (λ _. later_stages p) (λ w h. h)
                  (λ _. later_stages-Keeps p)))

    last_stages-Returns :
        (g : GeneratedAgentJob)
        → g.outcome.job_id ≡ some job_id
        → is_live g.outcome.status ≡ false
        → Returns job_id (last_stages g) EndsClosed
    last_stages-Returns g own ends =
        bind-Returns job_id (finalize_attempts service at kind g)
          (λ _. checked at.canceled_finalized) EndsClosed EndsClosed (finalize_attempts-Keeps g)
          (finalize_attempts-Returns g own ends) (λ _ w closed h b e. closed)

    later_stages-Returns :
        (prepared : Payload)
        → prepared.execution_id ≡ some job_id
        → Returns job_id (later_stages prepared) EndsClosed
    later_stages-Returns prepared own =
        bind-Returns job_id (generate_attempts service at kind prepared)
          (λ g. checked at.canceled_generated >> last_stages g) (EndsJob job_id) EndsClosed
          (generate_attempts-Keeps prepared)
          (generate_attempts-EndsJob job_id service at kind prepared own)
          (λ g v ends there.
            bind-Returns job_id (checked at.canceled_generated) (λ _. last_stages g)
              (λ _ _. Unit {0}) EndsClosed (λ w h. h) (λ w h a e. tt)
              (λ _ w _ h. last_stages-Returns g ends.0 ends.1 w h) v there)

    stages-Returns :
        (payload : Payload)
        → payload.execution_id ≡ some job_id
        → Returns job_id (stages service at kind payload) EndsClosed
    unfolding stages
    stages-Returns payload own =
        bind-Returns job_id (checked at.canceled_first) (λ _. prepared_stages payload)
          (λ _ _. Unit {0}) EndsClosed (λ w h. h) (λ w h a e. tt)
          (λ _ v _ there.
            bind-Returns job_id (prepare_attempts service at kind payload)
              (λ p. checked at.canceled_prepared >> later_stages p) (NamesJob job_id) EndsClosed
              (prepare_attempts-Keeps payload)
              (prepare_attempts-NamesJob job_id service at kind payload own)
              (λ p u names exists.
                bind-Returns job_id (checked at.canceled_prepared) (λ _. later_stages p)
                  (λ _ _. Unit {0}) EndsClosed (λ w h. h) (λ w h a e. tt)
                  (λ _ w _ h. later_stages-Returns p names w h) u exists)
              v there)

    ended-IsClosed :
        (payload : Payload) (done : Ended (Unit {0}) × World)
        → payload.execution_id ≡ some job_id
        → Lands at.close_cut 4 1
        → Exists job_id done.1.db
        → ((a : Unit {0}) → done.0 ≡ returned a → IsClosed job_id done.1.db)
        → IsClosed job_id
            (elim done.0 as (λ x. Bool × World) [
              | returned _ ↦ (true, done.1)
              | raised fault ↦ (false, (close_attempts service at payload fault done.1).1)
            ]).1.db
    ended-IsClosed payload (returned a, w) own lands there closed = closed a refl
    ended-IsClosed payload (raised fault, w) own lands there closed =
        close_attempts-Closes job_id service at payload own fault lands w there

-- However the stages of a job's workflow end, with an error, a cancellation or lost attempts, the job is closed in
-- the ledger once the workflow has ended, if it was there, the payload names it, and one of the five attempts
-- to close it after an error is not lost before it writes.
pub run_job-IsClosed :
    (job_id : ℕ) (service : Service) (at : Schedule) (kind : JobKind) (payload : Payload)
    (w : World)
    → payload.execution_id ≡ some job_id
    → Exists job_id w.db
    → Lands at.close_cut 4 1
    → IsClosed job_id (run_job service at kind payload w).1.db
unfolding run_job
run_job-IsClosed job_id service at kind payload w own there lands =
    ended-IsClosed job_id service at kind payload (stages service at kind payload w) own lands
      (stages-Keeps job_id service at kind payload w there)
      (stages-Returns job_id service at kind payload own w there)
