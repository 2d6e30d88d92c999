-- ===== src/JobRuns/Ends.antt =====
-- However a job's workflow ends, the job is closed (src/tracer_agent/worker/workflows/jobs_workflows.py).
use Prim.Native.String.{String}
use tracer_agent_python.Prelude.{
  ℕ, zero, suc, ◌+◌, ◌≡◌, refl, ◌∙◌, ◌⊎◌, inl, inr, Bool, true, false, Option, none, some,
  if◌then◌else◌, arith,
}
use tracer_agent_python.Jobs.Rows.{JobStatus, is_live, Database}
use tracer_agent_python.Jobs.Ledger.{close, settle_job}
use tracer_agent_python.Jobs.Closed.{exists-update, closed-update, IsClosed}
use tracer_agent_python.JobRuns.World.{
  World, Payload, Fault, lost, Ended, returned, raised, M, Cut, whole, before, midway, at_end,
  interrupted, is_retryable, attempts_of,
}
use tracer_agent_python.JobRuns.Activities.{failed_for, fail, settle_canceled, close_job}
use tracer_agent_python.JobRuns.Service.{Service}
use tracer_agent_python.JobRuns.Workflow.{
  Schedule, is_canceled, canceled_attempts, fail_attempts, close_attempts,
}
use tracer_agent_python.JobRuns.Stable.{
  Exists, Exists-IsStable, IsClosed-IsStable, Keeps, interrupted-Keeps, attempts-Keeps, fail-Keeps,
  settle_canceled-Keeps,
}

-- Not lost before it writes.
abbrev pub LandsAt : Cut → Type 0
LandsAt before = ⊥
LandsAt _ = Unit

-- One of the attempts from a number on is not lost before it writes.
abbrev pub Lands : (ℕ → Cut) → ℕ → ℕ → Type 0
Lands cuts zero n = LandsAt (cuts n)
Lands cuts (suc more) n = LandsAt (cuts n) ⊎ Lands cuts more (n + 1)

module _ (job_id : ℕ) where
  pub settle_job-IsClosed :
      (status : JobStatus) (result usage : String) (error : Option String) (now : ℕ) (db : Database)
      → is_live status ≡ false
      → Exists job_id db
      → IsClosed job_id (settle_job job_id status result usage error now db).1
  unfolding settle_job
  settle_job-IsClosed status result usage error now db ends h = record {
    is_there =
        exists-update job_id job_id (close status result usage error now)
          (λ r. unfold close in refl) db.jobs
        ∙ h;
    not_live =
        closed-update job_id (close status result usage error now) db.jobs
          (λ r. unfold close in ends);
  }

  told-IsClosed :
      (b : Bool) (x y : World)
      → IsClosed job_id x.db
      → IsClosed job_id y.db
      → IsClosed job_id (if b then x else y).db
  told-IsClosed true x y h k = h
  told-IsClosed false x y h k = k

  close_job-IsClosed :
      (status : JobStatus) (message : String) (tells : Bool) (now : ℕ) (w : World)
      → is_live status ≡ false
      → Exists job_id w.db
      → IsClosed job_id (close_job job_id status message tells now w).db
  unfolding close_job
  close_job-IsClosed status message tells now w ends h =
      let closed = settle_job-IsClosed status _ _ _ now w.db ends h in
      told-IsClosed _ _ _ closed closed

  -- A run that closes the job if it is there.
  abbrev pub Closes : {A : Type 0} → M A → Type 0
  Closes m = (w : World) → Exists job_id w.db → IsClosed job_id (m w).1.db

  interrupted-Closes :
      {A : Type 0} (cut : Cut) (m : M A) → Closes m → LandsAt cut → Closes (interrupted cut m)
  interrupted-Closes whole m k lands w h = k w h
  interrupted-Closes before m k lands w h = absurd lands
  interrupted-Closes midway m k lands w h = k w h
  interrupted-Closes at_end m k lands w h = k w h

  either-IsClosed :
      {A : Type 0} (b : Bool) (x y : Ended A × World)
      → IsClosed job_id x.1.db
      → IsClosed job_id y.1.db
      → IsClosed job_id (if b then x else y).1.db
  either-IsClosed true x y h k = h
  either-IsClosed false x y h k = k

  -- An attempt that is lost before it writes is followed by another.
  retried-IsClosed :
      {A : Type 0} (tried again : Ended A × World)
      → IsClosed job_id again.1.db
      → (tried.0 ≡ raised lost) ⊎ IsClosed job_id tried.1.db
      → IsClosed job_id
          (elim tried.0 as (λ x. Ended A × World) [
            | returned a ↦ (returned a, tried.1)
            | raised f ↦ if is_retryable f then again else (raised f, tried.1)
          ]).1.db
  unfolding is_retryable
  retried-IsClosed (returned a, w) again h (inl e) = absurd (ground arith)
  retried-IsClosed (returned a, w) again h (inr k) = k
  retried-IsClosed (raised f, w) again h (inl e) =
      let same : f ≡ lost = ground (arith, e) in rw same h
  retried-IsClosed (raised f, w) again h (inr k) = either-IsClosed _ _ _ h k

  interrupted-or_IsClosed :
      {A : Type 0} (cut : Cut) (m : M A) (w : World)
      → Closes m
      → Exists job_id w.db
      → ((interrupted cut m w).0 ≡ raised lost) ⊎ IsClosed job_id (interrupted cut m w).1.db
  interrupted-or_IsClosed whole m w k h = inr (k w h)
  interrupted-or_IsClosed before m w k h = inl refl
  interrupted-or_IsClosed midway m w k h = inr (k w h)
  interrupted-or_IsClosed at_end m w k h = inr (k w h)

  -- Attempts of a closing activity, one of which lands, close the job.
  pub attempts-Closes :
      {A : Type 0} (more n : ℕ) (cuts : ℕ → Cut) (activity : ℕ → M A)
      → ((k : ℕ) → Closes (activity k))
      → ((k : ℕ) → Keeps (Exists job_id) (activity k))
      → ((k : ℕ) → Keeps (IsClosed job_id) (activity k))
      → Lands cuts more n
      → Closes (attempts_of more n (λ k. interrupted (cuts k) (activity k)))
  unfolding attempts_of
  attempts-Closes zero n cuts activity closes exists closed lands w h =
      interrupted-Closes (cuts n) (activity n) (closes n) lands w h
  attempts-Closes (suc more) n cuts activity closes exists closed (inl lands) w h =
      let now = interrupted-Closes (cuts n) (activity n) (closes n) lands w h in
      retried-IsClosed (interrupted (cuts n) (activity n) w) _
        (attempts-Keeps (IsClosed job_id) (IsClosed-IsStable job_id) more (n + 1)
          (λ k. interrupted (cuts k) (activity k))
          (λ k.
            interrupted-Keeps (IsClosed job_id) (IsClosed-IsStable job_id) (cuts k) (activity k)
              (closed k))
          (interrupted (cuts n) (activity n) w).1 now)
        (inr now)
  attempts-Closes (suc more) n cuts activity closes exists closed (inr lands) w h =
      let there =
        interrupted-Keeps (Exists job_id) (Exists-IsStable job_id) (cuts n) (activity n) (exists n)
          w h in
      retried-IsClosed (interrupted (cuts n) (activity n) w) _
        (attempts-Closes more (n + 1) cuts activity closes exists closed lands _ there)
        (interrupted-or_IsClosed (cuts n) (activity n) w (closes n) h)

  fail-Closes :
      (service : Service) (id : Option ℕ) (payload : Payload) (fault : Fault) (now : ℕ) (w : World)
      → id ≡ some job_id
      → Exists job_id w.db
      → IsClosed job_id (failed_for service id payload fault now w).db
  unfolding failed_for
  fail-Closes service none payload fault now w own h = absurd (ground arith)
  fail-Closes service (some other) payload fault now w own h =
      let same : other ≡ job_id = ground (arith, own) in
      rw same (close_job-IsClosed JobStatus.failed _ _ now w (unfold is_live in refl) h)

  module _ (service : Service) (at : Schedule) (payload : Payload)
      (own : payload.execution_id ≡ some job_id) where
    failed-Closes :
        (fault : Fault) → Lands at.close_cut 4 1 → Closes (fail_attempts service at payload fault)
    unfolding fail_attempts
    failed-Closes fault lands =
        attempts-Closes 4 1 at.close_cut (λ n. fail service payload fault (at.closed_at n))
          (λ n w h. unfold fail in fail-Closes service _ payload fault (at.closed_at n) w own h)
          (λ n.
            fail-Keeps (Exists job_id) (Exists-IsStable job_id) service payload fault
              (at.closed_at n))
          (λ n.
            fail-Keeps (IsClosed job_id) (IsClosed-IsStable job_id) service payload fault
              (at.closed_at n))
          lands

    canceled-Closes : Lands at.close_cut 4 1 → Closes (canceled_attempts at (some job_id))
    unfolding canceled_attempts
    canceled-Closes lands =
        attempts-Closes 4 1 at.close_cut (λ n. settle_canceled job_id (at.closed_at n))
          (λ n w h.
            unfold settle_canceled in
            close_job-IsClosed JobStatus.canceled _ _ (at.closed_at n) w (unfold is_live in refl) h)
          (λ n.
            settle_canceled-Keeps (Exists job_id) (Exists-IsStable job_id) job_id (at.closed_at n))
          (λ n.
            settle_canceled-Keeps (IsClosed job_id) (IsClosed-IsStable job_id) job_id
              (at.closed_at n))
          lands

    -- Whatever the error, the workflow closes the job.
    pub close_attempts-Closes :
        (fault : Fault) → Lands at.close_cut 4 1 → Closes (close_attempts service at payload fault)
    unfolding close_attempts
    close_attempts-Closes fault lands w h =
        either-IsClosed (is_canceled fault) _ _ (rw own (canceled-Closes lands w h))
          (failed-Closes fault lands w h)
