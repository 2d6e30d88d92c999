-- ===== src/JobRuns/Stable.antt =====
-- What no activity of src/tracer_agent/worker/workflows/jobs_activities.py undoes in the ledger.
use Prim.Native.String.{String}
use tracer_agent_python.Prelude.{
  ℕ, zero, suc, ◌+◌, ◌≡◌, refl, ◌∙◌, Bool, true, false, List, [], ◌∷◌, Option, none, some, any,
  ◌&&◌, if◌then◌else◌, arith,
}
use tracer_agent_python.Jobs.Rows.{JobStatus, is_live, Job, StepRow, Database, update_where}
use tracer_agent_python.Jobs.Ledger.{
  has_id, is_live_job, start, close, mark_running, settle_job, record_steps,
}
use tracer_agent_python.Jobs.Closed.{exists_in, exists-update, IsClosed, IsKept-update}
use tracer_agent_python.JobRuns.World.{
  JobKind, World, Payload, Fault, Ended, returned, raised, M, Cut, whole, before, midway, at_end,
  interrupted, is_retryable, attempts_of,
}
use tracer_agent_python.JobRuns.Outcome.{JobOutcome, GeneratedAgentJob}
use tracer_agent_python.JobRuns.Activities.{
  prepare, mark_of, prepared_for, settled_for, finalize_job, hand_over, settle_ledger, finalize,
  close_job, failed_for, fail, settle_canceled, is_completed,
}
use tracer_agent_python.JobRuns.Service.{Service, collect_context, carry_settings}

-- It holds after updates of live rows and for any steps.
pub record IsStable (P : Database → Type 0) : Type 1 where
  pub after_update :
      (db : Database) (other : ℕ) (change : Job → Job)
      → ((r : Job) → (change r).id ≡ r.id)
      → P db
      → P (record db { jobs = update_where (is_live_job other) change db.jobs })
  pub after_steps : (db : Database) (steps : List StepRow) → P db → P (record db { steps = steps })

abbrev pub Exists : ℕ → Database → Type 0
Exists job_id db = exists_in job_id db.jobs ≡ true

pub Exists-IsStable : (job_id : ℕ) → IsStable (Exists job_id)
Exists-IsStable job_id = record {
  after_update = λ db other change keeps h. exists-update job_id other change keeps db.jobs ∙ h;
  after_steps = λ db steps h. h;
}

pub IsClosed-IsStable : (job_id : ℕ) → IsStable (IsClosed job_id)
IsClosed-IsStable job_id = record {
  after_update = λ db other change keeps h. (IsKept-update job_id db other change keeps h).0;
  after_steps = λ db steps h. record { is_there = h.is_there; not_live = h.not_live };
}

abbrev pub completed_in : ℕ → List Job → Bool
completed_in job_id jobs = any (λ r. has_id job_id r && is_completed r.status) jobs

abbrev pub IsCompleted : ℕ → Database → Type 0
IsCompleted job_id db = completed_in job_id db.jobs ≡ true

completed-live : (status : JobStatus) → is_live status ≡ true → is_completed status ≡ false
unfolding is_live
completed-live status h = ground arith

completed-update :
    (job_id other : ℕ) (change : Job → Job) (jobs : List Job)
    → completed_in job_id jobs ≡ true
    → completed_in job_id (update_where (is_live_job other) change jobs) ≡ true
unfolding update_where is_live_job
completed-update job_id other change [] h = absurd (ground arith)
completed-update job_id other change (r ∷ jobs) h =
    ground (arith, completed-update job_id other change jobs, completed-live r.status)

pub IsCompleted-IsStable : (job_id : ℕ) → IsStable (IsCompleted job_id)
IsCompleted-IsStable job_id = record {
  after_update = λ db other change keeps h. completed-update job_id other change db.jobs h;
  after_steps = λ db steps h. h;
}

-- A run of an activity keeps what holds of the ledger.
abbrev pub Keeps : {A : Type 0} → (Database → Type 0) → M A → Type 0
Keeps P m = (w : World) → P w.db → P (m w).1.db

module _ (P : Database → Type 0) (stable : IsStable P) where
  settle_job-Keeps :
      (job_id : ℕ) (status : JobStatus) (result usage : String) (error : Option String) (now : ℕ)
      (db : Database)
      → P db
      → P (settle_job job_id status result usage error now db).1
  unfolding settle_job
  settle_job-Keeps job_id status result usage error now db h =
      stable.after_update db job_id (close status result usage error now)
        (λ r. unfold close in refl) h

  either-Keeps :
      {A : Type 0} (b : Bool) (x y : A × World) → P x.1.db → P y.1.db → P (if b then x else y).1.db
  either-Keeps true x y h k = h
  either-Keeps false x y h k = k

  one-Keeps : (b : Bool) (x y : World) → P x.db → P y.db → P (if b then x else y).db
  one-Keeps true x y h k = h
  one-Keeps false x y h k = k

  marked-Keeps :
      (prepared : Payload) (execution_id : Option ℕ) (now : ℕ)
      → Keeps P (λ w. mark_of execution_id prepared now w)
  unfolding mark_running mark_of
  marked-Keeps prepared none now w h = h
  marked-Keeps prepared (some job_id) now w h =
      let later = stable.after_update w.db job_id (start now) (λ r. unfold start in refl) h in
      either-Keeps _ _ _ later later

  collected-Keeps :
      (service : Service) (kind : JobKind) (user : Option ℕ) (collected : Option Payload) (now : ℕ)
      → Keeps P (λ w. prepared_for service kind user collected now w)
  unfolding prepared_for
  collected-Keeps service kind none collected now w h = h
  collected-Keeps service kind (some user_id) none now w h = h
  collected-Keeps service kind (some user_id) (some collected) now w h =
      marked-Keeps (carry_settings service.settings kind user_id collected) _ now w h

  pub prepare-Keeps :
      (service : Service) (kind : JobKind) (payload : Payload) (now : ℕ)
      → Keeps P (prepare service kind payload now)
  unfolding prepare
  prepare-Keeps service kind payload now w h =
      collected-Keeps service kind payload.user_id (collect_context service kind payload) now w h

  finalize_job-Keeps :
      (service : Service) (o : JobOutcome) (job_id now : ℕ) (w : World)
      → P w.db
      → P (finalize_job service o job_id now w).1.db
  unfolding finalize_job record_steps
  finalize_job-Keeps service o job_id now w h =
      settle_job-Keeps job_id _ _ _ _ now _ (stable.after_steps w.db _ h)

  pub hand_over-Keeps :
      (settled : Bool) (o : JobOutcome) (w : World) → P w.db → P (hand_over settled o w).db
  unfolding hand_over
  hand_over-Keeps settled o w h = one-Keeps _ _ _ h h

  pub ledger-Keeps :
      (service : Service) (o : JobOutcome) (job_id : Option ℕ) (now : ℕ) (w : World)
      → P w.db
      → P (settled_for service o job_id now w).1.db
  unfolding settled_for
  ledger-Keeps service o none now w h = h
  ledger-Keeps service o (some job_id) now w h =
      let later = finalize_job-Keeps service o job_id now w h in one-Keeps _ _ _ later later

  pub settle_ledger-Keeps :
      (service : Service) (o : JobOutcome) (now : ℕ) (w : World)
      → P w.db
      → P (settle_ledger service o now w).1.db
  unfolding settle_ledger
  settle_ledger-Keeps service o now w h = ledger-Keeps service o o.job_id now w h

  pub finalize-Keeps :
      (service : Service) (generated : GeneratedAgentJob) (now : ℕ) (cut : Cut)
      → Keeps P (finalize service generated now cut)
  unfolding finalize
  finalize-Keeps service generated now whole w h =
      hand_over-Keeps _ generated.outcome _ (settle_ledger-Keeps service generated.outcome now w h)
  finalize-Keeps service generated now before w h = h
  finalize-Keeps service generated now midway w h =
      settle_ledger-Keeps service generated.outcome now w h
  finalize-Keeps service generated now at_end w h =
      hand_over-Keeps _ generated.outcome _ (settle_ledger-Keeps service generated.outcome now w h)

  pub close_job-Keeps :
      (job_id : ℕ) (status : JobStatus) (message : String) (tells : Bool) (now : ℕ) (w : World)
      → P w.db
      → P (close_job job_id status message tells now w).db
  unfolding close_job
  close_job-Keeps job_id status message tells now w h =
      let later = settle_job-Keeps job_id status _ _ _ now w.db h in one-Keeps _ _ _ later later

  failed-Keeps :
      (service : Service) (id : Option ℕ) (payload : Payload) (fault : Fault) (now : ℕ) (w : World)
      → P w.db
      → P (failed_for service id payload fault now w).db
  unfolding failed_for
  failed-Keeps service none payload fault now w h = h
  failed-Keeps service (some job_id) payload fault now w h = close_job-Keeps job_id _ _ _ now w h

  pub fail-Keeps :
      (service : Service) (payload : Payload) (fault : Fault) (now : ℕ)
      → Keeps P (fail service payload fault now)
  unfolding fail
  fail-Keeps service payload fault now w h =
      failed-Keeps service payload.execution_id payload fault now w h

  pub settle_canceled-Keeps : (job_id now : ℕ) → Keeps P (settle_canceled job_id now)
  unfolding settle_canceled
  settle_canceled-Keeps job_id now w h = close_job-Keeps job_id _ _ _ now w h

  pub interrupted-Keeps :
      {A : Type 0} (cut : Cut) (m : M A) → Keeps P m → Keeps P (interrupted cut m)
  interrupted-Keeps whole m k w h = k w h
  interrupted-Keeps before m k w h = h
  interrupted-Keeps midway m k w h = k w h
  interrupted-Keeps at_end m k w h = k w h

  retried-Keeps :
      {A : Type 0} (tried again : Ended A × World)
      → P tried.1.db
      → P again.1.db
      → P
          (elim tried.0 as (λ x. Ended A × World) [
            | returned a ↦ (returned a, tried.1)
            | raised f ↦ if is_retryable f then again else (raised f, tried.1)
          ]).1.db
  retried-Keeps (returned a, w) again h k = h
  retried-Keeps (raised f, w) again h k = either-Keeps _ _ _ k h

  pub attempts-Keeps :
      {A : Type 0} (more attempt : ℕ) (activity : ℕ → M A)
      → ((n : ℕ) → Keeps P (activity n))
      → Keeps P (attempts_of more attempt activity)
  unfolding attempts_of
  attempts-Keeps zero attempt activity k w h = k attempt w h
  attempts-Keeps (suc more) attempt activity k w h =
      let now = k attempt w h in
      retried-Keeps (activity attempt w) _ now
        (attempts-Keeps more (attempt + 1) activity k (activity attempt w).1 now)
