-- ===== src/JobRuns/Handed.antt =====
-- How often the outputs of a job are handed over (src/tracer_agent/worker/workflows/jobs_activities.py).
use Prim.Native.String.{String}
use tracer_agent_python.Prelude.{
  ℕ, ◌+◌, ◌≡◌, refl, Bool, List, [], ◌∷◌, ◌++◌, Option, none, some, ◌==◌, if◌then◌else◌, arith,
}
use tracer_agent_python.Jobs.Rows.{JobStatus, Database}
use tracer_agent_python.Jobs.Ledger.{close_canceled_job, cancel}
use tracer_agent_python.Jobs.Closed.{IsClosed}
use tracer_agent_python.JobRuns.World.{
  JobKind, World, Payload, Fault, M, Cut, whole, before, midway, at_end, interrupted,
}
use tracer_agent_python.JobRuns.Outcome.{GeneratedAgentJob}
use tracer_agent_python.JobRuns.Activities.{
  mark_of, prepared_for, prepare, finalize, close_job, fail, settle_canceled, failed_for,
}
use tracer_agent_python.JobRuns.Service.{Service, collect_context, carry_settings}
use tracer_agent_python.JobRuns.Stable.{
  IsStable, Keeps, IsClosed-IsStable, IsCompleted, IsCompleted-IsStable, prepare-Keeps,
  interrupted-Keeps, fail-Keeps, settle_canceled-Keeps,
}

abbrev pub counts_for : ℕ → Option ℕ → ℕ
counts_for job_id none = 0
counts_for job_id (some other) = if other == job_id then 1 else 0

-- How often the job's outputs were handed over.
unfoldable pub times_handed : ℕ → List (Option ℕ) → ℕ
times_handed job_id [] = 0
times_handed job_id (o ∷ outputs) = counts_for job_id o + times_handed job_id outputs

pub times_handed-append :
    (job_id : ℕ) (outputs : List (Option ℕ)) (o : Option ℕ)
    → times_handed job_id (outputs ++ (o ∷ [])) ≡ times_handed job_id outputs + counts_for job_id o
unfolding times_handed
times_handed-append job_id [] o = omega arith
times_handed-append job_id (p ∷ outputs) o = omega (arith, times_handed-append job_id outputs o)

-- An attempt of an activity, or a cancellation by the user.
pub data Activity : Type 0 where
  prepares : JobKind → Payload → ℕ → Cut → Activity
  finalizes : GeneratedAgentJob → ℕ → Cut → Activity
  fails : Payload → Fault → ℕ → Cut → Activity
  settles_canceled : ℕ → ℕ → Cut → Activity
  user_cancels : ℕ → ℕ → Activity

unfoldable pub after_activity : Service → Activity → World → World
unfolding prepare finalize fail settle_canceled cancel
after_activity service (prepares kind payload now cut) w =
    (interrupted cut (prepare service kind payload now) w).1
after_activity service (finalizes generated now cut) w = (finalize service generated now cut w).1
after_activity service (fails payload fault now cut) w =
    (interrupted cut (fail service payload fault now) w).1
after_activity service (settles_canceled job_id now cut) w =
    (interrupted cut (settle_canceled job_id now) w).1
after_activity service (user_cancels job_id now) w = record w { db = (cancel job_id now w.db).1 }

unfoldable pub after_activities : Service → List Activity → World → World
unfolding after_activity
after_activities service [] w = w
after_activities service (a ∷ activities) w =
    after_activities service activities (after_activity service a w)

-- A run of an activity hands nothing over.
abbrev pub HandsNothing : {A : Type 0} → M A → Type 0
HandsNothing m = (w : World) → (m w).1.outputs ≡ w.outputs

interrupted-HandsNothing :
    {A : Type 0} (cut : Cut) (m : M A) → HandsNothing m → HandsNothing (interrupted cut m)
interrupted-HandsNothing whole m h w = h w
interrupted-HandsNothing before m h w = refl
interrupted-HandsNothing midway m h w = h w
interrupted-HandsNothing at_end m h w = h w

marks-HandsNothing :
    (id : Option ℕ) (prepared : Payload) (now : ℕ) → HandsNothing (mark_of id prepared now)
unfolding mark_of
marks-HandsNothing none prepared now w = refl
marks-HandsNothing (some job_id) prepared now w = ground arith

prepared-HandsNothing :
    (service : Service) (kind : JobKind) (user : Option ℕ) (collected : Option Payload) (now : ℕ)
    → HandsNothing (prepared_for service kind user collected now)
unfolding prepared_for
prepared-HandsNothing service kind none collected now w = refl
prepared-HandsNothing service kind (some user_id) none now w = refl
prepared-HandsNothing service kind (some user_id) (some collected) now w =
    marks-HandsNothing _ (carry_settings service.settings kind user_id collected) now w

prepare-HandsNothing :
    (service : Service) (kind : JobKind) (payload : Payload) (now : ℕ)
    → HandsNothing (prepare service kind payload now)
unfolding prepare
prepare-HandsNothing service kind payload now w =
    prepared-HandsNothing service kind payload.user_id (collect_context service kind payload) now w

close_job-outputs :
    (job_id : ℕ) (status : JobStatus) (message : String) (tells : Bool) (now : ℕ) (w : World)
    → (close_job job_id status message tells now w).outputs ≡ w.outputs
unfolding close_job
close_job-outputs job_id status message tells now w = ground arith

fail-HandsNothing :
    (service : Service) (id : Option ℕ) (payload : Payload) (fault : Fault) (now : ℕ) (w : World)
    → (failed_for service id payload fault now w).outputs ≡ w.outputs
unfolding failed_for
fail-HandsNothing service none payload fault now w = refl
fail-HandsNothing service (some job_id) payload fault now w = close_job-outputs job_id _ _ _ now w

module _ (job_id : ℕ) where
  -- The job is closed, and as completed.
  abbrev pub IsDone : Database → Type 0
  IsDone db = IsClosed job_id db × IsCompleted job_id db

  pub IsDone-IsStable : IsStable IsDone
  IsDone-IsStable =
      let closed = IsClosed-IsStable job_id in
      let done = IsCompleted-IsStable job_id in
      record {
        after_update = λ db other change keeps h. (
          closed.after_update db other change keeps h.0,
          done.after_update db other change keeps h.1,
        );
        after_steps =
            λ db steps h. (closed.after_steps db steps h.0, done.after_steps db steps h.1);
      }

  -- Nothing is handed over, and a done job stays done.
  pub record IsQuiet (w later : World) : Type 0 where
    pub same_outputs : later.outputs ≡ w.outputs
    pub keeps_done : IsDone w.db → IsDone later.db

  interrupted-IsQuiet :
      {A : Type 0} (cut : Cut) (m : M A) (w : World)
      → HandsNothing m
      → Keeps IsDone m
      → IsQuiet w (interrupted cut m w).1
  interrupted-IsQuiet cut m w nothing keeps = record {
    same_outputs = interrupted-HandsNothing cut m nothing w;
    keeps_done = interrupted-Keeps IsDone IsDone-IsStable cut m keeps w;
  }

  -- Every activity but a finalization is quiet.
  abbrev pub QuietUnlessFinal : Service → Activity → World → Type 0
  QuietUnlessFinal service (finalizes generated now cut) w = Unit
  QuietUnlessFinal service a w = IsQuiet w (after_activity service a w)

  pub activity-IsQuiet :
      (service : Service) (a : Activity) (w : World) → QuietUnlessFinal service a w
  unfolding after_activity
  activity-IsQuiet service (prepares kind payload now cut) w =
      interrupted-IsQuiet cut (prepare service kind payload now) w
        (prepare-HandsNothing service kind payload now)
        (prepare-Keeps IsDone IsDone-IsStable service kind payload now)
  activity-IsQuiet service (finalizes generated now cut) w = tt
  activity-IsQuiet service (fails payload fault now cut) w =
      interrupted-IsQuiet cut (fail service payload fault now) w
        (λ v. unfold fail in fail-HandsNothing service payload.execution_id payload fault now v)
        (fail-Keeps IsDone IsDone-IsStable service payload fault now)
  activity-IsQuiet service (settles_canceled other now cut) w =
      interrupted-IsQuiet cut (settle_canceled other now) w
        (λ v. unfold settle_canceled in close_job-outputs other _ _ _ now v)
        (settle_canceled-Keeps IsDone IsDone-IsStable other now)
  activity-IsQuiet service (user_cancels other now) w = record {
    same_outputs = refl;
    keeps_done = λ k.
        unfold cancel in
        IsDone-IsStable.after_update w.db other (close_canceled_job now)
          (λ r. unfold close_canceled_job in refl) k;
  }
