-- ===== src/JobRuns/Lost.antt =====
-- A finalization (src/tracer_agent/worker/workflows/jobs_activities.py) that is lost between its settlement and its
-- outputs.
use mathlib.Core.Path.{subst⁻¹}
use tracer_agent_python.Prelude.{
  ℕ, ◌≡◌, refl, ap, ◌∙◌, inl, inr, true, List, [], ◌∷◌, Option, none, some, ◌==◌, Bool-cases, arith,
}
use tracer_agent_python.Jobs.Closed.{IsClosed}
use tracer_agent_python.JobRuns.World.{World, Cut, whole, before, midway, at_end}
use tracer_agent_python.JobRuns.Outcome.{JobOutcome, GeneratedAgentJob}
use tracer_agent_python.JobRuns.Activities.{
  hand_over, settled_for, settle_ledger, finalize, is_completed,
}
use tracer_agent_python.JobRuns.Service.{Service}
use tracer_agent_python.JobRuns.Stable.{IsCompleted, finalize-Keeps}
use tracer_agent_python.JobRuns.Handed.{
  counts_for, times_handed, Activity, prepares, finalizes, fails, settles_canceled, user_cancels,
  after_activity, after_activities, IsDone, IsDone-IsStable, IsQuiet, activity-IsQuiet,
}
use tracer_agent_python.JobRuns.Once.{
  gain, no_gain, handed-times, settled-outputs, closed-refuses, settled-IsDone,
}

module _ (job_id : ℕ) where
  abbrev IsStuck : World → World → Type 0
  IsStuck w later =
      IsDone job_id later.db × (times_handed job_id later.outputs ≡ times_handed job_id w.outputs)

  -- A done job is never handed over again.
  done-unchanged :
      (service : Service) (o : JobOutcome) (id : Option ℕ) (now : ℕ) (w : World)
      → o.job_id ≡ id
      → IsDone job_id w.db
      → gain job_id (settled_for service o id now w).0 o ≡ 0
  done-unchanged service o none now w e h = no_gain job_id _ o (ap (counts_for job_id) e)
  done-unchanged service o (some other) now w e h = elim (Bool-cases (other == job_id)) [
    | inr differs ↦ no_gain job_id _ o (ap (counts_for job_id) e ∙ rw differs refl)
    | inl same ↦
        let is_job : other ≡ job_id = ground (arith, same) in
        rw (is_job, closed-refuses job_id service o now w h.0) refl
  ]

  done-times :
      (service : Service) (o : JobOutcome) (id : Option ℕ) (now : ℕ) (w : World)
      → o.job_id ≡ id
      → IsDone job_id w.db
      → times_handed job_id
          (hand_over
            (settled_for service o id now w).0
            o
            (settled_for service o id now w).1).outputs
        ≡ times_handed job_id w.outputs
  done-times service o id now w e h = omega (
    arith,
    handed-times job_id (settled_for service o id now w).0 o (settled_for service o id now w).1,
    done-unchanged service o id now w e h,
    ap (times_handed job_id) (settled-outputs job_id service o id now w),
  )

  finalize-times :
      (service : Service) (generated : GeneratedAgentJob) (now : ℕ) (cut : Cut) (w : World)
      → IsDone job_id w.db
      → times_handed job_id (finalize service generated now cut w).1.outputs
        ≡ times_handed job_id w.outputs
  unfolding finalize settle_ledger
  finalize-times service generated now whole w h =
      done-times service generated.outcome _ now w refl h
  finalize-times service generated now before w h = refl
  finalize-times service generated now midway w h =
      ap (times_handed job_id) (settled-outputs job_id service generated.outcome _ now w)
  finalize-times service generated now at_end w h =
      done-times service generated.outcome _ now w refl h

  quiet-IsStuck : (w later : World) → IsQuiet job_id w later → IsDone job_id w.db → IsStuck w later
  quiet-IsStuck w later q h = (q.keeps_done h, ap (times_handed job_id) q.same_outputs)

  activity-IsStuck :
      (service : Service) (a : Activity) (w : World)
      → IsDone job_id w.db
      → IsStuck w (after_activity service a w)
  activity-IsStuck service (prepares kind payload now cut) w h =
      quiet-IsStuck w _ (activity-IsQuiet job_id service (prepares kind payload now cut) w) h
  activity-IsStuck service (finalizes generated now cut) w h =
      unfold after_activity in
      (
        finalize-Keeps (IsDone job_id) (IsDone-IsStable job_id) service generated now cut w h,
        finalize-times service generated now cut w h,
      )
  activity-IsStuck service (fails payload fault now cut) w h =
      quiet-IsStuck w _ (activity-IsQuiet job_id service (fails payload fault now cut) w) h
  activity-IsStuck service (settles_canceled other now cut) w h =
      quiet-IsStuck w _ (activity-IsQuiet job_id service (settles_canceled other now cut) w) h
  activity-IsStuck service (user_cancels other now) w h =
      quiet-IsStuck w _ (activity-IsQuiet job_id service (user_cancels other now) w) h

  activities-IsStuck :
      (service : Service) (activities : List Activity) (w : World)
      → IsDone job_id w.db
      → IsStuck w (after_activities service activities w)
  unfolding after_activities
  activities-IsStuck service [] w h = (h, refl)
  activities-IsStuck service (a ∷ activities) w h =
      let now = activity-IsStuck service a w h in
      let later = activities-IsStuck service activities (after_activity service a w) now.0 in
      (later.0, later.1 ∙ now.1)

  midway-IsDone :
      (service : Service) (generated : GeneratedAgentJob) (id : Option ℕ) (now : ℕ) (w : World)
      → id ≡ some job_id
      → is_completed generated.outcome.status ≡ true
      → (settled_for service generated.outcome id now w).0 ≡ true
      → IsDone job_id (settled_for service generated.outcome id now w).1.db
  midway-IsDone service generated id now w own done accepted =
      subst⁻¹
        (λ (x : Option ℕ).
          (settled_for service generated.outcome x now w).0 ≡ true
          → IsDone job_id (settled_for service generated.outcome x now w).1.db)
        own (λ h. settled-IsDone job_id service generated.outcome now w h done) accepted

-- If a finalization is lost after its settlement as completed was accepted and before it hands over the outputs,
-- then whatever activities follow, further attempts of it included, the job stays closed as completed,
-- and its outputs are not handed over any more.
pub lost_outputs :
    (job_id : ℕ) (service : Service) (generated : GeneratedAgentJob) (now : ℕ) (w : World)
    (activities : List Activity)
    → generated.outcome.job_id ≡ some job_id
    → is_completed generated.outcome.status ≡ true
    → (settle_ledger service generated.outcome now w).0 ≡ true
    → let later = after_activities service (finalizes generated now midway ∷ activities) w in
      (IsClosed job_id later.db × IsCompleted job_id later.db)
      × (times_handed job_id later.outputs ≡ times_handed job_id w.outputs)
unfolding settle_ledger
lost_outputs job_id service generated now w activities own done accepted =
    unfold after_activities after_activity finalize settle_ledger in
    let here =
      midway-IsDone job_id service generated generated.outcome.job_id now w own done accepted in
    let later =
      activities-IsStuck job_id service activities
        (settled_for service generated.outcome generated.outcome.job_id now w).1 here in
    (
      later.0,
      later.1
          ∙ ap (times_handed job_id)
              (settled-outputs job_id service generated.outcome generated.outcome.job_id now w),
    )
