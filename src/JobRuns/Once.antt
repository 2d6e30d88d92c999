-- ===== src/JobRuns/Once.antt =====
-- The outputs of a job are handed over at most once, and an attempt that is lost before them loses them
-- (src/tracer_agent/worker/workflows/jobs_activities.py).
use Prim.Native.String.{String}
use mathlib.Core.Path.{subst}
use tracer_agent_python.Prelude.{
  ℕ, ◌+◌, ◌≡◌, ◌<◌, refl, sym, ap, ◌∙◌, ◌⊎◌, inl, inr, Bool, true, false, List, [], ◌∷◌, Option,
  none, some, ◌&&◌, ◌==◌, Bool-cases, if◌then◌else◌, arith,
}
use tracer_agent_python.Jobs.Rows.{JobStatus, is_live, Job, Database, update_where, count_where}
use tracer_agent_python.Jobs.Ledger.{has_id, is_live_job, close, settle_job, record_steps}
use tracer_agent_python.Jobs.Closed.{IsClosed, update_live-IsClosed, none-counted}
use tracer_agent_python.JobRuns.World.{World, Cut, whole, before, midway, at_end}
use tracer_agent_python.JobRuns.Outcome.{JobOutcome, GeneratedAgentJob}
use tracer_agent_python.JobRuns.Activities.{
  finalize_job, hand_over, settled_for, settle_ledger, finalize, is_completed,
}
use tracer_agent_python.JobRuns.Service.{Service}
use tracer_agent_python.JobRuns.Stable.{completed_in, ledger-Keeps}
use tracer_agent_python.JobRuns.Handed.{
  counts_for, times_handed, times_handed-append, Activity, prepares, finalizes, fails,
  settles_canceled, user_cancels, after_activity, after_activities, IsDone, IsDone-IsStable,
  IsQuiet, activity-IsQuiet,
}

module _ (job_id : ℕ) where
  completed-not_live : (status : JobStatus) → is_completed status ≡ true → is_live status ≡ false
  unfolding is_live
  completed-not_live status h = ground arith

  counted-completed :
      (change : Job → Job) (jobs : List Job)
      → ((r : Job) → (change r).id ≡ r.id)
      → ((r : Job) → is_completed (change r).status ≡ true)
      → 0 < count_where (is_live_job job_id) jobs
      → completed_in job_id (update_where (is_live_job job_id) change jobs) ≡ true
  unfolding count_where update_where is_live_job has_id
  counted-completed change [] keeps completes h = absurd (omega arith)
  counted-completed change (r ∷ jobs) keeps completes h =
      ground (arith, counted-completed change jobs keeps completes, keeps r, completes r)

  -- An accepted settlement as completed closes the job so.
  accepted-IsDone :
      (status : JobStatus) (result usage : String) (error : Option String) (now : ℕ) (db : Database)
      → is_completed status ≡ true
      → (settle_job job_id status result usage error now db).0 ≡ true
      → IsDone job_id (settle_job job_id status result usage error now db).1
  unfolding settle_job
  accepted-IsDone status result usage error now db done accepted =
      let change = close status result usage error now in
      (
        update_live-IsClosed job_id change db (λ r. unfold close in refl)
            (λ r. unfold close in completed-not_live status done) accepted,
        counted-completed change db.jobs (λ r. unfold close in refl) (λ r. unfold close in done)
            (ground (arith, accepted)),
      )

  pub closed-refuses :
      (service : Service) (o : JobOutcome) (now : ℕ) (w : World)
      → IsClosed job_id w.db
      → (settled_for service o (some job_id) now w).0 ≡ false
  unfolding settled_for finalize_job settle_job record_steps
  closed-refuses service o now w h = rw (none-counted job_id w.db.jobs h.not_live) refl

  pub settled-outputs :
      (service : Service) (o : JobOutcome) (id : Option ℕ) (now : ℕ) (w : World)
      → (settled_for service o id now w).1.outputs ≡ w.outputs
  unfolding settled_for finalize_job
  settled-outputs service o none now w = refl
  settled-outputs service o (some other) now w = ground arith

  -- Never yet, or once and the job is closed as completed.
  abbrev pub IsOnce : World → Type 0
  IsOnce w =
      (times_handed job_id w.outputs ≡ 0)
      ⊎ ((times_handed job_id w.outputs ≡ 1) × IsDone job_id w.db)

  same-IsOnce :
      (w later : World)
      → times_handed job_id later.outputs ≡ times_handed job_id w.outputs
      → (IsDone job_id w.db → IsDone job_id later.db)
      → IsOnce w
      → IsOnce later
  same-IsOnce w later e k (inl h) = inl (e ∙ h)
  same-IsOnce w later e k (inr h) = inr (e ∙ h.0, k h.1)

  both : (a b : Bool) → a && b ≡ true → (a ≡ true) × (b ≡ true)
  both a b h = ground arith

  told-db :
      (settled : Bool) (told later : World)
      → told.db ≡ later.db
      → (if settled then told else later).db ≡ later.db
  told-db settled told later h = ground arith

  pub settled-db :
      (service : Service) (o : JobOutcome) (other now : ℕ) (w : World)
      → (settled_for service o (some other) now w).1.db ≡ (finalize_job service o other now w).1.db
  unfolding settled_for
  settled-db service o other now w = told-db _ _ (finalize_job service o other now w).1 refl

  pub settled-IsDone :
      (service : Service) (o : JobOutcome) (now : ℕ) (w : World)
      → (settled_for service o (some job_id) now w).0 ≡ true
      → is_completed o.status ≡ true
      → IsDone job_id (settled_for service o (some job_id) now w).1.db
  settled-IsDone service o now w accepted done =
      rw (settled-db service o job_id now w) (
        unfold settled_for finalize_job in accepted-IsDone o.status _ _ o.error now _ done accepted)

  -- The outputs after a settlement of a job, wherever the attempt is lost.
  pub handed-times :
      (settled : Bool) (o : JobOutcome) (w : World)
      → times_handed job_id (hand_over settled o w).outputs
        ≡ times_handed job_id w.outputs
          + (if settled && is_completed o.status then counts_for job_id o.job_id else 0)
  unfolding hand_over
  handed-times settled o w = elim (Bool-cases (settled && is_completed o.status)) [
    | inl h ↦ rw h (times_handed-append job_id w.outputs o.job_id)
    | inr h ↦ rw h (omega arith)
  ]

  pub handed-db : (settled : Bool) (o : JobOutcome) (w : World) → (hand_over settled o w).db ≡ w.db
  unfolding hand_over
  handed-db settled o w = ground arith

  abbrev pub gain : Bool → JobOutcome → ℕ
  gain settled o = if settled && is_completed o.status then counts_for job_id o.job_id else 0

  unchanged-IsOnce :
      (settled : Bool) (o : JobOutcome) (w : World)
      → gain settled o ≡ 0
      → IsOnce w
      → IsOnce (hand_over settled o w)
  unchanged-IsOnce settled o w none_gained h =
      same-IsOnce w (hand_over settled o w) (omega (arith, handed-times settled o w, none_gained))
        (λ k. rw (handed-db settled o w) k) h

  gained-IsOnce :
      (settled : Bool) (o : JobOutcome) (w : World)
      → gain settled o ≡ 1
      → times_handed job_id w.outputs ≡ 0
      → IsDone job_id w.db
      → IsOnce (hand_over settled o w)
  gained-IsOnce settled o w gained none_before done = inr (
    omega (arith, handed-times settled o w, gained, none_before),
    rw (handed-db settled o w) done,
  )

  settle-IsOnce :
      (service : Service) (o : JobOutcome) (id : Option ℕ) (now : ℕ) (w : World)
      → o.job_id ≡ id
      → IsOnce w
      → IsOnce (settled_for service o id now w).1
  settle-IsOnce service o id now w e h =
      same-IsOnce w (settled_for service o id now w).1
        (ap (times_handed job_id) (settled-outputs service o id now w))
        (λ k. ledger-Keeps (IsDone job_id) (IsDone-IsStable job_id) service o id now w k) h

  pub no_gain :
      (settled : Bool) (o : JobOutcome) → counts_for job_id o.job_id ≡ 0 → gain settled o ≡ 0
  no_gain settled o h = ground (arith, h)

  not_done :
      (settled : Bool) (o : JobOutcome)
      → settled && is_completed o.status ≡ false
      → gain settled o ≡ 0
  not_done settled o h = rw h refl

  own-IsOnce :
      (service : Service) (o : JobOutcome) (now : ℕ) (w : World)
      → counts_for job_id o.job_id ≡ 1
      → (settled_for service o (some job_id) now w).0 && is_completed o.status ≡ true
      → IsOnce w
      → IsOnce (
          hand_over
            (settled_for service o (some job_id) now w).0
            o
            (settled_for service o (some job_id) now w).1)
  own-IsOnce service o now w own h (inl none_before) =
      let parts = both (settled_for service o (some job_id) now w).0 (is_completed o.status) h in
      gained-IsOnce _ o _ (rw h own)
        (ap (times_handed job_id) (settled-outputs service o (some job_id) now w) ∙ none_before)
        (settled-IsDone service o now w parts.0 parts.1)
  own-IsOnce service o now w own h (inr (once, done)) =
      let refused = closed-refuses service o now w done.0 in
      let accepted =
        (both (settled_for service o (some job_id) now w).0 (is_completed o.status) h).0 in
      absurd cc

  handed-IsOnce :
      (service : Service) (o : JobOutcome) (id : Option ℕ) (now : ℕ) (w : World)
      → o.job_id ≡ id
      → IsOnce w
      → IsOnce (hand_over (settled_for service o id now w).0 o (settled_for service o id now w).1)
  handed-IsOnce service o none now w e h =
      unchanged-IsOnce _ o _ (no_gain _ o (ap (counts_for job_id) e))
        (settle-IsOnce service o none now w e h)
  handed-IsOnce service o (some other) now w e h = elim (Bool-cases (other == job_id)) [
    | inr differs ↦
        unchanged-IsOnce _ o _ (no_gain _ o (ap (counts_for job_id) e ∙ rw differs refl))
          (settle-IsOnce service o (some other) now w e h)
    | inl same ↦
        elim (Bool-cases ((settled_for service o (some other) now w).0 && is_completed o.status)) [
          | inr undone ↦
              unchanged-IsOnce _ o _ (not_done _ o undone)
                (settle-IsOnce service o (some other) now w e h)
          | inl done ↦
              let is_job : other ≡ job_id = ground (arith, same) in
              subst
                (λ (id : ℕ). IsOnce (
                  hand_over (settled_for service o (some id) now w).0 o
                    (settled_for service o (some id) now w).1))
                (sym is_job)
                (own-IsOnce service o now w (ap (counts_for job_id) e ∙ rw same refl)
                  (rw is_job at done) h)
        ]
  ]

  finalize-IsOnce :
      (service : Service) (generated : GeneratedAgentJob) (now : ℕ) (cut : Cut) (w : World)
      → IsOnce w
      → IsOnce (finalize service generated now cut w).1
  unfolding finalize settle_ledger
  finalize-IsOnce service generated now whole w h =
      handed-IsOnce service generated.outcome _ now w refl h
  finalize-IsOnce service generated now before w h = h
  finalize-IsOnce service generated now midway w h =
      settle-IsOnce service generated.outcome _ now w refl h
  finalize-IsOnce service generated now at_end w h =
      handed-IsOnce service generated.outcome _ now w refl h

  quiet-IsOnce : (w later : World) → IsQuiet job_id w later → IsOnce w → IsOnce later
  quiet-IsOnce w later q h =
      same-IsOnce w later (ap (times_handed job_id) q.same_outputs) q.keeps_done h

  activity-IsOnce :
      (service : Service) (a : Activity) (w : World)
      → IsOnce w
      → IsOnce (after_activity service a w)
  activity-IsOnce service (prepares kind payload now cut) w h =
      quiet-IsOnce w _ (activity-IsQuiet job_id service (prepares kind payload now cut) w) h
  activity-IsOnce service (finalizes generated now cut) w h =
      unfold after_activity in finalize-IsOnce service generated now cut w h
  activity-IsOnce service (fails payload fault now cut) w h =
      quiet-IsOnce w _ (activity-IsQuiet job_id service (fails payload fault now cut) w) h
  activity-IsOnce service (settles_canceled other now cut) w h =
      quiet-IsOnce w _ (activity-IsQuiet job_id service (settles_canceled other now cut) w) h
  activity-IsOnce service (user_cancels other now) w h =
      quiet-IsOnce w _ (activity-IsQuiet job_id service (user_cancels other now) w) h

  activities-IsOnce :
      (service : Service) (activities : List Activity) (w : World)
      → IsOnce w
      → IsOnce (after_activities service activities w)
  unfolding after_activities
  activities-IsOnce service [] w h = h
  activities-IsOnce service (a ∷ activities) w h =
      activities-IsOnce service activities (after_activity service a w)
        (activity-IsOnce service a w h)

-- However often the activities of jobs are attempted, in whatever order and wherever an attempt is lost, the outputs
-- of a job that were not handed over before are handed over at most once, and then the job is closed
-- as completed.
pub after_activities-IsOnce :
    (job_id : ℕ) (service : Service) (activities : List Activity) (w : World)
    → times_handed job_id w.outputs ≡ 0
    → IsOnce job_id (after_activities service activities w)
after_activities-IsOnce job_id service activities w h =
    activities-IsOnce job_id service activities w (inl h)
