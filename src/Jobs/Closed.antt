-- ===== src/Jobs/Closed.antt =====
-- A job that was closed stays as it is (src/tracer_agent/shared/workflows/jobs_ledger.py).
use Prim.Native.String.{String}
use tracer_agent_python.Prelude.{
  ℕ, ◌≡◌, ◌<◌, refl, ◌∙◌, inl, inr, Bool, true, false, Option, List, [], ◌∷◌, ◌++◌, any, ◌==◌,
  Bool-cases, arith,
}
use tracer_agent_python.Jobs.Rows.{
  JobStatus, is_live, Job, Database, update_where, count_where, first_where,
}
use tracer_agent_python.Jobs.Ledger.{
  has_id, is_live_job, start, close, close_canceled_job, Claim, breaks_idempotency, new_job, claim,
  find, mark_running, settle_job, cancel, record_steps, Write, claims, marks_running, settles,
  cancels, records_steps, after, after_all,
}

module _ (job_id : ℕ) where
  abbrev pub exists_in : List Job → Bool
  exists_in jobs = any (has_id job_id) jobs

  abbrev pub live_in : List Job → Bool
  live_in jobs = any (is_live_job job_id) jobs

  module _ (other : ℕ) (change : Job → Job) (keeps : (r : Job) → (change r).id ≡ r.id) where
    pub exists-update :
        (jobs : List Job)
        → exists_in (update_where (is_live_job other) change jobs) ≡ exists_in jobs
    unfolding update_where has_id
    exists-update [] = refl
    exists-update (r ∷ jobs) = elim (Bool-cases (is_live_job other r)) [
      | inl h ↦ rw (h, keeps r, exists-update jobs) refl
      | inr h ↦ rw (h, exists-update jobs) refl
    ]

    live-update :
        (jobs : List Job)
        → live_in jobs ≡ false
        → live_in (update_where (is_live_job other) change jobs) ≡ false
    unfolding update_where is_live_job has_id
    live-update [] h = refl
    live-update (r ∷ jobs) h = ground (arith, live-update jobs, keeps r)

    find-update :
        (jobs : List Job)
        → live_in jobs ≡ false
        → first_where (has_id job_id) (update_where (is_live_job other) change jobs)
          ≡ first_where (has_id job_id) jobs
    unfolding update_where first_where is_live_job has_id
    find-update [] h = refl
    find-update (r ∷ jobs) h = ground (arith, find-update jobs, keeps r)

  pub closed-update :
      (change : Job → Job) (jobs : List Job)
      → ((r : Job) → is_live (change r).status ≡ false)
      → live_in (update_where (is_live_job job_id) change jobs) ≡ false
  unfolding update_where is_live_job has_id
  closed-update change [] closes = refl
  closed-update change (r ∷ jobs) closes =
      ground (arith, closed-update change jobs closes, closes r)

  counted-exists :
      (jobs : List Job) → 0 < count_where (is_live_job job_id) jobs → exists_in jobs ≡ true
  unfolding count_where is_live_job
  counted-exists [] h = absurd (omega arith)
  counted-exists (r ∷ jobs) h = ground (arith, counted-exists jobs)

  pub none-counted :
      (jobs : List Job) → live_in jobs ≡ false → count_where (is_live_job job_id) jobs ≡ 0
  unfolding count_where
  none-counted [] h = refl
  none-counted (r ∷ jobs) h = ground (arith, none-counted jobs)

  exists-append :
      (jobs : List Job) (r : Job) → exists_in jobs ≡ true → exists_in (jobs ++ (r ∷ [])) ≡ true
  exists-append [] r h = absurd (ground arith)
  exists-append (s ∷ jobs) r h = ground (arith, exists-append jobs r)

  live-append :
      (jobs : List Job) (r : Job)
      → live_in jobs ≡ false
      → is_live_job job_id r ≡ false
      → live_in (jobs ++ (r ∷ [])) ≡ false
  live-append [] r h k = ground arith
  live-append (s ∷ jobs) r h k = ground (arith, live-append jobs r)

  find-append :
      (jobs : List Job) (r : Job)
      → exists_in jobs ≡ true
      → first_where (has_id job_id) (jobs ++ (r ∷ [])) ≡ first_where (has_id job_id) jobs
  unfolding first_where
  find-append [] r h = absurd (ground arith)
  find-append (s ∷ jobs) r h = ground (arith, find-append jobs r)

  -- The job is there, and it is not live.
  pub record IsClosed (db : Database) : Type 0 where
    pub is_there : exists_in db.jobs ≡ true
    pub not_live : live_in db.jobs ≡ false

  abbrev pub IsKept : Database → Database → Type 0
  IsKept db later = IsClosed later × (find job_id later ≡ find job_id db)

  pub IsKept-update :
      (db : Database) (other : ℕ) (change : Job → Job)
      → ((r : Job) → (change r).id ≡ r.id)
      → IsClosed db
      → IsKept db (record db { jobs = update_where (is_live_job other) change db.jobs })
  unfolding find
  IsKept-update db other change keeps h = (
    record {
      is_there = exists-update other change keeps db.jobs ∙ h.is_there;
      not_live = live-update other change keeps db.jobs h.not_live;
    },
    find-update other change keeps db.jobs h.not_live,
  )

  other_job :
      (c : Claim) (jobs : List Job)
      → exists_in jobs ≡ true
      → any (has_id c.job_id) jobs ≡ false
      → (c.job_id == job_id) ≡ false
  unfolding has_id
  other_job c [] h k = absurd (ground arith)
  other_job c (r ∷ jobs) h k = ground (arith, other_job c jobs)

  new_job-not_live :
      (c : Claim) → (c.job_id == job_id) ≡ false → is_live_job job_id (new_job c) ≡ false
  unfolding is_live_job has_id new_job
  new_job-not_live c e = rw e refl

  IsKept-append :
      (db : Database) (c : Claim)
      → (c.job_id == job_id) ≡ false
      → IsClosed db
      → IsKept db (record db { jobs = db.jobs ++ (new_job c ∷ []) })
  unfolding find new_job
  IsKept-append db c e h = (
    record {
      is_there = exists-append db.jobs (new_job c) h.is_there;
      not_live = live-append db.jobs (new_job c) h.not_live (new_job-not_live c e);
    },
    find-append db.jobs (new_job c) h.is_there,
  )

  IsKept-claim : (db : Database) (c : Claim) → IsClosed db → IsKept db (claim c db).1
  unfolding claim
  IsKept-claim db c h = elim (Bool-cases (any (has_id c.job_id) db.jobs)) [
    | inl e ↦ rw (claim, e) (h, refl)
    | inr e ↦ elim (Bool-cases (breaks_idempotency (new_job c) db.jobs)) [
      | inl k ↦ rw (claim, e, k) (h, refl)
      | inr k ↦ rw (claim, e, k) (IsKept-append db c (other_job c db.jobs h.is_there e) h)
    ]
  ]

  IsKept-after : (w : Write) (db : Database) → IsClosed db → IsKept db (after w db).1
  unfolding after
  IsKept-after (claims c) db h = IsKept-claim db c h
  IsKept-after (marks_running other now) db h =
      unfold mark_running in IsKept-update db other (start now) (λ r. unfold start in refl) h
  IsKept-after (settles other status result usage error now) db h =
      unfold settle_job in
      IsKept-update db other (close status result usage error now) (λ r. unfold close in refl) h
  IsKept-after (cancels other now) db h =
      unfold cancel in
      IsKept-update db other (close_canceled_job now) (λ r. unfold close_canceled_job in refl) h
  IsKept-after (records_steps is_space other user_id attempt steps now) db h =
      unfold record_steps find in (record { is_there = h.is_there; not_live = h.not_live }, refl)

  IsKept-after_all :
      (writes : List Write) (db : Database) → IsClosed db → IsKept db (after_all writes db)
  unfolding after_all
  IsKept-after_all [] db h = (h, refl)
  IsKept-after_all (w ∷ writes) db h =
      let now = IsKept-after w db h in
      let later = IsKept-after_all writes (after w db).1 now.0 in (later.0, later.1 ∙ now.1)

  -- A settlement with a status that is not live, or a cancellation.
  pub data IsClosing : Write → Type 0 where
    by_settlement :
        {status : JobStatus} {result usage : String} {error : Option String} {now : ℕ}
        → is_live status ≡ false
        → IsClosing (settles job_id status result usage error now)
    by_cancellation : {now : ℕ} → IsClosing (cancels job_id now)

  -- A write that moves the job on.
  pub data IsMoving : Write → Type 0 where
    by_start : {now : ℕ} → IsMoving (marks_running job_id now)
    by_settlement :
        {status : JobStatus} {result usage : String} {error : Option String} {now : ℕ}
        → IsMoving (settles job_id status result usage error now)
    by_cancellation : {now : ℕ} → IsMoving (cancels job_id now)

  refused : (w : Write) (db : Database) → IsMoving w → IsClosed db → (after w db).0 ≡ false
  unfolding after mark_running settle_job cancel
  refused (claims c) db m h = elim m [ ]
  refused (records_steps is_space other user_id attempt steps now) db m h = elim m [ ]
  refused (marks_running _ now) db by_start h = rw (none-counted db.jobs h.not_live) refl
  refused (settles _ status result usage error now) db IsMoving.by_settlement h =
      rw (none-counted db.jobs h.not_live) refl
  refused (cancels _ now) db IsMoving.by_cancellation h = rw (none-counted db.jobs h.not_live) refl

  pub update_live-IsClosed :
      (change : Job → Job) (db : Database)
      → ((r : Job) → (change r).id ≡ r.id)
      → ((r : Job) → is_live (change r).status ≡ false)
      → (count_where (is_live_job job_id) db.jobs == 1) ≡ true
      → IsClosed (record db { jobs = update_where (is_live_job job_id) change db.jobs })
  update_live-IsClosed change db keeps closes h = record {
    is_there = exists-update job_id change keeps db.jobs ∙ counted-exists db.jobs (ground arith);
    not_live = closed-update change db.jobs closes;
  }

  closing-IsClosed :
      (w : Write) (db : Database) → IsClosing w → (after w db).0 ≡ true → IsClosed (after w db).1
  unfolding after settle_job cancel
  closing-IsClosed (claims c) db m h = elim m [ ]
  closing-IsClosed (marks_running other now) db m h = elim m [ ]
  closing-IsClosed (records_steps is_space other user_id attempt steps now) db m h = elim m [ ]
  closing-IsClosed (settles _ status result usage error now) db (IsClosing.by_settlement e) h =
      update_live-IsClosed (close status result usage error now) db (λ r. unfold close in refl)
        (λ r. unfold close in e) h
  closing-IsClosed (cancels _ now) db IsClosing.by_cancellation h =
      update_live-IsClosed (close_canceled_job now) db (λ r. unfold close_canceled_job in refl)
        (λ r. unfold close_canceled_job is_live in refl) h

  -- Once a settlement with a closing status or a cancellation of a job was accepted, then after any writes its row is
  -- still the one that this write left, and every start, settlement and cancellation of it is refused.
  pub closed_for_good :
      (w : Write) (db : Database) (writes : List Write)
      → IsClosing w
      → (after w db).0 ≡ true
      → (find job_id (after_all writes (after w db).1) ≡ find job_id (after w db).1)
        × ((u : Write) → IsMoving u → (after u (after_all writes (after w db).1)).0 ≡ false)
  closed_for_good w db writes c h =
      let closed = closing-IsClosed w db c h in
      let kept = IsKept-after_all writes (after w db).1 closed in
      (kept.1, λ u moving. refused u _ moving kept.0)
