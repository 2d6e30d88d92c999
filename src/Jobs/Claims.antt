-- ===== src/Jobs/Claims.antt =====
-- An idempotency key is claimed once, and a step is recorded once
-- (src/tracer_agent/shared/workflows/jobs_ledger.py).
use Prim.Native.String.{String}
use tracer_agent_python.Prelude.{
  ℕ, ◌≡◌, refl, sym, ◌∙◌, inl, inr, Bool, true, false, Option, none, some, List, [], ◌∷◌, ◌++◌, any,
  Bool-cases, arith,
}
use tracer_agent_python.Jobs.Rows.{JobStatus, Job, Database, update_where, first_where}
use tracer_agent_python.Jobs.Ledger.{
  has_id, is_live_job, has_idempotency, breaks_idempotency, start, close, close_canceled_job, Claim,
  new_job, claim, find_by_idempotency, mark_running, settle_job, cancel, record_steps, Write,
  claims, marks_running, settles, cancels, records_steps, after, after_all,
}

abbrev pub id_of : Option Job → Option ℕ
id_of none = none
id_of (some r) = some r.id

-- A change that leaves the row's identifier and its place in the index alone.
record KeepsKey (change : Job → Job) : Type 0 where
  same_id : (r : Job) → (change r).id ≡ r.id
  same_user : (r : Job) → (change r).user_id ≡ r.user_id
  same_kind : (r : Job) → (change r).kind ≡ r.kind
  same_key : (r : Job) → (change r).idempotency_key ≡ r.idempotency_key

start-KeepsKey : (now : ℕ) → KeepsKey (start now)
unfolding start
start-KeepsKey now = record {
  same_id = λ r. refl;
  same_user = λ r. refl;
  same_kind = λ r. refl;
  same_key = λ r. refl;
}

close-KeepsKey :
    (status : JobStatus) (result usage : String) (error : Option String) (now : ℕ)
    → KeepsKey (close status result usage error now)
unfolding close
close-KeepsKey status result usage error now = record {
  same_id = λ r. refl;
  same_user = λ r. refl;
  same_kind = λ r. refl;
  same_key = λ r. refl;
}

close_canceled_job-KeepsKey : (now : ℕ) → KeepsKey (close_canceled_job now)
unfolding close_canceled_job
close_canceled_job-KeepsKey now = record {
  same_id = λ r. refl;
  same_user = λ r. refl;
  same_kind = λ r. refl;
  same_key = λ r. refl;
}

module _ (user_id kind key : ℕ) where
  -- The job that has the key.
  abbrev pub owner : List Job → Option ℕ
  owner jobs = id_of (first_where (has_idempotency user_id kind key) jobs)

  kept_place :
      (change : Job → Job)
      → KeepsKey change
      → (r : Job) → has_idempotency user_id kind key (change r) ≡ has_idempotency user_id kind key r
  unfolding has_idempotency
  kept_place change k r = rw (k.same_user r, k.same_kind r, k.same_key r) refl

  owner-update :
      (test : Job → Bool) (change : Job → Job) (jobs : List Job)
      → KeepsKey change
      → owner (update_where test change jobs) ≡ owner jobs
  unfolding update_where first_where
  owner-update test change [] k = refl
  owner-update test change (r ∷ jobs) k =
      ground (arith, owner-update test change jobs k, kept_place change k r, k.same_id r)

  owner-append :
      (jobs : List Job) (r : Job) (job_id : ℕ)
      → owner jobs ≡ some job_id
      → owner (jobs ++ (r ∷ [])) ≡ some job_id
  unfolding first_where
  owner-append [] r job_id h = absurd cc
  owner-append (s ∷ jobs) r job_id h = ground (arith, owner-append jobs r job_id)

  owner-new :
      (jobs : List Job) (r : Job)
      → any (has_idempotency user_id kind key) jobs ≡ false
      → has_idempotency user_id kind key r ≡ true
      → owner (jobs ++ (r ∷ [])) ≡ some r.id
  unfolding first_where
  owner-new [] r h k = rw k refl
  owner-new (s ∷ jobs) r h k = ground (arith, owner-new jobs r)

  owned-taken :
      (jobs : List Job) (job_id : ℕ)
      → owner jobs ≡ some job_id
      → any (has_idempotency user_id kind key) jobs ≡ true
  unfolding first_where
  owned-taken [] job_id h = absurd cc
  owned-taken (r ∷ jobs) job_id h = ground (arith, owned-taken jobs job_id)

  owned-claim :
      (c : Claim) (db : Database) (job_id : ℕ)
      → owner db.jobs ≡ some job_id
      → owner (claim c db).1.jobs ≡ some job_id
  unfolding claim
  owned-claim c db job_id h = elim (Bool-cases (any (has_id c.job_id) db.jobs)) [
    | inl e ↦ rw (claim, e) h
    | inr e ↦ elim (Bool-cases (breaks_idempotency (new_job c) db.jobs)) [
      | inl k ↦ rw (claim, e, k) h
      | inr k ↦ rw (claim, e, k) (owner-append db.jobs (new_job c) job_id h)
    ]
  ]

  owned-after :
      (w : Write) (db : Database) (job_id : ℕ)
      → owner db.jobs ≡ some job_id
      → owner (after w db).1.jobs ≡ some job_id
  unfolding after mark_running settle_job cancel record_steps
  owned-after (claims c) db job_id h = owned-claim c db job_id h
  owned-after (marks_running other now) db job_id h =
      owner-update (is_live_job other) (start now) db.jobs (start-KeepsKey now) ∙ h
  owned-after (settles other status result usage error now) db job_id h =
      owner-update (is_live_job other) (close status result usage error now) db.jobs
        (close-KeepsKey status result usage error now)
      ∙ h
  owned-after (cancels other now) db job_id h =
      owner-update (is_live_job other) (close_canceled_job now) db.jobs
        (close_canceled_job-KeepsKey now)
      ∙ h
  owned-after (records_steps is_space other user_id attempt steps now) db job_id h = h

  owned-after_all :
      (writes : List Write) (db : Database) (job_id : ℕ)
      → owner db.jobs ≡ some job_id
      → owner (after_all writes db).jobs ≡ some job_id
  unfolding after_all
  owned-after_all [] db job_id h = h
  owned-after_all (w ∷ writes) db job_id h =
      owned-after_all writes (after w db).1 job_id (owned-after w db job_id h)

  -- The claim is for the key.
  abbrev pub IsFor : Claim → Type 0
  IsFor c = (c.user_id ≡ user_id) × ((c.kind ≡ kind) × (c.idempotency_key ≡ some key))

  broken :
      (c : Claim) (jobs : List Job)
      → IsFor c
      → breaks_idempotency (new_job c) jobs ≡ any (has_idempotency user_id kind key) jobs
  unfolding breaks_idempotency has_idempotency new_job
  broken c jobs f = rw (breaks_idempotency, ← f.0, ← f.1.0, f.1.1) refl

  new_job-has : (c : Claim) → IsFor c → has_idempotency user_id kind key (new_job c) ≡ true
  unfolding has_idempotency new_job
  new_job-has c f = rw (f.0, f.1.0, f.1.1) (ground arith)

  claimed-owner :
      (c : Claim) (db : Database)
      → IsFor c
      → (claim c db).0 ≡ true
      → owner (claim c db).1.jobs ≡ some c.job_id
  unfolding claim
  claimed-owner c db f h = elim (Bool-cases (any (has_id c.job_id) db.jobs)) [
    | inl e ↦ absurd (ground arith)
    | inr e ↦ elim (Bool-cases (breaks_idempotency (new_job c) db.jobs)) [
      | inl k ↦ absurd (ground arith)
      | inr k ↦
          rw (claim, e, k)
            (owner-new db.jobs (new_job c) (sym (broken c db.jobs f) ∙ k) (new_job-has c f))
    ]
  ]

  refused_claim :
      (c : Claim) (db : Database) (job_id : ℕ)
      → IsFor c
      → owner db.jobs ≡ some job_id
      → (claim c db).0 ≡ false
  unfolding claim
  refused_claim c db job_id f h =
      let k = broken c db.jobs f ∙ owned-taken db.jobs job_id h in ground arith

  -- Once a claim with an idempotency key was accepted, then after any writes the key still finds its job, and
  -- every other claim with the key is refused.
  pub claimed_once :
      (c : Claim) (db : Database) (writes : List Write)
      → IsFor c
      → (claim c db).0 ≡ true
      → (id_of (find_by_idempotency user_id kind key (after_all writes (claim c db).1))
          ≡ some c.job_id)
        × ((d : Claim) → IsFor d → (claim d (after_all writes (claim c db).1)).0 ≡ false)
  unfolding find_by_idempotency
  claimed_once c db writes f h =
      let owned = owned-after_all writes (claim c db).1 c.job_id (claimed-owner c db f h) in
      (owned, λ d g. refused_claim d (after_all writes (claim c db).1) c.job_id g owned)
