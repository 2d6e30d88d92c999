-- ===== src/Jobs/Ledger.antt =====
-- `JobLedger` of src/tracer_agent/shared/workflows/jobs_ledger.py.
use Prim.Native.String.{String}
use tracer_agent_python.Prelude.{
  ℕ, ◌+◌, Bool, true, false, not, Option, none, some, List, [], ◌∷◌, ◌++◌, ◌==◌, if◌then◌else◌, ltb,
  leb, ◌&&◌, ◌||◌, any, filter,
}
use tracer_agent_python.Jobs.Rows.{
  JobStatus, pending, running, canceled, is_live, Job, Step, StepRow, Database, update_where,
  count_where, first_where,
}

unfoldable pub has_id : ℕ → Job → Bool
has_id job_id r = r.id == job_id

-- The unique index on `(user_id, kind, idempotency_key)`, which rows without a key are not in.
unfoldable pub has_idempotency : ℕ → ℕ → ℕ → Job → Bool
has_idempotency user_id kind key r =
    r.user_id == user_id
    && (r.kind == kind && elim r.idempotency_key [ none ↦ false | some k ↦ k == key ])

unfoldable pub breaks_idempotency : Job → List Job → Bool
unfolding has_idempotency
breaks_idempotency r jobs = elim r.idempotency_key [
  | none ↦ false
  | some key ↦ any (has_idempotency r.user_id r.kind key) jobs
]

-- What a claim writes.
pub record Claim : Type 0 where
  pub job_id : ℕ
  pub user_id : ℕ
  pub kind : ℕ
  pub executor : ℕ
  pub task_id : Option ℕ
  pub idempotency_key : Option ℕ
  pub idempotency_input_hash : Option ℕ
  pub job_input : String
  pub now : ℕ

unfoldable pub new_job : Claim → Job
new_job c = record {
  id = c.job_id;
  user_id = c.user_id;
  kind = c.kind;
  executor = c.executor;
  status = pending;
  attempts = 0;
  task_id = c.task_id;
  idempotency_key = c.idempotency_key;
  idempotency_input_hash = c.idempotency_input_hash;
  input = c.job_input;
  result = "{}";
  usage = "{}";
  error = none;
  created_at = c.now;
  updated_at = c.now;
  started_at = none;
  completed_at = none;
}

-- A row with the identifier makes the statement do nothing, one with the key makes it fail.
unfoldable pub claim : Claim → Database → Bool × Database
unfolding has_id breaks_idempotency new_job
claim c db =
    if any (has_id c.job_id) db.jobs
    then (false, db)
    else if breaks_idempotency (new_job c) db.jobs
    then (false, db)
    else (true, record db { jobs = db.jobs ++ (new_job c ∷ []) })

unfoldable pub find : ℕ → Database → Option Job
unfolding has_id first_where
find job_id db = first_where (has_id job_id) db.jobs

unfoldable pub find_by_idempotency : ℕ → ℕ → ℕ → Database → Option Job
unfolding has_idempotency first_where
find_by_idempotency user_id kind key db = first_where (has_idempotency user_id kind key) db.jobs

-- `WHERE id = $1 AND status IN ('pending', 'running')`
unfoldable pub is_live_job : ℕ → Job → Bool
unfolding has_id is_live
is_live_job job_id r = has_id job_id r && is_live r.status

-- An `UPDATE` of the live row, and `len(rows) == 1`.
abbrev pub update_live : ℕ → (Job → Job) → Database → Bool × Database
update_live job_id change db = (
  count_where (is_live_job job_id) db.jobs == 1,
  record db { jobs = update_where (is_live_job job_id) change db.jobs },
)

unfoldable pub start : ℕ → Job → Job
start now r = record r {
  status = running;
  attempts = r.attempts + 1;
  started_at = elim r.started_at [ none ↦ some now | some t ↦ some t ];
  updated_at = now;
}

unfoldable pub mark_running : ℕ → ℕ → Database → Bool × Database
unfolding is_live_job start update_where count_where
mark_running job_id now = update_live job_id (start now)

unfoldable pub close : JobStatus → String → String → Option String → ℕ → Job → Job
close status result usage error now r = record r {
  status = status;
  result = result;
  usage = usage;
  error = error;
  completed_at = some now;
  updated_at = now;
}

unfoldable pub settle_job :
    ℕ → JobStatus → String → String → Option String → ℕ → Database → Bool × Database
unfolding is_live_job close update_where count_where
settle_job job_id status result usage error now =
    update_live job_id (close status result usage error now)

unfoldable pub close_canceled_job : ℕ → Job → Job
close_canceled_job now r = record r { status = canceled; completed_at = some now; updated_at = now }

unfoldable pub cancel : ℕ → ℕ → Database → Bool × Database
unfolding is_live_job close_canceled_job update_where count_where
cancel job_id now = update_live job_id (close_canceled_job now)

-- `AgentStepDTO.carries_content`, with Python's test for a space
unfoldable pub carries_content : (ℕ → Bool) → Step → Bool
carries_content is_space s =
    any (λ c. not (is_space c)) s.content || elim s.tool_calls [ [] ↦ false | _ ∷ _ ↦ true ]

-- The unique index on `(job_id, attempt, seq)`.
unfoldable pub same_place : StepRow → StepRow → Bool
same_place a b = a.job_id == b.job_id && (a.attempt == b.attempt && a.step.seq == b.step.seq)

-- `ON CONFLICT (job_id, attempt, seq) DO NOTHING`
unfoldable pub insert_step : StepRow → List StepRow → List StepRow
unfolding same_place
insert_step row rows = if any (same_place row) rows then rows else rows ++ (row ∷ [])

unfoldable pub insert_steps : (ℕ → Bool) → ℕ → ℕ → ℕ → ℕ → List Step → List StepRow → List StepRow
unfolding carries_content insert_step
insert_steps is_space job_id user_id attempt now [] rows = rows
insert_steps is_space job_id user_id attempt now (s ∷ steps) rows =
    let row : StepRow = record {
      job_id = job_id;
      owner_id = user_id;
      attempt = attempt;
      step = s;
      recorded_at = now;
    } in
    insert_steps is_space job_id user_id attempt now steps
      (if carries_content is_space s then insert_step row rows else rows)

unfoldable pub record_steps : (ℕ → Bool) → ℕ → ℕ → ℕ → List Step → ℕ → Database → Database
unfolding insert_steps
record_steps is_space job_id user_id attempt steps now db = record db {
  steps = insert_steps is_space job_id user_id attempt now steps db.steps;
}

-- `ORDER BY attempt ASC, seq ASC`
unfoldable pub step_before : StepRow → StepRow → Bool
step_before a b = ltb a.attempt b.attempt || (a.attempt == b.attempt && leb a.step.seq b.step.seq)

unfoldable pub insert_ordered : StepRow → List StepRow → List StepRow
unfolding step_before
insert_ordered r [] = r ∷ []
insert_ordered r (s ∷ rows) =
    let rest = insert_ordered r rows in if step_before r s then r ∷ s ∷ rows else s ∷ rest

unfoldable pub order_steps : List StepRow → List StepRow
unfolding insert_ordered
order_steps [] = []
order_steps (r ∷ rows) = insert_ordered r (order_steps rows)

unfoldable pub steps_of : ℕ → ℕ → Database → List StepRow
unfolding order_steps
steps_of job_id user_id db =
    order_steps (filter (λ (r : StepRow). r.job_id == job_id && r.owner_id == user_id) db.steps)

-- Everything that writes to the ledger.
pub data Write : Type 0 where
  claims : Claim → Write
  marks_running : ℕ → ℕ → Write
  settles : ℕ → JobStatus → String → String → Option String → ℕ → Write
  cancels : ℕ → ℕ → Write
  records_steps : (ℕ → Bool) → ℕ → ℕ → ℕ → List Step → ℕ → Write

unfoldable pub after : Write → Database → Bool × Database
unfolding claim mark_running settle_job cancel record_steps
after (claims c) db = claim c db
after (marks_running job_id now) db = mark_running job_id now db
after (settles job_id status result usage error now) db =
    settle_job job_id status result usage error now db
after (cancels job_id now) db = cancel job_id now db
after (records_steps is_space job_id user_id attempt steps now) db =
    (true, record_steps is_space job_id user_id attempt steps now db)

unfoldable pub after_all : List Write → Database → Database
unfolding after
after_all [] db = db
after_all (w ∷ writes) db = after_all writes (after w db).1
