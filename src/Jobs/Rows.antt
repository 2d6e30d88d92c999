-- ===== src/Jobs/Rows.antt =====
-- The rows of `ai_jobs` and `ai_job_steps` (columns and indexes in
-- src/tracer_agent/shared/agents/runtime/__fakes__/sqlite_ledger.py) that src/tracer_agent/shared/workflows/jobs_ledger.py
-- writes. Identifiers and times are only compared, so they are numbers.
use Prim.Native.String.{String}
use tracer_agent_python.Prelude.{ℕ, ◌+◌, Bool, true, false, Option, List, [], ◌∷◌, if◌then◌else◌}

pub data JobStatus : Type 0 where
  pending running completed failed canceled : JobStatus

-- `status IN ('pending', 'running')`
unfoldable pub is_live : JobStatus → Bool
is_live pending = true
is_live running = true
is_live _ = false

pub record Job : Type 0 where
  pub id : ℕ
  pub user_id : ℕ
  pub kind : ℕ
  pub executor : ℕ
  pub status : JobStatus
  pub attempts : ℕ
  pub task_id : Option ℕ
  pub idempotency_key : Option ℕ
  pub idempotency_input_hash : Option ℕ
  pub input : String
  pub result : String
  pub usage : String
  pub error : Option String
  pub created_at : ℕ
  pub updated_at : ℕ
  pub started_at : Option ℕ
  pub completed_at : Option ℕ

-- `AgentStepDTO`: its content as code points, its tool calls by number, the other columns as one.
pub record Step : Type 0 where
  pub seq : ℕ
  pub content : List ℕ
  pub tool_calls : List ℕ
  pub others : String

pub record StepRow : Type 0 where
  pub job_id : ℕ
  pub owner_id : ℕ
  pub attempt : ℕ
  pub step : Step
  pub recorded_at : ℕ

pub record Database : Type 0 where
  pub jobs : List Job
  pub steps : List StepRow

-- `UPDATE … WHERE …` and how many rows it returns.
module _ {ℓ} {A : Type ℓ} (test : A → Bool) where
  unfoldable pub update_where : (A → A) → List A → List A
  update_where change [] = []
  update_where change (r ∷ rs) = (if test r then change r else r) ∷ update_where change rs

  unfoldable pub count_where : List A → ℕ
  count_where [] = 0
  count_where (r ∷ rs) = (if test r then 1 else 0) + count_where rs

  -- `SELECT … WHERE …`, the first row
  unfoldable pub first_where : List A → Option A
  first_where [] = Option.none
  first_where (r ∷ rs) = if test r then Option.some r else first_where rs
