-- ===== src/JobRuns/World.antt =====
-- What the activities of src/tracer_agent/worker/workflows/jobs_activities.py read and write: the ledger, the
-- observations, the notifications and the jobs whose outputs were handed over.
use Prim.Native.String.{String}
use tracer_agent_python.Prelude.{ℕ, zero, suc, ◌+◌, Bool, true, false, Option, List, if◌then◌else◌}
use tracer_agent_python.Jobs.Rows.{JobStatus, Database}

pub data JobKind : Type 0 where
  title_suggestion task_cleanup recipe_scan : JobKind

-- The columns of an observation that its key and its writer name; the others as one.
pub record Observation : Type 0 where
  pub execution_id : ℕ
  pub attempt_id : ℕ
  pub user_id : ℕ
  pub payload : String
  pub created_at : ℕ

pub record World : Type 0 where
  pub db : Database
  pub observations : List Observation
  pub notified : List (ℕ × JobStatus)
  pub outputs : List (Option ℕ)

-- The job's input, of which the activities read these entries; an empty text counts as none.
pub record Payload : Type 0 where
  pub user_id : Option ℕ
  pub execution_id : Option ℕ
  pub attempt_id : Option ℕ
  pub context : Option ℕ
  pub language : Option (List ℕ)
  pub max_suggestions : Option ℕ
  pub api_key : Option ℕ
  pub model : Option ℕ

pub data Fault : Type 0 where
  no_user no_credentials envelope_unavailable invalid_request context_unavailable : Fault
  closed_before_start canceled lost : Fault
  run_failed : ℕ → Fault

pub data Ended (A : Type 0) : Type 0 where
  returned : A → Ended A
  raised : Fault → Ended A

abbrev pub M : Type 0 → Type 0
M A = World → Ended A × World

infixl 5 ◌>>=◌ ◌>>◌
abbrev pub ◌>>=◌ : {A B : Type 0} → M A → (A → M B) → M B
◌>>=◌ m f w = elim (m w).0 [ returned a ↦ f a (m w).1 | raised e ↦ (raised e, (m w).1) ]

abbrev pub ◌>>◌ : {B : Type 0} → M (Unit {0}) → M B → M B
m >> k = m >>= λ _. k

-- Where an attempt of an activity is lost: nowhere, before it writes, after the settlement, or after
-- all its writes.
pub data Cut : Type 0 where
  whole before midway at_end : Cut

-- An activity whose writes are one step: lost before or after it.
abbrev pub interrupted : {A : Type 0} → Cut → M A → M A
interrupted whole m w = m w
interrupted before m w = (raised lost, w)
interrupted midway m w = (raised lost, (m w).1)
interrupted at_end m w = (raised lost, (m w).1)

-- `ApplicationError(…, non_retryable=True)`; Temporal does not retry a cancellation either.
unfoldable pub is_retryable : Fault → Bool
is_retryable closed_before_start = false
is_retryable canceled = false
is_retryable _ = true

-- `RetryPolicy(maximum_attempts = more + 1)`
unfoldable pub attempts_of : {A : Type 0} → ℕ → ℕ → (ℕ → M A) → M A
unfolding is_retryable
attempts_of zero attempt activity w = activity attempt w
attempts_of (suc more) attempt activity w =
    let again = attempts_of more (attempt + 1) activity (activity attempt w).1 in
    elim (activity attempt w).0 [
      | returned a ↦ (returned a, (activity attempt w).1)
      | raised f ↦ if is_retryable f then again else (raised f, (activity attempt w).1)
    ]
