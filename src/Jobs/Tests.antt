-- ===== src/Jobs/Tests.antt =====
-- Concrete runs of the model of src/tracer_agent/shared/workflows/jobs_ledger.py.
use tracer_agent_python.Prelude.{◌≡◌, refl, false, List, [], ◌∷◌, none, some, ◌==◌, map}
use tracer_agent_python.Jobs.Rows.{completed, Step, StepRow, Database, is_live}
use tracer_agent_python.Jobs.Ledger.{
  Claim, claim, find, find_by_idempotency, record_steps, steps_of, Write, claims, marks_running,
  settles, cancels, after, after_all,
}
use tracer_agent_python.Jobs.Closed.{IsMoving, by_settlement, closed_for_good}
use tracer_agent_python.Jobs.Claims.{id_of, IsFor, claimed_once}
use tracer_agent_python.Jobs.Steps.{record_steps_again}

abbrev empty_database : Database
empty_database = record { jobs = []; steps = [] }

-- Job 1 of user 7, of kind 2, with the key 9.
abbrev first_claim : Claim
first_claim = record {
  job_id = 1;
  user_id = 7;
  kind = 2;
  executor = 0;
  task_id = none;
  idempotency_key = some 9;
  idempotency_input_hash = none;
  job_input = "{}";
  now = 100;
}

abbrev one_job : Database
one_job = (claim first_claim empty_database).1

abbrev completion : Write
completion = settles 1 completed "{}" "{}" none 120

abbrev later_writes : List Write
later_writes = marks_running 1 130 ∷ claims (record first_claim { job_id = 2 }) ∷ cancels 1 140 ∷ []

closed_for_good_example :
    (find 1 (after_all later_writes (after completion one_job).1)
      ≡ find 1 (after completion one_job).1)
    × ((u : Write)
        → IsMoving 1 u
        → (after u (after_all later_writes (after completion one_job).1)).0 ≡ false)
unfolding after is_live
closed_for_good_example =
    closed_for_good 1 completion one_job later_writes (by_settlement refl) refl

claimed_once_example :
    (id_of (find_by_idempotency 7 2 9 (after_all later_writes one_job)) ≡ some 1)
    × ((d : Claim) → IsFor 7 2 9 d → (claim d (after_all later_writes one_job)).0 ≡ false)
unfolding claim
claimed_once_example =
    claimed_once 7 2 9 first_claim empty_database later_writes (refl, (refl, refl)) refl

-- The second step is blank.
abbrev trajectory : List Step
trajectory =
    record { seq = 2; content = b'h' ∷ b'i' ∷ []; tool_calls = []; others = "" }
    ∷ record { seq = 3; content = b' ' ∷ []; tool_calls = []; others = "" }
    ∷ record { seq = 1; content = []; tool_calls = 4 ∷ []; others = "" }
    ∷ []

record_steps_again_example :
    record_steps
      (λ c. c == b' ')
      1
      7
      1
      trajectory
      60
      (record_steps (λ c. c == b' ') 1 7 1 trajectory 50 one_job)
    ≡ record_steps (λ c. c == b' ') 1 7 1 trajectory 50 one_job
record_steps_again_example = record_steps_again (λ c. c == b' ') 1 7 1 trajectory 50 60 one_job

steps_in_order :
    map
      (λ (r : StepRow). r.step.seq)
      (steps_of 1 7 (record_steps (λ c. c == b' ') 1 7 1 trajectory 50 one_job))
    ≡ 1 ∷ 2 ∷ []
unfolding steps_of record_steps claim
steps_in_order = refl
