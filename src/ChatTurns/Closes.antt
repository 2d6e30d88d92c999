-- ===== src/ChatTurns/Closes.antt =====
-- The workflow of an execution closes it (`ChatExecutionWorkflow` of
-- src/tracer_agent/worker/workflows/chat_workflows.py).
use tracer_agent_python.Prelude.{Bool-cases, ℕ, ◌≡◌, refl, false, arith, ◌⊎◌, inl, inr}
use tracer_agent_python.ChatTurns.Tables.{Store}
use tracer_agent_python.ChatTurns.Ended.{Ended, Ended-cases, Fault, lost, returned, raised}
use tracer_agent_python.ChatTurns.Redelivery.{HasDone}
use tracer_agent_python.ChatTurns.Turn.{GeneratedChatExecution, PreparedChatExecution}
use tracer_agent_python.ChatTurns.Activities.{Service}
use tracer_agent_python.ChatTurns.Lives.{IsRunning, IsClosed, Alive}
use tracer_agent_python.ChatTurns.Tried.{Fits, GeneratedAs, Speaks}
use tracer_agent_python.ChatTurns.Execution.{
  Schedule, Awaited, arrived, cancelled_error, after_prepared, after_generated, stages,
  fail_attempts, run_execution,
}
use tracer_agent_python.ChatTurns.Settling.{Settling, done-IsClosed, SettledAs, settle-SettledAs}
use tracer_agent_python.ChatTurns.Seated.{prepare_rounds-RoundsAs}
use tracer_agent_python.ChatTurns.Failing.{Lands, fail_attempts-IsClosed}
use tracer_agent_python.ChatTurns.Attempted.{attempts-GeneratedAs}
use tracer_agent_python.ChatTurns.Execution.{
  prepare_rounds, generate_attempts, settle_attempts, more_busy_rounds, more_generate_attempts,
  more_stage_attempts,
}

-- A run that nothing cancels before it settles: neither before its first stage nor in a wait.
pub record ReachesSettling (at : Schedule) : Type 0 where
  pub starts : at.canceled_first ≡ false
  pub waits : (k : ℕ) → at.canceled_wait k ≡ false

Awaited-cases : {A : Type 0} (x : Awaited A) → (x ≡ cancelled_error) ⊎ ((a : A) × (x ≡ arrived a))
Awaited-cases cancelled_error = inl refl
Awaited-cases (arrived a) = inr (a, refl)

module _ (service : Service) (speaks : Speaks service) (at : Schedule) (id thread : ℕ)
    (kept : (k : ℕ) (s : Store) → Alive id s.ledger → Alive id (at.meanwhile k s).ledger)
    (reaches : ReachesSettling at) where
  -- After the stages an execution is alive or closed, and closed if they return.
  abbrev StagedAs : Ended (Awaited (Unit {0})) × Store → Type 0
  StagedAs z =
      (Alive id z.1.ledger ⊎ IsClosed id z.1.ledger)
      × ((x : Awaited (Unit {0})) → z.0 ≡ returned x → IsClosed id z.1.ledger)

  raised-StagedAs :
      (f : Fault) (s : Store) → Alive id s.ledger ⊎ IsClosed id s.ledger → StagedAs (raised f, s)
  raised-StagedAs f s h = (h, λ x e. absurd (ground arith))

  settling : (user : ℕ) (s : Store) → Settling id user s → Alive id s.ledger ⊎ IsClosed id s.ledger
  settling user s (inl w) = inl (inr (user, w))
  settling user s (inr d) = inr (done-IsClosed id s d)

  settled-StagedAs :
      (p : PreparedChatExecution) (g : GeneratedChatExecution) (s : Store)
      → Fits service id p.user_id g
      → IsRunning id p.user_id s.ledger
      → StagedAs (after_generated service at g s)
  settled-StagedAs p g s fits w =
      let settled = settle_attempts service at g s in
      let ended : SettledAs service id p.user_id g fits settled =
        unfold settle_attempts in
        settle-SettledAs service id p.user_id g fits at.settled_at more_stage_attempts 1 s
          (inl w) in
      elim (Ended-cases settled.0) [
        | inl (f, k) ↦
            let end : after_generated service at g s ≡ (raised f, settled.1) =
              unfold after_generated in ground arith in
            rw end (raised-StagedAs f settled.1 (settling p.user_id settled.1 ended.0))
        | inr (u, k) ↦
            let same : (after_generated service at g s).1 ≡ settled.1 =
              unfold after_generated in ground arith in
            let is_done : HasDone id settled.1 = ended.1 k in
            let closed : IsClosed id settled.1.ledger = done-IsClosed id settled.1 is_done in
            rw same (inr closed, λ x h. closed)
      ]

  turn-StagedAs :
      (p : PreparedChatExecution) (s : Store)
      → p.execution_id ≡ id
      → IsRunning id p.user_id s.ledger
      → StagedAs (after_prepared service at (arrived p) s)
  turn-StagedAs p s its w =
      let generated = generate_attempts service at p s in
      let made : GeneratedAs service speaks id p.user_id generated =
        unfold generate_attempts in
        attempts-GeneratedAs service speaks id p.user_id p its refl at.begun_at at.observed_at
          more_generate_attempts 1 s w in
      elim (Bool-cases at.prepare_lost) [
        | inl gone ↦
            let end : after_prepared service at (arrived p) s ≡ (raised lost, s) =
              unfold after_prepared in ground (arith, gone) in
            rw end (raised-StagedAs lost s (inl (inr (p.user_id, w))))
        | inr there ↦ elim (Ended-cases generated.0) [
          | inl (f, e) ↦
              let end : after_prepared service at (arrived p) s ≡ (raised f, generated.1) =
                unfold after_prepared in ground (arith, there) in
              rw end (raised-StagedAs f generated.1 (inl (inr (p.user_id, made.0))))
          | inr (g, e) ↦ elim (Bool-cases at.generate_lost) [
            | inl gone ↦
                let end : after_prepared service at (arrived p) s ≡ (raised lost, generated.1) =
                  unfold after_prepared in ground (arith, there, gone) in
                rw end (raised-StagedAs lost generated.1 (inl (inr (p.user_id, made.0))))
            | inr kept_g ↦
                let end : after_prepared service at (arrived p) s
                    ≡ after_generated service at g generated.1 =
                  unfold after_prepared in ground (arith, there, kept_g) in
                rw end (settled-StagedAs p g generated.1 (made.1 g e) made.0)
          ]
        ]
      ]

  stages-StagedAs : (s : Store) → Alive id s.ledger → StagedAs (stages service at id thread s)
  stages-StagedAs s a =
      let prepared = prepare_rounds at id thread more_busy_rounds 1 s in
      let first = prepare_rounds-RoundsAs id thread at kept reaches.waits more_busy_rounds 1 s a in
      elim (Ended-cases prepared.0) [
        | inl (f, e) ↦
            let end : stages service at id thread s ≡ (raised f, prepared.1) =
              unfold stages in ground (arith, reaches.starts) in
            rw end (raised-StagedAs f prepared.1 (inl first.0))
        | inr (x, e) ↦
            let (p, same, its, runs) = first.1 x e in
            let end : stages service at id thread s
                ≡ after_prepared service at (arrived p) prepared.1 =
              unfold stages in ground (arith, reaches.starts) in
            rw end (turn-StagedAs p prepared.1 its runs)
      ]

  -- Whatever the model, the server and the summary do, and whichever stage fails, the workflow of
  -- an execution that waits or runs closes it, if its earlier observations are of failed attempts, a
  -- cancelled run has said something, what others write in a wait leaves it so, the workflow is not
  -- cancelled before its first stage or in a wait, and one of the five attempts to record a failure
  -- is not lost before it writes.
  pub run_execution-IsClosed :
      (s : Store)
      → Alive id s.ledger
      → Lands at.fail_cut more_stage_attempts 1
      → IsClosed id (run_execution service at id thread s).1.ledger
  run_execution-IsClosed s a lands =
      let done = stages service at id thread s in
      let staged : StagedAs done = stages-StagedAs s a in
      elim (Ended-cases done.0) [
        | inr (x, e) ↦
            let end : (run_execution service at id thread s).1 ≡ done.1 =
              unfold run_execution in ground (arith, Awaited-cases x) in
            rw end (staged.1 x e)
        | inl (f, e) ↦
            let end : (run_execution service at id thread s).1
                ≡ (fail_attempts service at id f done.1).1 =
              unfold run_execution in ground arith in
            rw end (fail_attempts-IsClosed service at id f done.1 staged.0 lands)
      ]
