-- ===== src/ChatTurns/Attempted.antt =====
-- The attempts to generate a turn (src/tracer_agent/worker/workflows/chat_activities.py,
-- chat_workflows.py there) keep its execution running, and what they return fits it.
use tracer_agent_python.Prelude.{
  ℕ, zero, suc, ◌+◌, ◌≡◌, refl, Bool, true, false, some, arith, ◌⊎◌, if◌then◌else◌, Bool-cases,
  Option-cases, inl, inr,
}
use tracer_agent_python.ChatLedger.Statements.{begin_attempt}
use tracer_agent_python.ChatTurns.Tables.{Store}
use tracer_agent_python.ChatTurns.Ended.{
  Ended-cases, Fault, returned, raised, no_envelope, pure, raise,
}
use tracer_agent_python.ChatTurns.Turn.{ChatRequest, PreparedChatExecution, turn_request}
use tracer_agent_python.ChatTurns.Activities.{Service, begin, after_run, generate}
use tracer_agent_python.ChatTurns.Lives.{IsRunning, begin-IsRunning}
use tracer_agent_python.ChatTurns.Execution.{attempts, is_retryable}
use tracer_agent_python.ChatTurns.Tried.{Speaks, GeneratedAs, after_run-GeneratedAs}

pure_or_raise :
    (b : Bool) (r : ChatRequest) (e : Fault) (s : Store)
    → ((f : Fault) × ((if b then pure r else raise e) s ≡ (raised f, s)))
      ⊎ ((q : ChatRequest) × ((if b then pure r else raise e) s ≡ (returned q, s)))
pure_or_raise true r e s = inr (r, refl)
pure_or_raise false r e s = inl (e, refl)

module _ (service : Service) (speaks : Speaks service) (id user : ℕ) where
  begun-IsRunning :
      (n now : ℕ) (s : Store)
      → IsRunning id user s.ledger
      → IsRunning id user (begin id n now s).1.ledger
  begun-IsRunning n now s w =
      let end : (begin id n now s).1.ledger ≡ (begin_attempt id n now s.ledger).1 =
        unfold begin in ground arith in
      rw end (begin-IsRunning id user n now s.ledger w)

  -- An attempt keeps the execution running, and what it returns fits.
  module _ (p : PreparedChatExecution) (its_execution : p.execution_id ≡ id)
      (its_user : p.user_id ≡ user) where
    begun-GeneratedAs :
        (envelope request : ChatRequest) (begun_at observed_at n : ℕ) (s : Store)
        → service.issue p.execution_id n ≡ some envelope
        → turn_request service.validates p envelope s ≡ (returned request, s)
        → IsRunning id user s.ledger
        → GeneratedAs service speaks id user (generate service p begun_at observed_at n s)
    begun-GeneratedAs envelope request begun_at observed_at n s issue asked w =
        let b = begin p.execution_id n begun_at s in
        let still : IsRunning id user b.1.ledger =
          rw its_execution (begun-IsRunning n begun_at s w) in
        elim (Ended-cases b.0) [
          | inl (f, e) ↦
              let end : generate service p begun_at observed_at n s ≡ (raised f, b.1) =
                unfold generate in ground arith in
              rw end (still, λ g h. absurd (ground arith))
          | inr (u, e) ↦
              let end : generate service p begun_at observed_at n s
                  ≡ after_run service p n observed_at request (service.run_chat request n) b.1 =
                unfold generate in ground arith in
              rw end (
                after_run-GeneratedAs service speaks id user p its_execution its_user n observed_at
                  request b.1 still (service.run_chat request n) (speaks request n))
        ]

    turn_request_ends :
        (envelope : ChatRequest) (s : Store)
        → ((f : Fault) × (turn_request service.validates p envelope s ≡ (raised f, s)))
          ⊎ ((r : ChatRequest) × (turn_request service.validates p envelope s ≡ (returned r, s)))
    turn_request_ends envelope s = unfold turn_request in pure_or_raise _ _ _ s

    pub generate-GeneratedAs :
        (begun_at observed_at n : ℕ) (s : Store)
        → IsRunning id user s.ledger
        → GeneratedAs service speaks id user (generate service p begun_at observed_at n s)
    generate-GeneratedAs begun_at observed_at n s w =
        elim (Option-cases (service.issue p.execution_id n)) [
          | inl e ↦
              let end : generate service p begun_at observed_at n s ≡ (raised no_envelope, s) =
                unfold generate in ground arith in
              rw end (w, λ g h. absurd (ground arith))
          | inr (envelope, e) ↦ elim (turn_request_ends envelope s) [
            | inl (f, h) ↦
                let end : generate service p begun_at observed_at n s ≡ (raised f, s) =
                  unfold generate in ground arith in
                rw end (w, λ g k. absurd (ground arith))
            | inr (request, h) ↦ begun-GeneratedAs envelope request begun_at observed_at n s e h w
          ]
        ]

    pub attempts-GeneratedAs :
        (begun_at observed_at : ℕ → ℕ) (more n : ℕ) (s : Store)
        → IsRunning id user s.ledger
        → GeneratedAs service speaks id user
            (attempts more n (λ k. generate service p (begun_at k) (observed_at k) k) s)
    attempts-GeneratedAs begun_at observed_at zero n s w =
        unfold attempts in generate-GeneratedAs (begun_at n) (observed_at n) n s w
    attempts-GeneratedAs begun_at observed_at (suc more) n s w =
        let activity = λ (k : ℕ). generate service p (begun_at k) (observed_at k) k in
        let tried = activity n s in
        let first : GeneratedAs service speaks id user tried =
          generate-GeneratedAs (begun_at n) (observed_at n) n s w in
        let later = attempts more (n + 1) activity tried.1 in
        let rest : GeneratedAs service speaks id user later =
          attempts-GeneratedAs begun_at observed_at more (n + 1) tried.1 first.0 in
        elim (Ended-cases tried.0) [
          | inr (g, e) ↦
              let end : attempts (suc more) n activity s ≡ tried =
                unfold attempts in ground arith in
              rw end first
          | inl (f, e) ↦ elim (Bool-cases (is_retryable f)) [
            | inl b ↦
                let end : attempts (suc more) n activity s ≡ later =
                  unfold attempts in ground arith in
                rw end rest
            | inr b ↦
                let end : attempts (suc more) n activity s ≡ tried =
                  unfold attempts in ground arith in
                rw end first
          ]
        ]
