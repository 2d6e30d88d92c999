-- ===== src/ChatTurns/Settling.antt =====
-- The settlement of a turn closes its execution (`_settle` of `ChatExecutionWorkflow`,
-- src/tracer_agent/worker/workflows/chat_workflows.py, with the activity of chat_activities.py there).
use mathlib.Core.Path.{subst}
use tracer_agent_python.Prelude.{
  ℕ, zero, suc, ◌+◌, ◌≡◌, refl, sym, ◌∙◌, ap, Bool, false, not, arith, ◌&&◌, any, ◌⊎◌, Bool-cases,
  inl, inr,
}
use tracer_agent_python.ChatTurns.Tables.{Store, ChatTurnOutcome}
use tracer_agent_python.ChatTurns.Ended.{Ended, Ended-cases, Fault, returned, raised}
use tracer_agent_python.ChatTurns.Writer.{finalize}
use tracer_agent_python.ChatTurns.Insertion.{observing, finalize-unobserved}
use tracer_agent_python.ChatTurns.Redelivery.{
  HasDone, finalize_done, observations-IsSerial, find-observations,
}
use tracer_agent_python.ChatTurns.Turn.{GeneratedChatExecution, ledger_outcome}
use tracer_agent_python.ChatTurns.Activities.{Service, finalize_turn}
use tracer_agent_python.ChatTurns.Lives.{IsRunning, IsClosed}
use tracer_agent_python.ChatTurns.Tried.{Fits}
use tracer_agent_python.ChatTurns.Execution.{attempts, is_retryable}
use tracer_agent_python.ChatTurns.Finals.{finalize-FinalAs}

-- A store after the start of a settlement: the execution still runs, or is done.
abbrev pub Settling : ℕ → ℕ → Store → Type 0
Settling id user s = IsRunning id user s.ledger ⊎ HasDone id s

pub done-IsClosed : (id : ℕ) (s : Store) → HasDone id s → IsClosed id s.ledger
done-IsClosed id s d = record {
  serial = d.serial;
  row = d.row;
  found = d.found;
  over = d.is_done.terminal;
}

-- A finalization of a done execution leaves it done.
finalize-HasDone :
    (o : ChatTurnOutcome) (now : ℕ) (s : Store)
    → HasDone o.execution_id s
    → HasDone o.execution_id (finalize o now s).1
finalize-HasDone o now s d = elim (Ended-cases (observing o now s)) [
  | inl (f, e) ↦ rw (finalize-unobserved o now s f e) d
  | inr (obs, e) ↦ rw (finalize_done o now s obs d e) (record {
    serial = observations-IsSerial s.ledger obs d.serial;
    row = d.row;
    found = find-observations o.execution_id s.ledger obs ∙ d.found;
    is_done = d.is_done;
  })
]

module _ (service : Service) (id user : ℕ) (g : GeneratedChatExecution)
    (fits : Fits service id user g) where
  -- A settlement goes on from a running or done execution to such a one, and returns only once it
  -- is done.
  abbrev pub SettledAs : Ended (Unit {0}) × Store → Type 0
  SettledAs z = Settling id user z.1 × (z.0 ≡ returned tt → HasDone id z.1)

  not_skipped : (g.canceled && not (any (λ c. not (service.is_space c)) g.text)) ≡ false
  not_skipped = elim (Bool-cases g.canceled) [
    | inl c ↦ rw (c, fits.spoken c) refl
    | inr c ↦ rw c refl
  ]

  abbrev final : ℕ → Store → Ended Bool × Store
  final now s = finalize (ledger_outcome g) now s

  turn_raised :
      (now n : ℕ) (s : Store) (f : Fault)
      → (final now s).0 ≡ raised f
      → finalize_turn service g now n s ≡ (raised f, (final now s).1)
  turn_raised now n s f e = unfold finalize_turn in rw not_skipped (ground arith)

  turn_store : (now n : ℕ) (s : Store) → (finalize_turn service g now n s).1 ≡ (final now s).1
  turn_store now n s = unfold finalize_turn in rw not_skipped (ground arith)

  turn_done :
      (now n : ℕ) (s : Store)
      → HasDone id (final now s).1
      → SettledAs (finalize_turn service g now n s)
  turn_done now n s d = rw (turn_store now n s) (inr d, λ h. d)

  finalize_turn-SettledAs :
      (now n : ℕ) (s : Store) → Settling id user s → SettledAs (finalize_turn service g now n s)
  finalize_turn-SettledAs now n s (inr d) =
      let its : (ledger_outcome g).execution_id ≡ id =
        unfold ledger_outcome in fits.its_execution in
      let d' : HasDone (ledger_outcome g).execution_id s = subst (λ k. HasDone k s) (sym its) d in
      turn_done now n s
        (subst (λ k. HasDone k (final now s).1) its (finalize-HasDone (ledger_outcome g) now s d'))
  finalize_turn-SettledAs now n s (inl w) = elim (finalize-FinalAs service id user g fits now s w) [
    | inl (f, e) ↦
        let end : finalize_turn service g now n s ≡ (raised f, s) =
          turn_raised now n s f (ap (λ z. z.0) e)
          ∙ ap (λ (z : Ended Bool × Store). (raised f, z.1)) e in
        rw end (inl w, λ h. absurd (ground arith))
    | inr done ↦ turn_done now n s done.1
  ]

  pub settle-SettledAs :
      (at : ℕ → ℕ) (more n : ℕ) (s : Store)
      → Settling id user s
      → SettledAs (attempts more n (λ k. finalize_turn service g (at k) k) s)
  settle-SettledAs at zero n s a = unfold attempts in finalize_turn-SettledAs (at n) n s a
  settle-SettledAs at (suc more) n s a =
      let activity = λ (k : ℕ). finalize_turn service g (at k) k in
      let tried = activity n s in
      let first : SettledAs tried = finalize_turn-SettledAs (at n) n s a in
      let later = attempts more (n + 1) activity tried.1 in
      let rest : SettledAs later = settle-SettledAs at more (n + 1) tried.1 first.0 in
      elim (Ended-cases tried.0) [
        | inr (u, e) ↦
            let end : attempts (suc more) n activity s ≡ tried = unfold attempts in ground arith in
            rw end first
        | inl (f, e) ↦ elim (Bool-cases (is_retryable f)) [
          | inl b ↦
              let end : attempts (suc more) n activity s ≡ later =
                unfold attempts in ground arith in
              rw end rest
          | inr b ↦
              let end : attempts (suc more) n activity s ≡ tried =
                unfold attempts in ground arith in
              rw end first
        ]
      ]
