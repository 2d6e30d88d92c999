-- ===== src/ChatTurns/Drain.antt =====
-- `ChatThreadWorkflow` of src/tracer_agent/worker/workflows/chat_workflows.py: the queue of a thread
-- is run down, one child workflow at a time. A child's identifier is the execution's, and a closed
-- or running workflow's identifier is not started again (REJECT_DUPLICATE).
use tracer_agent_python.Prelude.{
  ℕ, zero, suc, ◌+◌, Bool, false, Option, none, some, List, ◌∷◌, ◌==◌, if◌then◌else◌, leb, any,
}
use tracer_agent_python.ChatLedger.Statements.{next_queued_in_thread}
use tracer_agent_python.ChatTurns.Tables.{Store}

-- A child workflow of an execution, and whether it ends without an error.
abbrev pub Child : Type 0
Child = ℕ → Store → Bool × Store

-- The workflow's state: what it last failed at, how many children it completed, the identifiers
-- of the workflows that were started, and whether a signal is waiting.
pub record ThreadState : Type 0 where
  pub last_failed : Option ℕ
  pub completed : ℕ
  pub started : List ℕ
  pub wake : Bool
  pub store : Store

-- How a drain ends: the queue is empty, the same execution failed again, the workflow continues as
-- a new one, or the fuel is used up.
pub data DrainEnd : Type 0 where
  emptied failed_again continued unfinished : DrainEnd

-- `_run_child`
unfoldable pub run_child : Child → ℕ → ThreadState → Bool × ThreadState
run_child child id t =
    if any (λ k. k == id) t.started
    then (false, t)
    else ((child id t.store).0, record t { started = id ∷ t.started; store = (child id t.store).1 })

-- The state after a child: a completed one is counted, a failed one remembered.
unfoldable pub after_child : Child → ℕ → ThreadState → Bool × ThreadState
unfolding run_child
after_child child id t =
    let (settled, u) = run_child child id t in
    (
      settled,
      if settled
          then record u { last_failed = none; completed = u.completed + 1 }
          else record u { last_failed = some id },
    )

abbrev pub is_last_failed : ℕ → Option ℕ → Bool
is_last_failed id none = false
is_last_failed id (some last) = last == id

-- `_drain`, with THREAD_MAX_CHILDREN and fuel.
unfoldable pub drain : ℕ → Child → ℕ → ℕ → ThreadState → DrainEnd × ThreadState
unfolding next_queued_in_thread after_child
drain max_children child thread_id zero t = (unfinished, t)
drain max_children child thread_id (suc fuel) t =
    elim (next_queued_in_thread thread_id t.store.ledger) [
      | none ↦ (emptied, t)
      | some id ↦
          if is_last_failed id t.last_failed
          then (failed_again, t)
          else (let next = after_child child id t in
              let rest = drain max_children child thread_id fuel next.1 in
              if next.0
              then if leb max_children next.1.completed then (continued, next.1) else rest
              else rest)
    ]

-- The workflow that continues: it has the queue's store and none of the old one's memory.
unfoldable pub continue_as_new : ThreadState → ThreadState
continue_as_new t = record t { last_failed = none; completed = 0; wake = false }

-- One round of `run`: without a signal in time the workflow returns, else it drains.
unfoldable pub thread_round : ℕ → Child → ℕ → ℕ → ThreadState → Option (DrainEnd × ThreadState)
unfolding drain
thread_round max_children child thread_id fuel t =
    if t.wake
    then some
        (drain max_children child thread_id fuel (record t { wake = false; last_failed = none }))
    else none
