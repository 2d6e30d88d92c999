-- ===== src/ChatTurns/DrainEnds.antt =====
-- The drain of a thread ends (`ChatThreadWorkflow._drain` of
-- src/tracer_agent/worker/workflows/chat_workflows.py), whatever its children do.
use tracer_agent_python.Prelude.{
  ℕ, zero, suc, ◌+◌, ◌≤◌, ◌≡◌, refl, ap, Bool, true, false, Option, some, none, List, [], ◌∷◌,
  arith, ◌==◌, any, if◌then◌else◌, leb, leb→le, Bool-cases, Option-cases, inl, inr, ==_refl, ==_iff,
}
use tracer_agent_python.ChatLedger.Rows.{Execution, Ledger}
use tracer_agent_python.ChatLedger.Update.{select_rows, earliest}
use tracer_agent_python.ChatLedger.Statements.{next_queued_in_thread, waits_in}
use tracer_agent_python.ChatTurns.Tables.{Store}
use tracer_agent_python.ChatTurns.Drain.{
  Child, ThreadState, DrainEnd, emptied, failed_again, continued, unfinished, run_child,
  after_child, is_last_failed, drain,
}

abbrev pub ids : List Execution → List ℕ
ids [] = []
ids (r ∷ rs) = r.id ∷ ids rs

abbrev pub has : ℕ → List ℕ → Bool
has id ks = any (λ k. k == id) ks

earliest-has :
    (rs : List Execution) (r : Execution) → earliest rs ≡ some r → has r.id (ids rs) ≡ true
unfolding earliest
earliest-has [] r h = absurd cc
earliest-has (q ∷ rs) r h = elim (Option-cases (earliest rs)) [
  | inl e ↦ let same : q ≡ r = ground arith in rw (← same, ==_refl q.id) refl
  | inr (s, e) ↦ ground (arith, earliest-has rs s e, ==_refl q.id)
]

select-has :
    (test : Execution → Bool) (id : ℕ) (rs : List Execution)
    → has id (ids (select_rows test rs)) ≡ true
    → has id (ids rs) ≡ true
unfolding select_rows
select-has test id [] h = h
select-has test id (r ∷ rs) h = ground (arith, select-has test id rs)

next-has :
    (thread id : ℕ) (db : Ledger)
    → next_queued_in_thread thread db ≡ some id
    → has id (ids db.executions) ≡ true
unfolding next_queued_in_thread
next-has thread id db h =
    elim (Option-cases (earliest (select_rows (waits_in thread) db.executions))) [
      | inl e ↦ absurd (ground arith)
      | inr (r, e) ↦
          let same : r.id ≡ id = ground arith in
          select-has (waits_in thread) id db.executions
            (rw same at (earliest-has (select_rows (waits_in thread) db.executions) r e))
    ]

-- How many executions have no workflow yet.
abbrev pub unstarted : List ℕ → List ℕ → ℕ
unstarted started [] = 0
unstarted started (k ∷ ks) = (if has k started then 0 else 1) + unstarted started ks

unstarted-le : (id : ℕ) (started ks : List ℕ) → unstarted (id ∷ started) ks ≤ unstarted started ks
unstarted-le id started [] = omega arith
unstarted-le id started (k ∷ ks) = ground (arith, unstarted-le id started ks)

unstarted-lt :
    (id : ℕ) (started ks : List ℕ)
    → has id started ≡ false
    → has id ks ≡ true
    → unstarted (id ∷ started) ks + 1 ≤ unstarted started ks
unstarted-lt id started [] fresh h = absurd cc
unstarted-lt id started (k ∷ ks) fresh h = elim (Bool-cases (k == id)) [
  | inl e ↦
      let same : k ≡ id = (==_iff k id).0 e in
      rw (same, ==_refl id, fresh) (ground (arith, unstarted-le id started ks))
  | inr e ↦ ground (arith, unstarted-lt id started ks fresh)
]

-- Children neither add nor remove executions.
abbrev pub KeepsIds : Child → Type 0
KeepsIds child =
    (id : ℕ) (s : Store) → ids (child id s).1.ledger.executions ≡ ids s.ledger.executions

-- What the end of a drain tells of the queue.
abbrev pub TellsOf : ℕ → ℕ → DrainEnd → ThreadState → Type 0
TellsOf max_children thread emptied t = next_queued_in_thread thread t.store.ledger ≡ none
TellsOf max_children thread failed_again t =
    (id : ℕ) × (next_queued_in_thread thread t.store.ledger ≡ some id) × (t.last_failed ≡ some id)
TellsOf max_children thread continued t = max_children ≤ t.completed
TellsOf max_children thread unfinished t = ⊥

last_failed-eq : (id : ℕ) (last : Option ℕ) → is_last_failed id last ≡ true → last ≡ some id
last_failed-eq id none h = absurd cc
last_failed-eq id (some last) h = ap some ((==_iff last id).0 h)

module _ (max_children : ℕ) (child : Child) (thread : ℕ) (keeps : KeepsIds child) where
  abbrev Concludes : ℕ → ThreadState → Type 0
  Concludes fuel t =
      TellsOf max_children thread (drain max_children child thread fuel t).0
        (drain max_children child thread fuel t).1

  -- The ways in which a round of the loop goes.
  module _ (fuel id : ℕ) (t : ThreadState)
      (next : next_queued_in_thread thread t.store.ledger ≡ some id) where
    again_ends : is_last_failed id t.last_failed ≡ true → Concludes (suc fuel) t
    again_ends e =
        let end : drain max_children child thread (suc fuel) t ≡ (failed_again, t) =
          unfold drain in ground arith in
        rw end (id, next, last_failed-eq id t.last_failed e)

    continued_ends :
        is_last_failed id t.last_failed ≡ false
        → (after_child child id t).0 ≡ true
        → leb max_children (after_child child id t).1.completed ≡ true
        → Concludes (suc fuel) t
    continued_ends e a m =
        let u = (after_child child id t).1 in
        let end : drain max_children child thread (suc fuel) t ≡ (continued, u) =
          unfold drain in ground arith in
        rw end (leb→le max_children u.completed m)

    going_on :
        is_last_failed id t.last_failed ≡ false
        → ((after_child child id t).0 ≡ true
            → leb max_children (after_child child id t).1.completed ≡ false)
        → Concludes fuel (after_child child id t).1
        → Concludes (suc fuel) t
    going_on e m rest =
        let u = (after_child child id t).1 in
        let end : drain max_children child thread (suc fuel) t
            ≡ drain max_children child thread fuel u =
          unfold drain in ground arith in
        rw end rest

    round_ends :
        is_last_failed id t.last_failed ≡ false
        → Concludes fuel (after_child child id t).1
        → Concludes (suc fuel) t
    round_ends e rest = elim (Bool-cases (leb max_children (after_child child id t).1.completed)) [
      | inr m ↦ going_on e (λ a. m) rest
      | inl m ↦ elim (Bool-cases (after_child child id t).0) [
        | inl a ↦ continued_ends e a m
        | inr a ↦ going_on e (λ b. absurd (ground arith)) rest
      ]
    ]

  -- A child that may start takes its execution off the ones without a workflow; another fails.
  after_fresh :
      (id : ℕ) (t : ThreadState)
      → has id t.started ≡ false
      → has id (ids t.store.ledger.executions) ≡ true
      → unstarted
            (after_child child id t).1.started
            (ids (after_child child id t).1.store.ledger.executions)
          + 1
        ≤ unstarted t.started (ids t.store.ledger.executions)
  after_fresh id t fresh here =
      let grown : (after_child child id t).1.started ≡ id ∷ t.started =
        unfold after_child run_child in ground arith in
      let moved : (after_child child id t).1.store ≡ (child id t.store).1 =
        unfold after_child run_child in ground arith in
      rw (grown, moved, keeps id t.store)
        (unstarted-lt id t.started (ids t.store.ledger.executions) fresh here)

  after_started :
      (id : ℕ) (t : ThreadState)
      → has id t.started ≡ true
      → (after_child child id t).1 ≡ record t { last_failed = some id }
  unfolding after_child run_child
  after_started id t old = ground arith

  refused_ends :
      (fuel id : ℕ) (t : ThreadState)
      → next_queued_in_thread thread t.store.ledger ≡ some id
      → has id t.started ≡ true
      → Concludes (suc fuel) (after_child child id t).1
  refused_ends fuel id t next old =
      rw (after_started id t old)
        (again_ends fuel id (record t { last_failed = some id }) next (==_refl id))

  -- A drain with a round for each execution that has no workflow, and two more, ends, if its
  -- children neither add nor remove executions: the queue is empty, or its first execution failed
  -- twice in a row, or the most children completed.
  pub drain_ends :
      (fuel : ℕ) (t : ThreadState)
      → unstarted t.started (ids t.store.ledger.executions) + 2 ≤ fuel
      → Concludes fuel t
  drain_ends zero t h = absurd (omega arith)
  drain_ends (suc zero) t h = absurd (omega arith)
  drain_ends (suc (suc fuel)) t h =
      elim (Option-cases (next_queued_in_thread thread t.store.ledger)) [
        | inl none_left ↦
            let end : drain max_children child thread (suc (suc fuel)) t ≡ (emptied, t) =
              unfold drain in ground arith in
            rw end none_left
        | inr (id, next) ↦ elim (Bool-cases (is_last_failed id t.last_failed)) [
          | inl again ↦ again_ends (suc fuel) id t next again
          | inr other ↦
              round_ends (suc fuel) id t next other (elim (Bool-cases (has id t.started)) [
                | inl old ↦ refused_ends fuel id t next old
                | inr fresh ↦
                    drain_ends (suc fuel) (after_child child id t).1 (
                      omega
                        (arith, after_fresh id t fresh (next-has thread id t.store.ledger next)))
              ])
        ]
      ]
