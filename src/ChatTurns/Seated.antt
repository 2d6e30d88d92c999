-- ===== src/ChatTurns/Seated.antt =====
-- What the preparation of a turn does to its execution
-- (src/tracer_agent/worker/workflows/chat_activities.py and chat_workflows.py there): it stays
-- alive, and runs if the preparation returns.
use mathlib.Core.Path.{subst}
use tracer_agent_python.Prelude.{
  ℕ, zero, suc, ◌+◌, ◌-◌, ◌≡◌, refl, sym, ◌∙◌, ap, false, some, arith, ◌==◌, Bool-cases, inl, inr,
}
use tracer_agent_python.ChatLedger.Rows.{Execution, is_queued, is_running}
use tracer_agent_python.ChatLedger.Statements.{find_by_id, claim_queued, recover_stale_running}
use tracer_agent_python.ChatTurns.Tables.{Store}
use tracer_agent_python.ChatTurns.Ended.{Ended, Ended-cases, Fault, returned, raised, returned-inj}
use tracer_agent_python.ChatTurns.Turn.{PreparedChatExecution}
use tracer_agent_python.ChatTurns.Activities.{
  Readings, is_busy, recover_and_claim, take_running_seat, running_row, seated_row, claim_row,
  prepared_from, prepare,
}
use tracer_agent_python.ChatTurns.Lives.{IsRunning, Alive, claim-Alive, recover-Alive}
use tracer_agent_python.ChatTurns.Execution.{
  Schedule, Awaited, arrived, is_thread_busy, prepare_rounds,
}

module _ (lease_s id thread : ℕ) (at : Readings) where
  recover_and_claim-Alive :
      (s : Store) → Alive id s.ledger → Alive id (recover_and_claim lease_s id thread at s).1.ledger
  recover_and_claim-Alive s a =
      let r = recover_stale_running (at.second - lease_s) at.second (some thread) s.ledger in
      let first : Alive id r.1 =
        recover-Alive id (at.second - lease_s) at.second (some thread) s.ledger a in
      elim (Bool-cases (r.0 == 0)) [
        | inl e ↦
            let end : (recover_and_claim lease_s id thread at s).1.ledger ≡ r.1 =
              unfold recover_and_claim in rw e refl in
            rw end first
        | inr e ↦
            let end : (recover_and_claim lease_s id thread at s).1.ledger
                ≡ (claim_queued id at.third r.1).1 =
              unfold recover_and_claim in ground arith in
            rw end (claim-Alive id at.third r.1 first)
      ]

  take_running_seat-Alive :
      (s : Store) → Alive id s.ledger → Alive id (take_running_seat lease_s id thread at s).1.ledger
  unfolding take_running_seat
  take_running_seat-Alive s a =
      let c = claim_queued id at.first s.ledger in
      let t : Store = record s { ledger = c.1 } in
      let first : Alive id c.1 = claim-Alive id at.first s.ledger a in
      elim (Bool-cases (is_busy c.0)) [
        | inl e ↦ rw e (recover_and_claim-Alive t first)
        | inr e ↦ rw e first
      ]

  -- A preparation keeps the execution alive; what it returns is of this execution, which runs.
  abbrev pub PreparedAs : Ended PreparedChatExecution × Store → Type 0
  PreparedAs z =
      Alive id z.1.ledger
      × ((p : PreparedChatExecution)
          → z.0 ≡ returned p
          → (p.execution_id ≡ id) × IsRunning id p.user_id z.1.ledger)

  abbrev RowAs : Ended Execution × Store → Type 0
  RowAs z =
      Alive id z.1.ledger × ((r : Execution) → z.0 ≡ returned r → IsRunning id r.user_id z.1.ledger)

  running_row-RowAs :
      (s : Store) → Alive id s.ledger → RowAs (running_row (find_by_id id s.ledger) s)
  running_row-RowAs s (inl w) =
      let e : is_running w.row.status ≡ false =
        unfold is_queued is_running in ground (arith, w.waits) in
      rw (w.found, e) (inl w, λ r h. absurd cc)
  running_row-RowAs s (inr (user, w)) =
      rw (w.found, w.runs)
        (
          inr (user, w),
          λ r h.
              let same : w.row ≡ r = ground arith in
              let its : user ≡ r.user_id =
                sym w.its_user ∙ ap (λ (q : Execution). q.user_id) same in
              subst (λ u. IsRunning id u s.ledger) its w,
        )

  seated_row-RowAs : (s : Store) → Alive id s.ledger → RowAs (seated_row lease_s id thread at s)
  seated_row-RowAs s a =
      let t = take_running_seat lease_s id thread at s in
      let first : Alive id t.1.ledger = take_running_seat-Alive s a in
      elim (Ended-cases t.0) [
        | inl (f, e) ↦
            let end : seated_row lease_s id thread at s ≡ (raised f, t.1) =
              unfold seated_row in ground arith in
            rw end (first, λ r h. absurd cc)
        | inr (u, e) ↦
            let end : seated_row lease_s id thread at s
                ≡ running_row (find_by_id id t.1.ledger) t.1 =
              unfold seated_row in ground arith in
            rw end (running_row-RowAs t.1 first)
      ]

  claim_row-RowAs :
      (s : Store)
      → Alive id s.ledger
      → RowAs (claim_row lease_s id thread at (find_by_id id s.ledger) s)
  claim_row-RowAs s (inl w) =
      let end : claim_row lease_s id thread at (find_by_id id s.ledger) s
          ≡ seated_row lease_s id thread at s =
        unfold claim_row in rw (w.found, w.waits) refl in
      rw end (seated_row-RowAs s (inl w))
  claim_row-RowAs s (inr (user, w)) =
      let e : is_queued w.row.status ≡ false =
        unfold is_queued is_running in ground (arith, w.runs) in
      let end : claim_row lease_s id thread at (find_by_id id s.ledger) s
          ≡ running_row (find_by_id id s.ledger) s =
        unfold claim_row in rw (w.found, e) refl in
      rw end (running_row-RowAs s (inr (user, w)))

  pub prepare-PreparedAs :
      (s : Store) → Alive id s.ledger → PreparedAs (prepare lease_s id thread at s)
  prepare-PreparedAs s a =
      let c = claim_row lease_s id thread at (find_by_id id s.ledger) s in
      let row : RowAs c = claim_row-RowAs s a in
      elim (Ended-cases c.0) [
        | inl (f, e) ↦
            let end : prepare lease_s id thread at s ≡ (raised f, c.1) =
              unfold prepare in ground arith in
            rw end (row.0, λ p h. absurd cc)
        | inr (r, e) ↦
            let end : prepare lease_s id thread at s ≡ (returned (prepared_from id r), c.1) =
              unfold prepare in ground arith in
            rw end (
              row.0,
              λ p h.
                  let same : prepared_from id r ≡ p = ground arith in
                  subst (λ q. (q.execution_id ≡ id) × IsRunning id q.user_id c.1.ledger) same
                    (unfold prepared_from in (refl, row.1 r e)),
            )
      ]

-- Others that write in a wait keep the execution alive, and no wait is cancelled.
module _ (id thread : ℕ) (at : Schedule)
    (kept : (k : ℕ) (s : Store) → Alive id s.ledger → Alive id (at.meanwhile k s).ledger)
    (waits : (k : ℕ) → at.canceled_wait k ≡ false) where
  -- The rounds keep the execution alive; they return only what was prepared for it, and it runs.
  abbrev pub RoundsAs : Ended (Awaited PreparedChatExecution) × Store → Type 0
  RoundsAs z =
      Alive id z.1.ledger
      × ((x : Awaited PreparedChatExecution)
          → z.0 ≡ returned x
          → (p : PreparedChatExecution) × (x ≡ arrived p)
            × (p.execution_id ≡ id)
            × IsRunning id p.user_id z.1.ledger)

  raised-RoundsAs : (f : Fault) (s : Store) → Alive id s.ledger → RoundsAs (raised f, s)
  raised-RoundsAs f s a = (a, λ x h. absurd (ground arith))

  prepared-RoundsAs :
      (p : PreparedChatExecution) (s : Store)
      → Alive id s.ledger
      → (p.execution_id ≡ id) × IsRunning id p.user_id s.ledger
      → RoundsAs (returned (arrived p), s)
  prepared-RoundsAs p s a runs =
      (a, λ x h. let same : arrived p ≡ x = returned-inj _ _ h in (p, sym same, runs.0, runs.1))

  pub prepare_rounds-RoundsAs :
      (more round : ℕ) (s : Store)
      → Alive id s.ledger
      → RoundsAs (prepare_rounds at id thread more round s)
  prepare_rounds-RoundsAs zero round s a =
      let tried = prepare at.lease_s id thread (at.seats_at round) s in
      let first : PreparedAs at.lease_s id thread (at.seats_at round) tried =
        prepare-PreparedAs at.lease_s id thread (at.seats_at round) s a in
      elim (Ended-cases tried.0) [
        | inr (p, e) ↦
            let end : prepare_rounds at id thread zero round s ≡ (returned (arrived p), tried.1) =
              unfold prepare_rounds in ground arith in
            rw end (prepared-RoundsAs p tried.1 first.0 (first.1 p e))
        | inl (f, e) ↦
            let end : prepare_rounds at id thread zero round s ≡ (raised f, tried.1) =
              unfold prepare_rounds in ground arith in
            rw end (raised-RoundsAs f tried.1 first.0)
      ]
  prepare_rounds-RoundsAs (suc more) round s a =
      let tried = prepare at.lease_s id thread (at.seats_at round) s in
      let first : PreparedAs at.lease_s id thread (at.seats_at round) tried =
        prepare-PreparedAs at.lease_s id thread (at.seats_at round) s a in
      let later = prepare_rounds at id thread more (round + 1) (at.meanwhile round tried.1) in
      let rest : RoundsAs later =
        prepare_rounds-RoundsAs more (round + 1) (at.meanwhile round tried.1)
          (kept round tried.1 first.0) in
      elim (Ended-cases tried.0) [
        | inr (p, e) ↦
            let end : prepare_rounds at id thread (suc more) round s
                ≡ (returned (arrived p), tried.1) =
              unfold prepare_rounds in ground arith in
            rw end (prepared-RoundsAs p tried.1 first.0 (first.1 p e))
        | inl (f, e) ↦ elim (Bool-cases (is_thread_busy f)) [
          | inl b ↦
              let end : prepare_rounds at id thread (suc more) round s ≡ later =
                unfold prepare_rounds in ground (arith, waits round) in
              rw end rest
          | inr b ↦
              let end : prepare_rounds at id thread (suc more) round s ≡ (raised f, tried.1) =
                unfold prepare_rounds in ground arith in
              rw end (raised-RoundsAs f tried.1 first.0)
        ]
      ]
