-- ===== src/ChatLedger/Claim.antt =====
-- The unique index lets a claim start an execution only in a thread that is idle.
use native.Mathlib.Decide.{dec_le}
use tracer_agent_python.Prelude.{
  ℕ, ◌+◌, ◌≤◌, ◌≡◌, refl, inl, inr, Bool, true, false, List, [], ◌∷◌, arith, any, ◌==◌, ◌&&◌,
  Bool-cases,
}
use tracer_agent_python.ChatLedger.Rows.{Execution, Ledger, is_running}
use tracer_agent_python.ChatLedger.Update.{update_rows, count_rows}
use tracer_agent_python.ChatLedger.Statements.{
  claim_queued, is_claimable, take_seat, breaks_index, thread_running,
}
use tracer_agent_python.ChatLedger.Serial.{IsSerial, runs_in, has_id, count-ids}

idle_here :
    (id : ℕ) (rows : List Execution) (r : Execution)
    → (is_claimable id r && thread_running r.thread_id rows) ≡ false
    → is_claimable id r ≡ true
    → thread_running r.thread_id rows ≡ false
idle_here id rows r free hit = ground arith

module _ (id now thread : ℕ) where
  starts_here : Execution → Bool
  starts_here r = is_claimable id r && r.thread_id == thread

  count-claim :
      (rs : List Execution)
      → count_rows (runs_in thread) (update_rows (is_claimable id) (take_seat now) rs)
        ≤ count_rows (runs_in thread) rs + count_rows starts_here rs
  unfolding count_rows update_rows take_seat starts_here is_running
  count-claim [] = omega arith
  count-claim (r ∷ rs) = ground (arith, count-claim rs)

  starts-le-ids : (rs : List Execution) → count_rows starts_here rs ≤ count_rows (has_id id) rs
  unfolding count_rows starts_here is_claimable
  starts-le-ids [] = omega arith
  starts-le-ids (r ∷ rs) = ground (arith, starts-le-ids rs)

  -- Where the index lets the claim pass, a thread in which it starts something was idle.
  idle_before :
      (rows rs : List Execution)
      → any (λ (r : Execution). is_claimable id r && thread_running r.thread_id rows) rs ≡ false
      → 1 ≤ count_rows starts_here rs
      → thread_running thread rows ≡ false
  unfolding count_rows starts_here
  idle_before rows [] free h = absurd (omega arith)
  idle_before rows (r ∷ rs) free h =
      elim (Bool-cases (is_claimable id r && r.thread_id == thread)) [
        | inl here ↦
            let same : r.thread_id ≡ thread = ground arith in
            rw same at (idle_here id rows r (ground arith) (ground arith))
        | inr elsewhere ↦ idle_before rows rs (ground arith) (ground arith)
      ]

  running-zero :
      (rs : List Execution) → thread_running thread rs ≡ false → count_rows (runs_in thread) rs ≡ 0
  unfolding thread_running count_rows
  running-zero [] h = refl
  running-zero (r ∷ rs) h = ground (arith, running-zero rs)

-- The answer `thread_busy` leaves the ledger as it was.
pub claim-IsSerial : (id now : ℕ) (db : Ledger) → IsSerial db → IsSerial (claim_queued id now db).1
unfolding claim_queued
claim-IsSerial id now db h = elim (Bool-cases (breaks_index id db.executions)) [
  | inl busy ↦ rw busy h
  | inr free ↦ rw free (record {
    one_row = λ k. omega (
      arith,
      count-ids (is_claimable id) (take_seat now) (λ r. refl) k db.executions,
      h.one_row k,
    );
    one_running = λ t. claimed_bound t free;
  })
]
  where
    claimed_bound :
        (t : ℕ)
        → breaks_index id db.executions ≡ false
        → count_rows (runs_in t) (update_rows (is_claimable id) (take_seat now) db.executions) ≤ 1
    claimed_bound t free = elim (dec_le 1 (count_rows (starts_here id now t) db.executions)) [
      | yes some_start ↦ omega (
        arith,
        count-claim id now t db.executions,
        starts-le-ids id now t db.executions,
        running-zero id now t db.executions
            (idle_before id now t db.executions db.executions free some_start),
        h.one_row id,
      )
      | no none_start ↦ omega (arith, count-claim id now t db.executions, h.one_running t)
    ]
