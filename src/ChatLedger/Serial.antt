-- ===== src/ChatLedger/Serial.antt =====
-- One running execution a thread: the invariant behind the turn queue of
-- src/tracer_agent/worker/workflows/chat_workflows.py.
use tracer_agent_python.Prelude.{
  ℕ, ◌≤◌, ◌≡◌, refl, inl, inr, Bool, true, List, [], ◌∷◌, arith, ◌==◌, ◌&&◌, Bool-cases,
}
use tracer_agent_python.ChatLedger.Rows.{Execution, Ledger, is_running}
use tracer_agent_python.ChatLedger.Update.{update_rows, count_rows}

abbrev pub runs_in : ℕ → Execution → Bool
runs_in thread r = r.thread_id == thread && is_running r.status

abbrev pub has_id : ℕ → Execution → Bool
has_id key r = r.id == key

-- The primary key and the partial unique index of `chat_executions`.
pub record IsSerial (db : Ledger) : Type 0 where
  pub one_row : (key : ℕ) → count_rows (has_id key) db.executions ≤ 1
  pub one_running : (thread : ℕ) → count_rows (runs_in thread) db.executions ≤ 1

-- A change that a statement makes where it starts nothing.
pub record IsQuiet (r s : Execution) : Type 0 where
  pub id_kept : s.id ≡ r.id
  pub thread_kept : s.thread_id ≡ r.thread_id
  pub starts_nothing : is_running s.status ≡ true → is_running r.status ≡ true

module _ (test : Execution → Bool) (change : Execution → Execution) where
  pub count-ids :
      (quiet : (r : Execution) → (change r).id ≡ r.id) (key : ℕ) (rs : List Execution)
      → count_rows (has_id key) (update_rows test change rs) ≡ count_rows (has_id key) rs
  unfolding count_rows update_rows
  count-ids quiet key [] = refl
  count-ids quiet key (r ∷ rs) = ground (arith, quiet r, count-ids quiet key rs)

  count-running :
      (quiet : (r : Execution) → test r ≡ true → IsQuiet r (change r)) (thread : ℕ)
      (rs : List Execution)
      → count_rows (runs_in thread) (update_rows test change rs) ≤ count_rows (runs_in thread) rs
  unfolding count_rows update_rows
  count-running quiet thread [] = omega arith
  count-running quiet thread (r ∷ rs) = elim (Bool-cases (test r)) [
    | inl hit ↦ rw hit (grind (arith, quiet r hit, count-running quiet thread rs))
    | inr miss ↦ rw miss (ground (arith, count-running quiet thread rs))
  ]

  pub update-IsSerial :
      (db : Ledger)
      → ((r : Execution) → (change r).id ≡ r.id)
      → ((r : Execution) → test r ≡ true → IsQuiet r (change r))
      → IsSerial db
      → IsSerial (record db { executions = update_rows test change db.executions })
  update-IsSerial db ids quiet h = record {
    one_row = λ k. omega (arith, count-ids ids k db.executions, h.one_row k);
    one_running = λ t. omega (arith, count-running quiet t db.executions, h.one_running t);
  }
