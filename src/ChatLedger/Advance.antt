-- ===== src/ChatLedger/Advance.antt =====
-- The writes of src/tracer_agent/shared/agents/chat/execution_ledger.py only move executions forward.
use Prim.Native.String.{String}
use tracer_agent_python.Prelude.{
  ℕ, ◌≤◌, ◌≡◌, refl, ◌∙◌, inl, inr, Bool, true, Option, List, [], ◌∷◌, arith, Bool-cases,
}
use tracer_agent_python.ChatLedger.Rows.{
  Status, completed, Phase, Execution, Observation, ChatExecutionSpend, Ledger, is_terminal,
}
use tracer_agent_python.ChatLedger.Update.{update_rows}
use tracer_agent_python.ChatLedger.Statements.{
  recover_stale_running, is_stale, requeue, claim_queued, is_claimable, take_seat, breaks_index,
  begin_attempt, may_begin, open_attempt, checkpoint_running, may_checkpoint, write_draft,
  complete_running, may_complete, close_completed, record_canceled_outcome, may_record_canceled,
  close_canceled_outcome, fail_active, may_fail, close_failed, cancel_active, may_cancel,
  close_canceled,
}
use tracer_agent_python.ChatLedger.Requests.{
  Request, recover, claim, begin, checkpoint, complete, record_canceled, fail, cancel, after,
  after_all,
}
use tracer_agent_python.ChatLedger.Pairs.{Pairs, Pairs-refl, Pairs-update_rows, Pairs-trans}

-- What may become of one row: it stays the same execution, its attempt never falls, a terminal
-- status is final, and a row that completed or failed never changes again.
pub record Advances (r s : Execution) : Type 0 where
  pub same_id : s.id ≡ r.id
  pub same_thread : s.thread_id ≡ r.thread_id
  pub same_user : s.user_id ≡ r.user_id
  pub attempt_kept : r.attempt ≤ s.attempt
  pub terminal_kept : is_terminal r.status ≡ true → s.status ≡ r.status
  pub completed_kept : r.status ≡ completed → s ≡ r
  pub failed_kept : r.status ≡ Status.failed → s ≡ r

Advances-refl : (r : Execution) → Advances r r
Advances-refl r = ground arith

terminal_of_completed : (r : Execution) → r.status ≡ completed → is_terminal r.status ≡ true
unfolding is_terminal
terminal_of_completed r e = rw e refl

terminal_of_failed : (r : Execution) → r.status ≡ Status.failed → is_terminal r.status ≡ true
unfolding is_terminal
terminal_of_failed r e = rw e refl

Advances-trans : (r s t : Execution) → Advances r s → Advances s t → Advances r t
Advances-trans r s t h k = record {
  same_id = k.same_id ∙ h.same_id;
  same_thread = k.same_thread ∙ h.same_thread;
  same_user = k.same_user ∙ h.same_user;
  attempt_kept = omega arith;
  terminal_kept = λ e. k.terminal_kept (rw (h.terminal_kept e) e) ∙ h.terminal_kept e;
  completed_kept =
      λ e. k.completed_kept (h.terminal_kept (terminal_of_completed r e) ∙ e) ∙ h.completed_kept e;
  failed_kept = λ e. k.failed_kept (h.terminal_kept (terminal_of_failed r e) ∙ e) ∙ h.failed_kept e;
}

-- Each statement's test and change, at one row.
module _ (r : Execution) where
  requeue-Advances :
      (idle now : ℕ) (thread : Option ℕ)
      → is_stale idle thread r ≡ true
      → Advances r (requeue now r)
  unfolding is_stale requeue is_terminal
  requeue-Advances idle now thread h = ground arith

  take_seat-Advances : (id now : ℕ) → is_claimable id r ≡ true → Advances r (take_seat now r)
  unfolding is_claimable take_seat is_terminal
  take_seat-Advances id now h = ground arith

  open_attempt-Advances :
      (id attempt now : ℕ) → may_begin id attempt r ≡ true → Advances r (open_attempt attempt now r)
  unfolding may_begin open_attempt is_terminal
  open_attempt-Advances id attempt now h = ground arith

  write_draft-Advances :
      (id attempt : ℕ) (text : String) (seq : ℕ) (phase : Phase) (now : ℕ)
      → may_checkpoint id attempt seq r ≡ true
      → Advances r (write_draft text seq phase now r)
  unfolding may_checkpoint write_draft is_terminal
  write_draft-Advances id attempt text seq phase now h = ground arith

  close_completed-Advances :
      (obs : List Observation) (id message : ℕ) (spend : ChatExecutionSpend) (now : ℕ)
      → may_complete obs id r ≡ true
      → Advances r (close_completed message spend now r)
  unfolding may_complete close_completed is_terminal
  close_completed-Advances obs id message spend now h = ground arith

  close_canceled_outcome-Advances :
      (obs : List Observation) (id message : ℕ) (spend : ChatExecutionSpend) (now : ℕ)
      → may_record_canceled obs id r ≡ true
      → Advances r (close_canceled_outcome message spend now r)
  unfolding may_record_canceled close_canceled_outcome is_terminal
  close_canceled_outcome-Advances obs id message spend now h = ground arith

  close_failed-Advances :
      (obs : List Observation) (id : ℕ) (error : String) (now : ℕ)
      → may_fail obs id r ≡ true
      → Advances r (close_failed error now r)
  unfolding may_fail close_failed is_terminal
  close_failed-Advances obs id error now h = ground arith

  close_canceled-Advances :
      (obs : List Observation) (id now : ℕ)
      → may_cancel obs id r ≡ true
      → Advances r (close_canceled now r)
  unfolding may_cancel close_canceled is_terminal
  close_canceled-Advances obs id now h = ground arith

abbrev pub AdvancesAll : List Execution → List Execution → Type 0
AdvancesAll = Pairs Advances

update-Advances :
    (test : Execution → Bool) (change : Execution → Execution)
    → ((r : Execution) → test r ≡ true → Advances r (change r))
    → (rs : List Execution) → AdvancesAll rs (update_rows test change rs)
update-Advances = Pairs-update_rows Advances Advances-refl

claim-Advances :
    (id now : ℕ) (db : Ledger) → AdvancesAll db.executions (claim_queued id now db).1.executions
unfolding claim_queued
claim-Advances id now db = elim (Bool-cases (breaks_index id db.executions)) [
  | inl busy ↦ rw busy (Pairs-refl Advances Advances-refl db.executions)
  | inr free ↦ rw free (update-Advances _ _ (λ r. take_seat-Advances r id now) db.executions)
]

-- One write moves every row forward or leaves it.
after-Advances : (q : Request) (db : Ledger) → AdvancesAll db.executions (after q db).executions
unfolding after
after-Advances (recover idle now thread) db =
    unfold recover_stale_running in
    update-Advances _ _ (λ r. requeue-Advances r idle now thread) db.executions
after-Advances (claim id now) db = claim-Advances id now db
after-Advances (begin id attempt now) db =
    unfold begin_attempt in
    update-Advances _ _ (λ r. open_attempt-Advances r id attempt now) db.executions
after-Advances (checkpoint id attempt text seq phase now) db =
    unfold checkpoint_running in
    update-Advances _ _ (λ r. write_draft-Advances r id attempt text seq phase now) db.executions
after-Advances (complete id message spend now) db =
    unfold complete_running in
    update-Advances _ _ (λ r. close_completed-Advances r db.observations id message spend now)
      db.executions
after-Advances (record_canceled id message spend now) db =
    unfold record_canceled_outcome in
    update-Advances _ _
      (λ r. close_canceled_outcome-Advances r db.observations id message spend now) db.executions
after-Advances (fail id error now) db =
    unfold fail_active in
    update-Advances _ _ (λ r. close_failed-Advances r db.observations id error now) db.executions
after-Advances (cancel id now) db =
    unfold cancel_active in
    update-Advances _ _ (λ r. close_canceled-Advances r db.observations id now) db.executions

-- After any sequence of writes, whatever their arguments and answers, every row of the ledger is
-- the same execution as before, further on: its attempt has not fallen, a terminal status has not
-- changed, and a completed or failed row has not changed at all.
pub after_all-Advances :
    (qs : List Request) (db : Ledger) → AdvancesAll db.executions (after_all qs db).executions
unfolding after_all
after_all-Advances [] db = Pairs-refl Advances Advances-refl db.executions
after_all-Advances (q ∷ qs) db =
    Pairs-trans Advances Advances-trans db.executions (after q db).executions _
      (after-Advances q db) (after_all-Advances qs (after q db))
