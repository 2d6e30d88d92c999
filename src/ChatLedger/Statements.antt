-- ===== src/ChatLedger/Statements.antt =====
-- `ChatExecutionLedger` of src/tracer_agent/shared/agents/chat/execution_ledger.py: each method is its statement as
-- a test on the row and a change of it. A statement returns the rows that it changed.
use Prim.Native.String.{String}
use tracer_agent_python.Prelude.{
  ℕ, Bool, true, false, not, Option, none, some, List, ◌==◌, if◌then◌else◌, ltb, leb, ◌&&◌, ◌||◌,
  any, is_some,
}
use tracer_agent_python.ChatLedger.Rows.{
  Status, queued, running, completed, canceled, Phase, starting, done, is_queued, is_running,
  is_canceled, is_agent, ObservationStatus, succeeded, cancelled, same_observation,
  ChatExecutionSpend, Execution, Observation, Ledger,
}
use tracer_agent_python.ChatLedger.Update.{
  update_rows, count_rows, select_rows, find_row, earliest, order_by_id,
}

-- EXISTS (… WHERE observation.execution_id = … AND observation.user_id = … AND status = …)
unfoldable pub observed_as : ObservationStatus → List Observation → Execution → Bool
unfolding same_observation
observed_as status observations r =
    any
      (λ (o : Observation).
        o.execution_id == r.id && (o.user_id == r.user_id && same_observation o.status status))
      observations

-- EXISTS (… WHERE observation.execution_id = …)
unfoldable pub observed : List Observation → Execution → Bool
observed observations r = any (λ (o : Observation). o.execution_id == r.id) observations

-- The condition that a running row may be closed as `status`: it was observed so, or never observed.
unfoldable pub may_close_as : ObservationStatus → List Observation → Execution → Bool
unfolding observed_as observed
may_close_as status observations r =
    observed_as status observations r || not (observed observations r)

unfoldable pub requested_here : Execution → Bool
unfolding is_agent
requested_here r = elim r.requested_backend [ none ↦ false | some b ↦ is_agent b ]

-- One statement on the table: which rows it changes, and how.
abbrev pub run : (Execution → Bool) → (Execution → Execution) → Ledger → ℕ × Ledger
run test change db = (
  count_rows test db.executions,
  record db { executions = update_rows test change db.executions },
)

-- `len(rows) == 1`
abbrev pub one_row : ℕ × Ledger → Bool × Ledger
one_row (n, db) = (n == 1, db)

unfoldable pub find_by_id : ℕ → Ledger → Option Execution
unfolding find_row
find_by_id execution_id db = find_row execution_id db.executions

unfoldable pub is_active : Execution → Bool
unfolding is_queued is_running requested_here
is_active r = (is_queued r.status || is_running r.status) && requested_here r

unfoldable pub list_active : Ledger → List Execution
unfolding is_active select_rows order_by_id
list_active db = order_by_id (select_rows is_active db.executions)

unfoldable pub waits_in : ℕ → Execution → Bool
unfolding is_queued requested_here
waits_in thread r = r.thread_id == thread && (is_queued r.status && requested_here r)

unfoldable pub next_queued_in_thread : ℕ → Ledger → Option ℕ
unfolding waits_in select_rows earliest
next_queued_in_thread thread db = elim (earliest (select_rows (waits_in thread) db.executions)) [
  | none ↦ none
  | some r ↦ some r.id
]

unfoldable pub is_stale : ℕ → Option ℕ → Execution → Bool
unfolding is_running requested_here
is_stale idle_before thread r =
    is_running r.status
    && (ltb r.updated_at idle_before
        && (requested_here r && elim thread [ none ↦ true | some t ↦ r.thread_id == t ]))

unfoldable pub requeue : ℕ → Execution → Execution
requeue now r = record r { status = queued; phase = starting; started_at = none; updated_at = now }

unfoldable pub recover_stale_running : ℕ → ℕ → Option ℕ → Ledger → ℕ × Ledger
unfolding is_stale requeue update_rows count_rows
recover_stale_running idle_before now thread = run (is_stale idle_before thread) (requeue now)

pub data Claim : Type 0 where
  claimed stale thread_busy : Claim

unfoldable pub is_claimable : ℕ → Execution → Bool
unfolding is_queued
is_claimable execution_id r = r.id == execution_id && is_queued r.status

unfoldable pub take_seat : ℕ → Execution → Execution
take_seat now r = record r { status = running; started_at = some now; updated_at = now }

-- The unique index on `thread_id` of the running rows.
unfoldable pub thread_running : ℕ → List Execution → Bool
unfolding is_running
thread_running thread = any (λ (r : Execution). r.thread_id == thread && is_running r.status)

-- The index refuses the statement if a row that it would make running has a running row beside it.
unfoldable pub breaks_index : ℕ → List Execution → Bool
unfolding is_claimable thread_running
breaks_index execution_id rows =
    any (λ (r : Execution). is_claimable execution_id r && thread_running r.thread_id rows) rows

unfoldable pub claim_queued : ℕ → ℕ → Ledger → Claim × Ledger
unfolding breaks_index is_claimable take_seat update_rows count_rows
claim_queued execution_id now db =
    if breaks_index execution_id db.executions then (thread_busy, db) else (
      (if count_rows (is_claimable execution_id) db.executions == 0 then stale else claimed),
      record db {
        executions = update_rows (is_claimable execution_id) (take_seat now) db.executions;
      },
    )

unfoldable pub may_begin : ℕ → ℕ → Execution → Bool
unfolding is_running
may_begin execution_id attempt r =
    r.id == execution_id && (is_running r.status && leb r.attempt attempt)

unfoldable pub open_attempt : ℕ → ℕ → Execution → Execution
open_attempt attempt now r = record r {
  attempt = attempt;
  draft_text = "";
  draft_seq = 0;
  phase = starting;
  updated_at = now;
}

unfoldable pub begin_attempt : ℕ → ℕ → ℕ → Ledger → Bool × Ledger
unfolding may_begin open_attempt update_rows count_rows
begin_attempt execution_id attempt now db =
    one_row (run (may_begin execution_id attempt) (open_attempt attempt now) db)

unfoldable pub may_checkpoint : ℕ → ℕ → ℕ → Execution → Bool
unfolding is_running
may_checkpoint execution_id attempt seq r =
    r.id == execution_id && (is_running r.status && (r.attempt == attempt && ltb r.draft_seq seq))

unfoldable pub write_draft : String → ℕ → Phase → ℕ → Execution → Execution
write_draft text seq phase now r = record r {
  draft_text = text;
  draft_seq = seq;
  phase = phase;
  updated_at = now;
}

unfoldable pub checkpoint_running : ℕ → ℕ → String → ℕ → Phase → ℕ → Ledger → Bool × Ledger
unfolding may_checkpoint write_draft update_rows count_rows
checkpoint_running execution_id attempt text seq phase now db =
    one_row (run (may_checkpoint execution_id attempt seq) (write_draft text seq phase now) db)

unfoldable pub may_complete : List Observation → ℕ → Execution → Bool
unfolding is_running may_close_as
may_complete observations execution_id r =
    r.id == execution_id && (is_running r.status && may_close_as succeeded observations r)

unfoldable pub close_completed : ℕ → ChatExecutionSpend → ℕ → Execution → Execution
close_completed message spend now r = record r {
  status = completed;
  phase = done;
  assistant_message_id = some message;
  spend = some spend;
  completed_at = some now;
  updated_at = now;
}

unfoldable pub complete_running : ℕ → ℕ → ChatExecutionSpend → ℕ → Ledger → Bool × Ledger
unfolding may_complete close_completed update_rows count_rows
complete_running execution_id message spend now db =
    one_row (run (may_complete db.observations execution_id) (close_completed message spend now) db)

unfoldable pub may_record_canceled : List Observation → ℕ → Execution → Bool
unfolding is_canceled is_running observed_as
may_record_canceled observations execution_id r =
    r.id == execution_id
    && (not (is_some r.assistant_message_id)
        && (is_canceled r.status || is_running r.status && observed_as cancelled observations r))

unfoldable pub close_canceled_outcome : ℕ → ChatExecutionSpend → ℕ → Execution → Execution
close_canceled_outcome message spend now r = record r {
  status = canceled;
  phase = done;
  assistant_message_id = some message;
  spend = some spend;
  completed_at = elim r.completed_at [ none ↦ some now | some t ↦ some t ];
  updated_at = now;
}

unfoldable pub record_canceled_outcome : ℕ → ℕ → ChatExecutionSpend → ℕ → Ledger → Bool × Ledger
unfolding may_record_canceled close_canceled_outcome update_rows count_rows
record_canceled_outcome execution_id message spend now db = one_row (
    run (may_record_canceled db.observations execution_id)
      (close_canceled_outcome message spend now) db)

unfoldable pub may_fail : List Observation → ℕ → Execution → Bool
unfolding is_queued is_running may_close_as
may_fail observations execution_id r =
    r.id == execution_id
    && (is_queued r.status
        || is_running r.status && may_close_as ObservationStatus.failed observations r)

unfoldable pub close_failed : String → ℕ → Execution → Execution
close_failed error now r = record r {
  status = Status.failed;
  phase = done;
  error = some error;
  completed_at = some now;
  updated_at = now;
}

unfoldable pub fail_active : ℕ → String → ℕ → Ledger → Bool × Ledger
unfolding may_fail close_failed update_rows count_rows
fail_active execution_id error now db =
    one_row (run (may_fail db.observations execution_id) (close_failed error now) db)

unfoldable pub may_cancel : List Observation → ℕ → Execution → Bool
unfolding is_queued is_running may_close_as
may_cancel observations execution_id r =
    r.id == execution_id
    && (is_queued r.status || is_running r.status && may_close_as cancelled observations r)

unfoldable pub close_canceled : ℕ → Execution → Execution
close_canceled now r = record r {
  status = canceled;
  phase = done;
  completed_at = some now;
  updated_at = now;
}

unfoldable pub cancel_active : ℕ → ℕ → Ledger → Bool × Ledger
unfolding may_cancel close_canceled update_rows count_rows
cancel_active execution_id now db =
    one_row (run (may_cancel db.observations execution_id) (close_canceled now) db)
