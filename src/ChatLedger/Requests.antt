-- ===== src/ChatLedger/Requests.antt =====
-- The writes of `ChatExecutionLedger`, as one type of requests.
use Prim.Native.String.{String}
use tracer_agent_python.Prelude.{ℕ, Option, List, [], ◌∷◌}
use tracer_agent_python.ChatLedger.Rows.{Phase, ChatExecutionSpend, Ledger}
use tracer_agent_python.ChatLedger.Statements.{
  recover_stale_running, claim_queued, begin_attempt, checkpoint_running, complete_running,
  record_canceled_outcome, fail_active, cancel_active,
}

pub data Request : Type 0 where
  recover : ℕ → ℕ → Option ℕ → Request
  claim : ℕ → ℕ → Request
  begin : ℕ → ℕ → ℕ → Request
  checkpoint : ℕ → ℕ → String → ℕ → Phase → ℕ → Request
  complete : ℕ → ℕ → ChatExecutionSpend → ℕ → Request
  record_canceled : ℕ → ℕ → ChatExecutionSpend → ℕ → Request
  fail : ℕ → String → ℕ → Request
  cancel : ℕ → ℕ → Request

-- The ledger after one write, whatever it answers.
unfoldable pub after : Request → Ledger → Ledger
after (recover idle now thread) db = (recover_stale_running idle now thread db).1
after (claim id now) db = (claim_queued id now db).1
after (begin id attempt now) db = (begin_attempt id attempt now db).1
after (checkpoint id attempt text seq phase now) db =
    (checkpoint_running id attempt text seq phase now db).1
after (complete id message spend now) db = (complete_running id message spend now db).1
after (record_canceled id message spend now) db =
    (record_canceled_outcome id message spend now db).1
after (fail id error now) db = (fail_active id error now db).1
after (cancel id now) db = (cancel_active id now db).1

unfoldable pub after_all : List Request → Ledger → Ledger
unfolding after
after_all [] db = db
after_all (q ∷ qs) db = after_all qs (after q db)
