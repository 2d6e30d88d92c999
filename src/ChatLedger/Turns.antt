-- ===== src/ChatLedger/Turns.antt =====
-- Every write of the ledger keeps its keys and its one running execution a thread.
use tracer_agent_python.Prelude.{◌≡◌, refl, true, List, [], ◌∷◌}
use tracer_agent_python.ChatLedger.Rows.{Execution, Ledger, is_running}
use tracer_agent_python.ChatLedger.Statements.{
  recover_stale_running, begin_attempt, checkpoint_running, complete_running,
  record_canceled_outcome, fail_active, cancel_active,
}
use tracer_agent_python.ChatLedger.Requests.{
  Request, recover, claim, begin, checkpoint, complete, record_canceled, fail, cancel, after,
  after_all,
}
use tracer_agent_python.ChatLedger.Serial.{IsSerial, IsQuiet, update-IsSerial}
use tracer_agent_python.ChatLedger.Claim.{claim-IsSerial}

quiet :
    (r : Execution) (s : Execution)
    → s.id ≡ r.id
    → s.thread_id ≡ r.thread_id
    → (is_running s.status ≡ true → is_running r.status ≡ true)
    → IsQuiet r s
quiet r s i t k = record { id_kept = i; thread_kept = t; starts_nothing = k }

pub after-IsSerial : (q : Request) (db : Ledger) → IsSerial db → IsSerial (after q db)
unfolding after is_running
after-IsSerial (recover idle now thread) db h =
    unfold recover_stale_running in
    update-IsSerial _ _ db (λ r. refl) (λ r e. quiet r _ refl refl (λ k. cc)) h
after-IsSerial (claim id now) db h = claim-IsSerial id now db h
after-IsSerial (begin id attempt now) db h =
    unfold begin_attempt in
    update-IsSerial _ _ db (λ r. refl) (λ r e. quiet r _ refl refl (λ k. k)) h
after-IsSerial (checkpoint id attempt text seq phase now) db h =
    unfold checkpoint_running in
    update-IsSerial _ _ db (λ r. refl) (λ r e. quiet r _ refl refl (λ k. k)) h
after-IsSerial (complete id message spend now) db h =
    unfold complete_running in
    update-IsSerial _ _ db (λ r. refl) (λ r e. quiet r _ refl refl (λ k. cc)) h
after-IsSerial (record_canceled id message spend now) db h =
    unfold record_canceled_outcome in
    update-IsSerial _ _ db (λ r. refl) (λ r e. quiet r _ refl refl (λ k. cc)) h
after-IsSerial (fail id error now) db h =
    unfold fail_active in
    update-IsSerial _ _ db (λ r. refl) (λ r e. quiet r _ refl refl (λ k. cc)) h
after-IsSerial (cancel id now) db h =
    unfold cancel_active in
    update-IsSerial _ _ db (λ r. refl) (λ r e. quiet r _ refl refl (λ k. cc)) h

-- From a ledger with unique identifiers and at most one running execution a thread, every sequence
-- of writes leads to such a ledger.
pub after_all-IsSerial :
    (qs : List Request) (db : Ledger) → IsSerial db → IsSerial (after_all qs db)
unfolding after_all
after_all-IsSerial [] db h = h
after_all-IsSerial (q ∷ qs) db h = after_all-IsSerial qs (after q db) (after-IsSerial q db h)
