-- ===== src/ChatLedger/Held.antt =====
-- What the writes of src/tracer_agent/shared/agents/chat/execution_ledger.py may still do to an execution that is over.
use Prim.Native.String.{String}
use mathlib.Core.Path.{subst}
use tracer_agent_python.Prelude.{
  ℕ, ◌≡◌, refl, ap, sym, ◌∙◌, ◌⊎◌, inl, inr, Bool, true, false, Option, none, some, List, [], ◌∷◌,
  arith, Bool-cases, ◌==◌,
}
use tracer_agent_python.ChatLedger.Rows.{
  Phase, Execution, Observation, ChatExecutionSpend, Ledger, is_terminal, is_canceled,
}
use tracer_agent_python.ChatLedger.Update.{update_rows, find_row}
use tracer_agent_python.ChatLedger.Statements.{
  recover_stale_running, is_stale, requeue, claim_queued, is_claimable, take_seat, breaks_index,
  begin_attempt, may_begin, open_attempt, checkpoint_running, may_checkpoint, write_draft,
  complete_running, may_complete, close_completed, record_canceled_outcome, may_record_canceled,
  close_canceled_outcome, fail_active, may_fail, close_failed, cancel_active, may_cancel,
  close_canceled,
}
use tracer_agent_python.ChatLedger.Requests.{
  Request, recover, claim, begin, checkpoint, complete, record_canceled, fail, cancel, after,
  after_all,
}
use tracer_agent_python.ChatLedger.Pairs.{Pairs, Pairs-refl, Pairs-update_rows, Pairs-trans}

-- The row of a canceled execution without a message, given the outcome of its cancellation.
abbrev pub HasOutcome : Execution → Execution → Type 0
HasOutcome r s =
    (is_canceled r.status ≡ true)
    × (r.assistant_message_id ≡ none)
    × (message : ℕ) × (spend : ChatExecutionSpend) × (now : ℕ) × (s
        ≡ close_canceled_outcome message spend now r)

-- The same row, or that row with its outcome.
abbrev pub IsHeld : Execution → Execution → Type 0
IsHeld r s = (s ≡ r) ⊎ HasOutcome r s

abbrev Holds : Execution → Execution → Type 0
Holds r s = (s.id ≡ r.id) × (is_terminal r.status ≡ true → IsHeld r s)

pub outcome_terminal :
    (r s : Execution) → is_terminal r.status ≡ true → IsHeld r s → is_terminal s.status ≡ true
unfolding close_canceled_outcome is_terminal
outcome_terminal r s t (inl e) = rw e t
outcome_terminal r s t (inr (c, n, message, spend, now, e)) = rw e refl

outcome_filled : (r s : Execution) → HasOutcome r s → s.assistant_message_id ≡ none → ⊥
unfolding close_canceled_outcome
outcome_filled r s (c, n, message, spend, now, e) k =
    let filled : s.assistant_message_id ≡ some message =
      ap (λ (x : Execution). x.assistant_message_id) e in
    absurd cc

Holds-refl : (r : Execution) → Holds r r
Holds-refl r = (refl, λ t. inl refl)

IsHeld-trans : (r s t : Execution) → IsHeld r s → IsHeld s t → IsHeld r t
IsHeld-trans r s t (inl e) k = subst (λ x. IsHeld x t) e k
IsHeld-trans r s t (inr o) (inl e) = inr (subst (HasOutcome r) (sym e) o)
IsHeld-trans r s t (inr o) (inr p) = absurd (outcome_filled r s o p.1)

Holds-trans : (r s t : Execution) → Holds r s → Holds s t → Holds r t
Holds-trans r s t h k =
    (k.0 ∙ h.0, λ e. IsHeld-trans r s t (h.1 e) (k.1 (outcome_terminal r s e (h.1 e))))

module _ (r : Execution) where
  requeue-Holds :
      (idle now : ℕ) (thread : Option ℕ) → is_stale idle thread r ≡ true → Holds r (requeue now r)
  unfolding is_stale requeue is_terminal
  requeue-Holds idle now thread h = (refl, λ t. absurd (ground arith))

  take_seat-Holds : (id now : ℕ) → is_claimable id r ≡ true → Holds r (take_seat now r)
  unfolding is_claimable take_seat is_terminal
  take_seat-Holds id now h = (refl, λ t. absurd (ground arith))

  open_attempt-Holds :
      (id attempt now : ℕ) → may_begin id attempt r ≡ true → Holds r (open_attempt attempt now r)
  unfolding may_begin open_attempt is_terminal
  open_attempt-Holds id attempt now h = (refl, λ t. absurd (ground arith))

  write_draft-Holds :
      (id attempt : ℕ) (text : String) (seq : ℕ) (phase : Phase) (now : ℕ)
      → may_checkpoint id attempt seq r ≡ true
      → Holds r (write_draft text seq phase now r)
  unfolding may_checkpoint write_draft is_terminal
  write_draft-Holds id attempt text seq phase now h = (refl, λ t. absurd (ground arith))

  close_completed-Holds :
      (obs : List Observation) (id message : ℕ) (spend : ChatExecutionSpend) (now : ℕ)
      → may_complete obs id r ≡ true
      → Holds r (close_completed message spend now r)
  unfolding may_complete close_completed is_terminal
  close_completed-Holds obs id message spend now h = (refl, λ t. absurd (ground arith))

  close_failed-Holds :
      (obs : List Observation) (id : ℕ) (error : String) (now : ℕ)
      → may_fail obs id r ≡ true
      → Holds r (close_failed error now r)
  unfolding may_fail close_failed is_terminal
  close_failed-Holds obs id error now h = (refl, λ t. absurd (ground arith))

  close_canceled-Holds :
      (obs : List Observation) (id now : ℕ)
      → may_cancel obs id r ≡ true
      → Holds r (close_canceled now r)
  unfolding may_cancel close_canceled is_terminal
  close_canceled-Holds obs id now h = (refl, λ t. absurd (ground arith))

  recorded :
      (obs : List Observation) (id : ℕ)
      → may_record_canceled obs id r ≡ true
      → is_terminal r.status ≡ true
      → (is_canceled r.status ≡ true) × (r.assistant_message_id ≡ none)
  unfolding may_record_canceled is_terminal is_canceled
  recorded obs id h t = ground arith

  close_canceled_outcome-Holds :
      (obs : List Observation) (id message : ℕ) (spend : ChatExecutionSpend) (now : ℕ)
      → may_record_canceled obs id r ≡ true
      → Holds r (close_canceled_outcome message spend now r)
  close_canceled_outcome-Holds obs id message spend now h = (
    unfold close_canceled_outcome in refl,
    λ t. let (c, n) = recorded obs id h t in inr (c, n, message, spend, now, refl),
  )

update-Holds :
    (test : Execution → Bool) (change : Execution → Execution)
    → ((r : Execution) → test r ≡ true → Holds r (change r))
    → (rs : List Execution) → Pairs Holds rs (update_rows test change rs)
update-Holds = Pairs-update_rows Holds Holds-refl

claim-Holds :
    (id now : ℕ) (db : Ledger) → Pairs Holds db.executions (claim_queued id now db).1.executions
unfolding claim_queued
claim-Holds id now db = elim (Bool-cases (breaks_index id db.executions)) [
  | inl busy ↦ rw busy (Pairs-refl Holds Holds-refl db.executions)
  | inr free ↦ rw free (update-Holds _ _ (λ r. take_seat-Holds r id now) db.executions)
]

after-Holds : (q : Request) (db : Ledger) → Pairs Holds db.executions (after q db).executions
unfolding after
after-Holds (recover idle now thread) db =
    unfold recover_stale_running in
    update-Holds _ _ (λ r. requeue-Holds r idle now thread) db.executions
after-Holds (claim id now) db = claim-Holds id now db
after-Holds (begin id attempt now) db =
    unfold begin_attempt in
    update-Holds _ _ (λ r. open_attempt-Holds r id attempt now) db.executions
after-Holds (checkpoint id attempt text seq phase now) db =
    unfold checkpoint_running in
    update-Holds _ _ (λ r. write_draft-Holds r id attempt text seq phase now) db.executions
after-Holds (complete id message spend now) db =
    unfold complete_running in
    update-Holds _ _ (λ r. close_completed-Holds r db.observations id message spend now)
      db.executions
after-Holds (record_canceled id message spend now) db =
    unfold record_canceled_outcome in
    update-Holds _ _ (λ r. close_canceled_outcome-Holds r db.observations id message spend now)
      db.executions
after-Holds (fail id error now) db =
    unfold fail_active in
    update-Holds _ _ (λ r. close_failed-Holds r db.observations id error now) db.executions
after-Holds (cancel id now) db =
    unfold cancel_active in
    update-Holds _ _ (λ r. close_canceled-Holds r db.observations id now) db.executions

after_all-Holds :
    (qs : List Request) (db : Ledger) → Pairs Holds db.executions (after_all qs db).executions
unfolding after_all
after_all-Holds [] db = Pairs-refl Holds Holds-refl db.executions
after_all-Holds (q ∷ qs) db =
    Pairs-trans Holds Holds-trans db.executions (after q db).executions _ (after-Holds q db)
      (after_all-Holds qs (after q db))

find-Holds :
    (key : ℕ) (rs ss : List Execution) (r : Execution)
    → Pairs Holds rs ss
    → find_row key rs ≡ some r
    → (s : Execution) × (find_row key ss ≡ some s) × Holds r s
unfolding find_row
find-Holds key [] ss r h found = absurd cc
find-Holds key (x ∷ xs) [] r h found = absurd h
find-Holds key (x ∷ xs) (y ∷ ys) r h found = elim (Bool-cases (x.id == key)) [
  | inl hit ↦
      let same : some x ≡ some r = rw hit at found in
      let its : y.id == key ≡ true = ap (λ k. k == key) h.0.0 ∙ hit in
      (y, rw its refl, subst (λ z. Holds z y) (let e : x ≡ r = cc in e) h.0)
  | inr miss ↦
      let other : y.id == key ≡ false = ap (λ k. k == key) h.0.0 ∙ miss in
      let (s, e, held) = find-Holds key xs ys r h.1 (rw miss at found) in (s, rw other e, held)
]

-- After any writes a row that was over is the same, or has been given its outcome.
pub after_all-IsHeld :
    (qs : List Request) (db : Ledger) (key : ℕ) (r : Execution)
    → find_row key db.executions ≡ some r
    → is_terminal r.status ≡ true
    → (s : Execution) × (find_row key (after_all qs db).executions ≡ some s) × IsHeld r s
after_all-IsHeld qs db key r found over =
    let (s, e, held) =
      find-Holds key db.executions (after_all qs db).executions r (after_all-Holds qs db) found in
    (s, e, held.1 over)
