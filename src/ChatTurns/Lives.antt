-- ===== src/ChatTurns/Lives.antt =====
-- The life of one execution in the ledger while its workflow runs
-- (src/tracer_agent/worker/workflows/chat_activities.py): it waits, runs or is closed.
use tracer_agent_python.Prelude.{
  ℕ, ◌≡◌, refl, ◌∙◌, Bool, true, false, Option, some, List, [], ◌∷◌, arith, ◌==◌, All, ◌⊎◌,
  if◌then◌else◌, is_some, Bool-cases, inl, inr, ==_iff,
}
use Prim.Native.String.{String}
use tracer_agent_python.ChatLedger.Rows.{
  Execution, Ledger, Observation, ObservationStatus, is_queued, is_running, is_terminal,
  same_observation,
}
use tracer_agent_python.ChatLedger.Update.{find_row, update_rows}
use tracer_agent_python.ChatLedger.Statements.{
  find_by_id, observed_as, observed, may_close_as, recover_stale_running, is_stale, requeue,
  claim_queued, is_claimable, take_seat, breaks_index, begin_attempt, open_attempt, fail_active,
  close_failed,
}
use tracer_agent_python.ChatLedger.Serial.{IsSerial}
use tracer_agent_python.ChatLedger.Requests.{recover, claim, begin, fail, after}
use tracer_agent_python.ChatLedger.Turns.{after-IsSerial}
use tracer_agent_python.ChatLedger.Outcomes.{begin_outcome}
use tracer_agent_python.ChatLedger.Closing.{
  failing, close, close_outcome, may_close, closed-terminal, terminal_refuses,
}

pub find_row-id :
    (id : ℕ) (rs : List Execution) (r : Execution) → find_row id rs ≡ some r → (r.id == id) ≡ true
unfolding find_row
find_row-id id [] r h = absurd cc
find_row-id id (q ∷ rs) r h = elim (Bool-cases (q.id == id)) [
  | inl e ↦ let same : q ≡ r = ground arith in rw same at e
  | inr e ↦ find_row-id id rs r (rw e at h)
]

-- A row is found as a statement left it.
pub find-updated :
    (id : ℕ) (test : Execution → Bool) (change : Execution → Execution)
    → ((r : Execution) → (change r).id ≡ r.id)
    → (rs : List Execution) (r : Execution) → find_row id rs ≡ some r
    → find_row id (update_rows test change rs) ≡ some (if test r then change r else r)
unfolding find_row update_rows
find-updated id test change ids [] r h = absurd cc
find-updated id test change ids (q ∷ rs) r h =
    ground (arith, ids q, find-updated id test change ids rs r)

-- Observations of an execution that only tell of failed attempts of its user.
abbrev pub FailedOf : ℕ → ℕ → Observation → Type 0
FailedOf id user o =
    (o.execution_id == id) ≡ true
    → (same_observation o.status ObservationStatus.failed ≡ true) × ((o.user_id == user) ≡ true)

pub record IsWaiting (id : ℕ) (db : Ledger) : Type 0 where
  pub serial : IsSerial db
  pub row : Execution
  pub found : find_by_id id db ≡ some row
  pub waits : is_queued row.status ≡ true
  pub unanswered : is_some row.assistant_message_id ≡ false
  pub failed_only : All (FailedOf id row.user_id) db.observations

pub record IsRunning (id user : ℕ) (db : Ledger) : Type 0 where
  pub serial : IsSerial db
  pub row : Execution
  pub found : find_by_id id db ≡ some row
  pub runs : is_running row.status ≡ true
  pub its_user : row.user_id ≡ user
  pub unanswered : is_some row.assistant_message_id ≡ false
  pub failed_only : All (FailedOf id user) db.observations

pub record IsClosed (id : ℕ) (db : Ledger) : Type 0 where
  pub serial : IsSerial db
  pub row : Execution
  pub found : find_by_id id db ≡ some row
  pub over : is_terminal row.status ≡ true

observed_failed :
    (user : ℕ) (r : Execution) (obs : List Observation)
    → r.user_id ≡ user
    → All (FailedOf r.id user) obs
    → may_close_as ObservationStatus.failed obs r ≡ true
unfolding may_close_as observed_as observed
observed_failed user r [] u h = refl
observed_failed user r (o ∷ obs) u h = elim (Bool-cases (o.execution_id == r.id)) [
  | inl e ↦ rw (e, u, (h.0 e).0, (h.0 e).1) refl
  | inr e ↦ rw e (observed_failed user r obs u h.1)
]

module _ (id : ℕ) (error : String) (now : ℕ) (db : Ledger) where
  abbrev may_fail_row : Execution → Bool
  may_fail_row r = may_close (failing error now) db.observations r

  failed_row :
      (r : Execution)
      → IsSerial db
      → find_by_id id db ≡ some r
      → find_by_id id (fail_active id error now db).1
        ≡ some (if may_fail_row r then close_failed error now r else r)
  unfolding close
  failed_row r serial found =
      let answer = close_outcome (failing error now) id db r serial found in
      answer.1 ∙ rw answer.0 refl

  failed-IsClosed :
      (r : Execution)
      → IsSerial db
      → find_by_id id db ≡ some r
      → may_fail_row r ≡ true
      → IsClosed id (fail_active id error now db).1
  unfolding after
  failed-IsClosed r serial found allowed = record {
    serial = after-IsSerial (fail id error now) db serial;
    row = close_failed error now r;
    found = failed_row r serial found ∙ rw allowed refl;
    over = closed-terminal (failing error now) r;
  }

  -- Failing a live execution closes it; a closed one stays closed.
  pub fail_first-IsClosed : IsWaiting id db → IsClosed id (fail_active id error now db).1
  fail_first-IsClosed w = failed-IsClosed w.row w.serial w.found (rw w.waits refl)

  pub fail_later-IsClosed :
      (user : ℕ) → IsRunning id user db → IsClosed id (fail_active id error now db).1
  fail_later-IsClosed user w =
      let same : w.row.id ≡ id =
        (==_iff w.row.id id).0
          (find_row-id id db.executions w.row (unfold find_by_id in w.found)) in
      let only : All (FailedOf w.row.id user) db.observations = rw same w.failed_only in
      failed-IsClosed w.row w.serial w.found
        (ground (arith, w.runs, observed_failed user w.row db.observations w.its_user only))

  pub fail_over-IsClosed : IsClosed id db → IsClosed id (fail_active id error now db).1
  unfolding after
  fail_over-IsClosed w = record {
    serial = after-IsSerial (fail id error now) db w.serial;
    row = w.row;
    found =
        failed_row w.row w.serial w.found
        ∙ rw (terminal_refuses (failing error now) db.observations w.row w.over) refl;
    over = w.over;
  }

abbrev pub Alive : ℕ → Ledger → Type 0
Alive id db = IsWaiting id db ⊎ ((user : ℕ) × IsRunning id user db)

not_stale :
    (idle : ℕ) (thread : Option ℕ) (r : Execution)
    → is_queued r.status ≡ true
    → is_stale idle thread r ≡ false
unfolding is_stale is_queued is_running
not_stale idle thread r w = ground arith

-- A recovery leaves a waiting execution alone; a running one runs on or waits again.
module _ (id idle now : ℕ) (thread : Option ℕ) (db : Ledger) where
  recovered_row :
      (r : Execution)
      → find_by_id id db ≡ some r
      → find_by_id id (recover_stale_running idle now thread db).1
        ≡ some (if is_stale idle thread r then requeue now r else r)
  unfolding recover_stale_running find_by_id
  recovered_row r found =
      find-updated id (is_stale idle thread) (requeue now) (λ q. unfold requeue in refl)
        db.executions r found

  recover-IsWaiting : IsWaiting id db → IsWaiting id (recover_stale_running idle now thread db).1
  unfolding after
  recover-IsWaiting w = record {
    serial = after-IsSerial (recover idle now thread) db w.serial;
    row = w.row;
    found = recovered_row w.row w.found ∙ rw (not_stale idle thread w.row w.waits) refl;
    waits = w.waits;
    unanswered = w.unanswered;
    failed_only = unfold recover_stale_running in w.failed_only;
  }

  recover-running :
      (user : ℕ) → IsRunning id user db → Alive id (recover_stale_running idle now thread db).1
  unfolding after recover_stale_running
  recover-running user w = elim (Bool-cases (is_stale idle thread w.row)) [
    | inl e ↦ inl (record {
      serial = after-IsSerial (recover idle now thread) db w.serial;
      row = requeue now w.row;
      found = recovered_row w.row w.found ∙ rw e refl;
      waits = unfold requeue is_queued in refl;
      unanswered = unfold requeue in w.unanswered;
      failed_only = unfold requeue in rw w.its_user w.failed_only;
    })
    | inr e ↦ inr (
      user,
      record {
        serial = after-IsSerial (recover idle now thread) db w.serial;
        row = w.row;
        found = recovered_row w.row w.found ∙ rw e refl;
        runs = w.runs;
        its_user = w.its_user;
        unanswered = w.unanswered;
        failed_only = w.failed_only;
      },
    )
  ]

  pub recover-Alive : Alive id db → Alive id (recover_stale_running idle now thread db).1
  recover-Alive (inl w) = inl (recover-IsWaiting w)
  recover-Alive (inr (user, w)) = recover-running user w

pub begin-IsRunning :
    (id user attempt now : ℕ) (db : Ledger)
    → IsRunning id user db
    → IsRunning id user (begin_attempt id attempt now db).1
unfolding after open_attempt
begin-IsRunning id user attempt now db w =
    let answer = begin_outcome id attempt now db w.row w.serial w.found in
    let serial = after-IsSerial (begin id attempt now) db w.serial in
    let kept : (begin_attempt id attempt now db).1.observations ≡ db.observations =
      unfold begin_attempt in refl in
    elim (Bool-cases (begin_attempt id attempt now db).0) [
      | inl e ↦ record {
        serial = serial;
        row = open_attempt attempt now w.row;
        found = answer.1 ∙ rw e refl;
        runs = w.runs;
        its_user = w.its_user;
        unanswered = w.unanswered;
        failed_only = rw kept w.failed_only;
      }
      | inr e ↦ record {
        serial = serial;
        row = w.row;
        found = answer.1 ∙ rw e refl;
        runs = w.runs;
        its_user = w.its_user;
        unanswered = w.unanswered;
        failed_only = rw kept w.failed_only;
      }
    ]

-- A claim leaves the execution waiting or makes it run; a running one runs on.
module _ (id now : ℕ) (db : Ledger) where
  claimed_row :
      (r : Execution)
      → find_by_id id db ≡ some r
      → find_by_id id (claim_queued id now db).1
        ≡ some (
            if breaks_index id db.executions
            then r
            else if is_claimable id r
            then take_seat now r
            else r)
  unfolding claim_queued find_by_id
  claimed_row r found = elim (Bool-cases (breaks_index id db.executions)) [
    | inl e ↦ rw e found
    | inr e ↦ rw e (
        find-updated id (is_claimable id) (take_seat now) (λ q. unfold take_seat in refl)
          db.executions r found)
  ]

  claim_kept : (claim_queued id now db).1.observations ≡ db.observations
  unfolding claim_queued
  claim_kept = ground arith

  claim-waiting : IsWaiting id db → Alive id (claim_queued id now db).1
  claim-waiting w =
      let serial : IsSerial (claim_queued id now db).1 =
        unfold after in after-IsSerial (claim id now) db w.serial in
      let here : (w.row.id == id) ≡ true =
        find_row-id id db.executions w.row (unfold find_by_id in w.found) in
      let mine : is_claimable id w.row ≡ true = unfold is_claimable in rw (here, w.waits) refl in
      elim (Bool-cases (breaks_index id db.executions)) [
        | inl e ↦
            let same : (claim_queued id now db).1 ≡ db = unfold claim_queued in rw e refl in
            rw same (inl w)
        | inr e ↦ inr (
          w.row.user_id,
          record {
            serial = serial;
            row = take_seat now w.row;
            found = claimed_row w.row w.found ∙ rw (e, mine) refl;
            runs = unfold take_seat is_running in refl;
            its_user = unfold take_seat in refl;
            unanswered = unfold take_seat in w.unanswered;
            failed_only = rw claim_kept w.failed_only;
          },
        )
      ]

  pub claim-Alive : Alive id db → Alive id (claim_queued id now db).1
  claim-Alive (inl w) = claim-waiting w
  claim-Alive (inr (user, w)) = inr (
    user,
    record {
      serial = unfold after in after-IsSerial (claim id now) db w.serial;
      row = w.row;
      found =
          claimed_row w.row w.found
          ∙ (unfold is_claimable is_queued is_running in ground (arith, w.runs));
      runs = w.runs;
      its_user = w.its_user;
      unanswered = w.unanswered;
      failed_only = rw claim_kept w.failed_only;
    },
  )
