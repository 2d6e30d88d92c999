-- ===== src/ChatLedger/Outcomes.antt =====
-- What the answers of the writes of src/tracer_agent/shared/agents/chat/execution_ledger.py tell.
use Prim.Native.String.{String}
use tracer_agent_python.Prelude.{
  ℕ, ◌≤◌, ◌≡◌, refl, Bool, Option, none, some, List, [], ◌∷◌, arith, ◌==◌, ◌&&◌, if◌then◌else◌, ltb,
  leb,
}
use tracer_agent_python.ChatLedger.Rows.{Execution, Ledger, Phase, is_running}
use tracer_agent_python.ChatLedger.Update.{update_rows, count_rows, find_row}
use tracer_agent_python.ChatLedger.Statements.{
  find_by_id, checkpoint_running, write_draft, begin_attempt, open_attempt,
}
use tracer_agent_python.ChatLedger.Serial.{IsSerial, has_id}

abbrev pub hits : (Execution → Bool) → Option Execution → ℕ
hits cond none = 0
hits cond (some r) = if cond r then 1 else 0

abbrev pub changed :
    (Execution → Bool) → (Execution → Execution) → Option Execution → Option Execution
changed cond change none = none
changed cond change (some r) = some (if cond r then change r else r)

module _ (key : ℕ) (cond : Execution → Bool) where
  abbrev pub keyed : Execution → Bool
  keyed r = r.id == key && cond r

  count-keyed-zero :
      (rs : List Execution) → count_rows (has_id key) rs ≤ 0 → count_rows keyed rs ≡ 0
  unfolding count_rows
  count-keyed-zero [] h = refl
  count-keyed-zero (r ∷ rs) h = ground (arith, count-keyed-zero rs)

  pub count-keyed :
      (rs : List Execution)
      → count_rows (has_id key) rs ≤ 1
      → count_rows keyed rs ≡ hits cond (find_row key rs)
  unfolding count_rows find_row
  count-keyed [] h = refl
  count-keyed (r ∷ rs) h = ground (arith, count-keyed rs, count-keyed-zero rs)

  pub find-update :
      (change : Execution → Execution)
      → ((r : Execution) → (change r).id ≡ r.id)
      → (rs : List Execution)
      → find_row key (update_rows keyed change rs) ≡ changed cond change (find_row key rs)
  unfolding find_row update_rows
  find-update change ids [] = refl
  find-update change ids (r ∷ rs) = ground (arith, ids r, find-update change ids rs)

-- A keyed write of a row that is there answers whether the row met the condition, and then the row
-- is changed; otherwise it stays.
pub keyed_answer :
    (key : ℕ) (cond : Execution → Bool) (change : Execution → Execution) (db : Ledger)
    → IsSerial db
    → ((r : Execution) → (change r).id ≡ r.id)
    → (r : Execution) → find_row key db.executions ≡ some r
    → ((count_rows (keyed key cond) db.executions == 1) ≡ cond r)
      × (find_row key (update_rows (keyed key cond) change db.executions)
          ≡ some (if cond r then change r else r))
keyed_answer key cond change db h ids r found = (
  ground (arith, count-keyed key cond db.executions (h.one_row key)),
  rw (find-update key cond change ids db.executions, found) refl,
)

-- A draft checkpoint of an execution that is there is stored exactly if the execution is running, the attempt is
-- its current one and the number is above that of the stored draft; otherwise the row stays.
pub checkpoint_outcome :
    (id attempt : ℕ) (text : String) (seq : ℕ) (phase : Phase) (now : ℕ) (db : Ledger)
    (r : Execution)
    → IsSerial db
    → find_by_id id db ≡ some r
    → let (stored, db') = checkpoint_running id attempt text seq phase now db in
      (stored ≡ (is_running r.status && (r.attempt == attempt && ltb r.draft_seq seq)))
      × (find_by_id id db' ≡ some (if stored then write_draft text seq phase now r else r))
unfolding checkpoint_running find_by_id
checkpoint_outcome id attempt text seq phase now db r h found =
    let cond =
      λ (s : Execution). is_running s.status && (s.attempt == attempt && ltb s.draft_seq seq) in
    let answer = keyed_answer id cond (write_draft text seq phase now) db h (λ s. refl) r found in
    (answer.0, rw answer.0 answer.1)

-- A new attempt of an execution that is there is opened exactly if the execution is running and the attempt is not
-- below its current one; the opened row has an empty draft numbered 0, so every draft of the new
-- attempt is above it.
pub begin_outcome :
    (id attempt now : ℕ) (db : Ledger) (r : Execution)
    → IsSerial db
    → find_by_id id db ≡ some r
    → let (opened, db') = begin_attempt id attempt now db in
      (opened ≡ (is_running r.status && leb r.attempt attempt))
      × (find_by_id id db' ≡ some (if opened then open_attempt attempt now r else r))
unfolding begin_attempt find_by_id
begin_outcome id attempt now db r h found =
    let cond = λ (s : Execution). is_running s.status && leb s.attempt attempt in
    let answer = keyed_answer id cond (open_attempt attempt now) db h (λ s. refl) r found in
    (answer.0, rw answer.0 answer.1)
