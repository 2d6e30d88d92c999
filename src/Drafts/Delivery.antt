-- ===== src/Drafts/Delivery.antt =====
-- `LedgerDraftDelivery`, `_send` and `flush` of src/tracer_agent/worker/agents/chat/drafts.py on the ledger of chat
-- executions. The broker's wake-up is left out: nothing here reads it.
use Prim.Native.String.{String}
use tracer_agent_python.Prelude.{
  ℕ, Bool, true, false, ◌||◌, List, [], ◌∷◌, Option, none, some, if◌then◌else◌,
}
use tracer_agent_python.ChatLedger.Rows.{Phase, is_terminal, Ledger}
use tracer_agent_python.ChatLedger.Statements.{checkpoint_running, find_by_id}
use tracer_agent_python.Redaction.Rules.{Text, Rules}
use tracer_agent_python.Drafts.Publisher.{
  Draft, DraftPublisher, Outcome, returned, execution_closed, suspect_payload, enqueue, push,
  push_tool, mark_phase,
}

pub record DraftAck : Type 0 where
  pub stored : Bool
  pub terminal : Bool

-- What becomes of a delivery: it returns, or it raises, before it writes or after that.
pub data Fate : Type 0 where
  returns raises_before raises_after : Fate

-- The execution and the attempt that a publisher writes for, how a text is stored, and what becomes
-- of the delivery of each number.
pub record Delivery : Type 0 where
  pub execution_id : ℕ
  pub attempt : ℕ
  pub as_stored : Text → String
  pub fate : ℕ → Fate

-- Does the delivery of a number write before it returns or raises?
abbrev pub arrives : Delivery → ℕ → Bool
arrives delivery seq = elim (delivery.fate seq) [
  | returns ↦ true
  | raises_before ↦ false
  | raises_after ↦ true
]

-- `LedgerDraftDelivery.__call__`, where nothing raises.
unfoldable pub write_checkpoint : Delivery → Draft → ℕ → Ledger → DraftAck × Ledger
unfolding checkpoint_running find_by_id is_terminal
write_checkpoint delivery d now db =
    let (stored, later) =
      checkpoint_running delivery.execution_id delivery.attempt (delivery.as_stored d.text) d.seq
        d.phase now db in
    let row = if stored then none else find_by_id delivery.execution_id later in
    (
      record {
        stored = stored;
        terminal = elim row [ none ↦ false | some r ↦ is_terminal r.status ];
      },
      later,
    )

-- `LedgerDraftDelivery.__call__`: no acknowledgement where it raises.
unfoldable pub deliver : Delivery → Draft → ℕ → Ledger → Option DraftAck × Ledger
unfolding write_checkpoint
deliver delivery d now db =
    let (ack, later) = write_checkpoint delivery d now db in
    elim (delivery.fate d.seq) [
      | returns ↦ (some ack, later)
      | raises_before ↦ (none, db)
      | raises_after ↦ (none, later)
    ]

-- `ack.terminal`, where there is an acknowledgement.
abbrev pub tells_end : Option DraftAck → Bool
tells_end none = false
tells_end (some ack) = ack.terminal

-- The first draft of the tail is delivered (`_after`, `_send`). One whose delivery raises is dropped.
unfoldable pub send_first : Delivery → ℕ → DraftPublisher → Ledger → DraftPublisher × Ledger
unfolding deliver
send_first delivery now p db = elim p.tail [
  | [] ↦ (p, db)
  | d ∷ drafts ↦
      let (ack, later) = deliver delivery d now db in
      (record p { tail = drafts; closed = tells_end ack || p.closed }, later)
]

-- All drafts of the tail are delivered, as awaiting the last future does.
unfoldable pub send_all :
    Delivery → ℕ → List Draft → DraftPublisher → Ledger → DraftPublisher × Ledger
unfolding send_first
send_all delivery now [] p db = (p, db)
send_all delivery now (d ∷ drafts) p db =
    let (q, later) = send_first delivery now p db in send_all delivery now drafts q later

-- `flush`
unfoldable pub flush :
    Rules → ℕ → Delivery → ℕ → DraftPublisher → Ledger → Outcome × (DraftPublisher × Ledger)
unfolding enqueue send_all
flush rules interval_s delivery now p db =
    let (outcome, q) = if p.pending then enqueue rules interval_s now p else (returned, p) in
    let sent = send_all delivery now q.tail q db in
    elim outcome [
      | returned ↦ ((if sent.0.closed then execution_closed else returned), sent)
      | execution_closed ↦ (execution_closed, (q, db))
      | suspect_payload ↦ (suspect_payload, (q, db))
    ]

-- What happens while the model answers: calls of the publisher, and deliveries.
pub data Event : Type 0 where
  pushes : Text → ℕ → ℕ → Event
  pushes_tool : Text → ℕ → Event
  marks_phase : Phase → ℕ → Event
  delivers : ℕ → Event

unfoldable pub happen :
    Rules → ℕ → Delivery → Event → DraftPublisher → Ledger → DraftPublisher × Ledger
unfolding push push_tool mark_phase send_first
happen rules interval_s delivery (pushes text now sent) p db =
    ((push rules interval_s text now sent p).1, db)
happen rules interval_s delivery (pushes_tool tool_name sent) p db =
    ((push_tool rules interval_s tool_name sent p).1, db)
happen rules interval_s delivery (marks_phase phase sent) p db =
    ((mark_phase rules interval_s phase sent p).1, db)
happen rules interval_s delivery (delivers now) p db = send_first delivery now p db

unfoldable pub happen_all :
    Rules → ℕ → Delivery → List Event → DraftPublisher → Ledger → DraftPublisher × Ledger
unfolding happen
happen_all rules interval_s delivery [] p db = (p, db)
happen_all rules interval_s delivery (e ∷ events) p db =
    let (q, later) = happen rules interval_s delivery e p db in
    happen_all rules interval_s delivery events q later
