-- ===== src/Drafts/Publisher.antt =====
-- `DraftPublisher` of src/tracer_agent/worker/agents/chat/drafts.py. A text is the list of its code points; the two
-- readings of the clock in one call are its arguments. `tail` has the drafts that were sent off and
-- not delivered yet, in the order in which the chained futures deliver them.
use tracer_agent_python.Prelude.{
  ℕ, suc, ◌+◌, Bool, true, false, not, ◌||◌, ◌&&◌, leb, List, [], ◌∷◌, ◌++◌, none, some,
  if◌then◌else◌,
}
use tracer_agent_python.ChatLedger.Rows.{Phase, starting, thinking, responding, tool, done}
use tracer_agent_python.Redaction.Rules.{Text, Rules, output}
use tracer_agent_python.Redaction.Cover.{redact_text}

pub record Draft : Type 0 where
  pub seq : ℕ
  pub phase : Phase
  pub text : Text

pub record DraftPublisher : Type 0 where
  pub text : Text
  pub seq : ℕ
  pub sent_at : ℕ
  pub opened : Bool
  pub pending : Bool
  pub closed : Bool
  pub phase : Phase
  pub tail : List Draft

abbrev pub new_publisher : DraftPublisher
new_publisher = record {
  text = [];
  seq = 0;
  sent_at = 0;
  opened = false;
  pending = false;
  closed = false;
  phase = starting;
  tail = [];
}

-- `ChatExecutionClosed`, and `SuspectPayloadError` from the redaction
pub data Outcome : Type 0 where
  returned execution_closed suspect_payload : Outcome

unfoldable pub same_phase : Phase → Phase → Bool
same_phase starting starting = true
same_phase thinking thinking = true
same_phase responding responding = true
same_phase tool tool = true
same_phase done done = true
same_phase _ _ = false

-- `tool_marker`
unfoldable pub tool_marker : Text → Text
tool_marker tool_name = 10 ∷ 10 ∷ b'`' ∷ (tool_name ++ (b'`' ∷ 10 ∷ 10 ∷ []))

module _ (rules : Rules) (interval_s : ℕ) where
  -- `_enqueue`
  unfoldable pub enqueue : ℕ → DraftPublisher → Outcome × DraftPublisher
  unfolding redact_text
  enqueue sent p = elim (redact_text rules output p.text) [
    | none ↦ (suspect_payload, record p { pending = false; sent_at = sent })
    | some covered ↦ (
      returned,
      record p {
        pending = false;
        sent_at = sent;
        tail = p.tail ++ (record { seq = p.seq; phase = p.phase; text = covered } ∷ []);
      },
    )
  ]

  unfoldable pub appended : Text → Phase → DraftPublisher → DraftPublisher
  appended text phase p = record p {
    text = p.text ++ text;
    seq = suc p.seq;
    phase = phase;
    pending = true;
  }

  unfoldable pub push : Text → ℕ → ℕ → DraftPublisher → Outcome × DraftPublisher
  unfolding appended enqueue
  push [] now sent p = (returned, p)
  push (c ∷ text) now sent p =
      let next = appended (c ∷ text) responding p in
      if p.closed
      then (execution_closed, p)
      else if not p.opened || leb (p.sent_at + interval_s) now
      then enqueue sent (record next { opened = true })
      else (returned, next)

  unfoldable pub push_tool : Text → ℕ → DraftPublisher → Outcome × DraftPublisher
  unfolding appended enqueue tool_marker
  push_tool tool_name sent p =
      if p.closed
      then (execution_closed, p)
      else enqueue sent (appended (tool_marker tool_name) tool p)

  unfoldable pub mark_phase : Phase → ℕ → DraftPublisher → Outcome × DraftPublisher
  unfolding enqueue same_phase
  mark_phase phase sent p =
      if p.closed
      then (execution_closed, p)
      else if same_phase phase p.phase
      then (returned, p)
      else if same_phase phase thinking && same_phase p.phase responding
      then (returned, p)
      else enqueue sent (record p { phase = phase; seq = suc p.seq; pending = true })
