-- ===== src/Drafts/Stored.antt =====
-- A flush leaves the whole answer in the ledger (src/tracer_agent/worker/agents/chat/drafts.py on
-- src/tracer_agent/shared/agents/chat/execution_ledger.py).
use tracer_agent_python.Prelude.{ℕ, ◌≡◌, false, if◌then◌else◌}
use tracer_agent_python.ChatLedger.Rows.{Ledger}
use tracer_agent_python.Redaction.Rules.{Text, Rules, output}
use tracer_agent_python.Redaction.Cover.{discards}
use tracer_agent_python.Drafts.Publisher.{
  DraftPublisher, Outcome, returned, execution_closed, suspect_payload,
}
use tracer_agent_python.Drafts.Delivery.{Delivery, send_all}
use tracer_agent_python.Drafts.Order.{covered_output}
use tracer_agent_python.Drafts.Sent.{HasDraft}

module _ (rules : Rules) (interval_s : ℕ) (delivery : Delivery)
    (covers : discards rules output ≡ false) where
  -- A flush returns, and the ledger has the whole text.
  abbrev FlushStores : Text → Outcome × (DraftPublisher × Ledger) → Type 0
  FlushStores text r = (r.0 ≡ returned) × HasDraft rules delivery (covered_output rules text) r.1.1

  -- What the flush does once a last draft is enqueued or none was needed.
  abbrev finish : ℕ → Ledger → Outcome × DraftPublisher → Outcome × (DraftPublisher × Ledger)
  finish now db start = elim start.0 [
    | returned ↦ (
      (if (send_all delivery now start.1.tail start.1 db).0.closed
          then execution_closed
          else returned),
      send_all delivery now start.1.tail start.1 db,
    )
    | execution_closed ↦ (execution_closed, (start.1, db))
    | suspect_payload ↦ (suspect_payload, (start.1, db))
  ]
