-- ===== src/Drafts/Joined.antt =====
-- A publisher of src/tracer_agent/worker/agents/chat/drafts.py beside the row of
-- src/tracer_agent/shared/agents/chat/execution_ledger.py that its drafts go to.
use mathlib.Core.Path.{subst}
use tracer_agent_python.Prelude.{
  ℕ, ◌<◌, ◌≡◌, refl, sym, ◌∙◌, inl, inr, ◌⊎◌, Bool, true, false, ◌||◌, ◌&&◌, ◌==◌, List, [], ◌∷◌,
  Option, none, some, if_true, arith,
}
use tracer_agent_python.ChatLedger.Rows.{Execution, Ledger, is_running, is_terminal}
use tracer_agent_python.ChatLedger.Statements.{checkpoint_running, find_by_id, write_draft}
use tracer_agent_python.ChatLedger.Serial.{IsSerial}
use tracer_agent_python.ChatLedger.Requests.{checkpoint, after}
use tracer_agent_python.ChatLedger.Turns.{after-IsSerial}
use tracer_agent_python.ChatLedger.Outcomes.{checkpoint_outcome}
use tracer_agent_python.Redaction.Rules.{Rules}
use tracer_agent_python.Drafts.Publisher.{Draft, DraftPublisher}
use tracer_agent_python.Drafts.Delivery.{
  Fate, returns, raises_before, raises_after, Delivery, DraftAck, arrives, tells_end,
  write_checkpoint, deliver, send_first,
}
use tracer_agent_python.Drafts.Order.{Rises, Rises-lower, top, IsAhead}

-- The ledger has a running row for the publisher's attempt, and the publisher is ahead of it.
pub record IsJoined (rules : Rules) (delivery : Delivery) (p : DraftPublisher) (db : Ledger)
    : Type 0 where
  pub serial : IsSerial db
  pub row : Execution
  pub found : find_by_id delivery.execution_id db ≡ some row
  pub runs : is_running row.status ≡ true
  pub same_attempt : (row.attempt == delivery.attempt) ≡ true
  pub is_ahead : IsAhead rules delivery.as_stored (arrives delivery) row.draft_seq row.draft_text p

all_true : {a b c : Bool} → a ≡ true → b ≡ true → c ≡ true → (a && (b && c)) ≡ true
all_true p q r = rw (p, q, r) refl

both_false : {a b : Bool} → a ≡ false → b ≡ false → (a || b) ≡ false
both_false p q = rw (p, q) refl

Fate-cases : (fate : Fate) → (fate ≡ returns) ⊎ ((fate ≡ raises_before) ⊎ (fate ≡ raises_after))
Fate-cases returns = inl refl
Fate-cases raises_before = inr (inl refl)
Fate-cases raises_after = inr (inr refl)

module _ (rules : Rules) (delivery : Delivery) where
  checkpoint-IsSerial :
      (d : Draft) (now : ℕ) (db : Ledger)
      → IsSerial db
      → IsSerial
          (checkpoint_running delivery.execution_id delivery.attempt
            (delivery.as_stored d.text)
            d.seq
            d.phase
            now
            db).1
  checkpoint-IsSerial d now db h =
      unfold after in
      after-IsSerial
        (checkpoint delivery.execution_id delivery.attempt (delivery.as_stored d.text) d.seq d.phase
          now)
        db h

  -- A draft above the ledger's is stored, and its row is running still.
  write_checkpoint-stored :
      (d : Draft) (now : ℕ) (db : Ledger) (r : Execution)
      → IsSerial db
      → find_by_id delivery.execution_id db ≡ some r
      → is_running r.status ≡ true
      → (r.attempt == delivery.attempt) ≡ true
      → r.draft_seq < d.seq
      → ((write_checkpoint delivery d now db).0.terminal ≡ false)
        × (IsSerial (write_checkpoint delivery d now db).1
            × (find_by_id delivery.execution_id (write_checkpoint delivery d now db).1
                ≡ some (write_draft (delivery.as_stored d.text) d.seq d.phase now r)))
  unfolding write_checkpoint
  write_checkpoint-stored d now db r serial found runs same above =
      let outcome =
        checkpoint_outcome delivery.execution_id delivery.attempt (delivery.as_stored d.text) d.seq
          d.phase now db r serial found in
      let (stored, later) =
        checkpoint_running delivery.execution_id delivery.attempt (delivery.as_stored d.text) d.seq
          d.phase now db in
      let is_stored : stored ≡ true = outcome.0 ∙ all_true runs same (ground (arith, above)) in
      (
        if_true {A = Option Execution}
            (λ row.
              elim row as (λ x. Bool) [ none ↦ false | some t ↦ is_terminal t.status ] ≡ false)
            stored _ _ is_stored refl,
        (
          checkpoint-IsSerial d now db serial,
          outcome.1
              ∙ if_true {A = Execution}
                  (λ row.
                    some row ≡ some (write_draft (delivery.as_stored d.text) d.seq d.phase now r))
                  stored _ _ is_stored refl,
        ),
      )

  -- A draft that was written, by a delivery that returns or raises after that.
  written-IsJoined :
      (now : ℕ) (p : DraftPublisher) (db : Ledger) (d : Draft) (drafts : List Draft) (ends : Bool)
      → p.tail ≡ d ∷ drafts
      → (h : IsJoined rules delivery p db) → arrives delivery d.seq ≡ true
      → ends ≡ false
      → IsJoined rules delivery
          (record p { tail = drafts; closed = ends || p.closed })
          (write_checkpoint delivery d now db).1
  written-IsJoined now p db d drafts ends e h k goes_on =
      let rises : Rises h.row.draft_seq (d ∷ drafts) (top p) = rw e at h.is_ahead.rises in
      let stored =
        write_checkpoint-stored d now db h.row h.serial h.found h.runs h.same_attempt rises.0 in
      record {
        serial = stored.1.0;
        row = write_draft (delivery.as_stored d.text) d.seq d.phase now h.row;
        found = stored.1.1;
        runs = unfold write_draft in h.runs;
        same_attempt = unfold write_draft in h.same_attempt;
        is_ahead =
            unfold write_draft in
            record {
              still_open = both_false goes_on h.is_ahead.still_open;
              pending_one = h.is_ahead.pending_one;
              rises = rises.1;
              last_is_whole = λ idle last. rw (e, k) at (h.is_ahead.last_is_whole idle last);
            };
      }

  -- A draft whose delivery raises before it writes is dropped.
  dropped-IsJoined :
      (p : DraftPublisher) (db : Ledger) (d : Draft) (drafts : List Draft)
      → p.tail ≡ d ∷ drafts
      → IsJoined rules delivery p db
      → arrives delivery d.seq ≡ false
      → IsJoined rules delivery (record p { tail = drafts }) db
  dropped-IsJoined p db d drafts e h k =
      let rises : Rises h.row.draft_seq (d ∷ drafts) (top p) = rw e at h.is_ahead.rises in
      record {
        serial = h.serial;
        row = h.row;
        found = h.found;
        runs = h.runs;
        same_attempt = h.same_attempt;
        is_ahead = record {
          still_open = h.is_ahead.still_open;
          pending_one = h.is_ahead.pending_one;
          rises = Rises-lower h.row.draft_seq d.seq drafts (top p) rises.1 rises.0;
          last_is_whole = λ idle last. rw (e, k) at (h.is_ahead.last_is_whole idle last);
        };
      }

  sent-IsJoined :
      (now : ℕ) (p : DraftPublisher) (db : Ledger) (tail : List Draft)
      → p.tail ≡ tail
      → (h : IsJoined rules delivery p db)
      → let sent = elim tail as (λ x. DraftPublisher × Ledger) [
        | [] ↦ (p, db)
        | d ∷ drafts ↦
            let (ack, later) = deliver delivery d now db in
            (record p { tail = drafts; closed = tells_end ack || p.closed }, later)
      ] in
        IsJoined rules delivery sent.0 sent.1
  sent-IsJoined now p db [] e h = h
  sent-IsJoined now p db (d ∷ drafts) e h =
      let rises : Rises h.row.draft_seq (d ∷ drafts) (top p) = rw e at h.is_ahead.rises in
      let goal = λ (z : Option DraftAck × Ledger).
        IsJoined rules delivery (record p { tail = drafts; closed = tells_end z.0 || p.closed })
          z.1 in
      elim (Fate-cases (delivery.fate d.seq)) [
        | inl k ↦
            let stored =
              write_checkpoint-stored d now db h.row h.serial h.found h.runs h.same_attempt
                rises.0 in
            let sent : deliver delivery d now db ≡ (
              some (write_checkpoint delivery d now db).0,
              (write_checkpoint delivery d now db).1,
            ) =
              unfold deliver in ground (arith, k) in
            subst goal (sym sent)
              (written-IsJoined now p db d drafts _ e h (ground (arith, k)) stored.0)
        | inr (inl k) ↦
            let sent : deliver delivery d now db ≡ (none, db) =
              unfold deliver in ground (arith, k) in
            subst goal (sym sent) (dropped-IsJoined p db d drafts e h (ground (arith, k)))
        | inr (inr k) ↦
            let sent : deliver delivery d now db ≡ (none, (write_checkpoint delivery d now db).1) =
              unfold deliver in ground (arith, k) in
            subst goal (sym sent)
              (written-IsJoined now p db d drafts false e h (ground (arith, k)) refl)
      ]

  pub send_first-IsJoined :
      (now : ℕ) (p : DraftPublisher) (db : Ledger)
      → IsJoined rules delivery p db
      → IsJoined rules delivery (send_first delivery now p db).0 (send_first delivery now p db).1
  unfolding send_first
  send_first-IsJoined now p db h = sent-IsJoined now p db p.tail refl h
