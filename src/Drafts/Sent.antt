-- ===== src/Drafts/Sent.antt =====
-- All drafts of a publisher of src/tracer_agent/worker/agents/chat/drafts.py are sent.
use Prim.Native.String.{String}
use tracer_agent_python.Prelude.{
  drop, ℕ, ◌≤◌, ◌≡◌, refl, sym, ap, ◌∙◌, inl, inr, ◌⊎◌, true, false, ◌||◌, List, [], ◌∷◌, some,
  arith,
}
use tracer_agent_python.ChatLedger.Rows.{Execution, Ledger}
use tracer_agent_python.ChatLedger.Statements.{find_by_id}
use tracer_agent_python.Redaction.Rules.{Text, Rules}
use tracer_agent_python.Drafts.Publisher.{Draft, DraftPublisher}
use tracer_agent_python.Drafts.Delivery.{
  Delivery, arrives, tells_end, deliver, send_first, send_all,
}
use tracer_agent_python.Drafts.Order.{final_text, covered_output}
use tracer_agent_python.Drafts.Joined.{IsJoined, send_first-IsJoined}

module _ (rules : Rules) (delivery : Delivery) where
  -- What sending changes of the publisher.
  pub record IsSent (p q : DraftPublisher) : Type 0 where
    pub same_text : q.text ≡ p.text
    pub same_seq : q.seq ≡ p.seq
    pub same_pending : q.pending ≡ p.pending

  abbrev first_sent : ℕ → DraftPublisher → Ledger → List Draft → DraftPublisher × Ledger
  first_sent now p db tail = elim tail [
    | [] ↦ (p, db)
    | d ∷ drafts ↦
        let (ack, later) = deliver delivery d now db in
        (record p { tail = drafts; closed = tells_end ack || p.closed }, later)
  ]

  first_sent-IsSent :
      (now : ℕ) (p : DraftPublisher) (db : Ledger) (tail : List Draft)
      → IsSent p (first_sent now p db tail).0
  first_sent-IsSent now p db [] = record { same_text = refl; same_seq = refl; same_pending = refl }
  first_sent-IsSent now p db (d ∷ drafts) = record {
    same_text = refl;
    same_seq = refl;
    same_pending = refl;
  }

  first_sent-tail :
      (now : ℕ) (p : DraftPublisher) (db : Ledger) (tail : List Draft)
      → p.tail ≡ tail
      → (first_sent now p db tail).0.tail ≡ drop 1 tail
  first_sent-tail now p db [] e = e
  first_sent-tail now p db (d ∷ drafts) e = refl

  send_all-IsJoined :
      (now : ℕ) (drafts : List Draft) (p : DraftPublisher) (db : Ledger)
      → p.tail ≡ drafts
      → IsJoined rules delivery p db
      → IsJoined rules delivery
          (send_all delivery now drafts p db).0
          (send_all delivery now drafts p db).1
        × (((send_all delivery now drafts p db).0.tail ≡ [])
            × IsSent p (send_all delivery now drafts p db).0)
  unfolding send_all
  send_all-IsJoined now [] p db e h =
      (h, (e, record { same_text = refl; same_seq = refl; same_pending = refl }))
  send_all-IsJoined now (d ∷ drafts) p db e h =
      let (q, later) = send_first delivery now p db in
      let sent : IsSent p q = unfold send_first in first_sent-IsSent now p db p.tail in
      let rest : q.tail ≡ drafts =
        unfold send_first in (first_sent-tail now p db p.tail refl ∙ ap (drop 1) e) in
      let all =
        send_all-IsJoined now drafts q later rest (send_first-IsJoined rules delivery now p db h) in
      (
        all.0,
        (
          all.1.0,
          record {
            same_text = all.1.1.same_text ∙ sent.same_text;
            same_seq = all.1.1.same_seq ∙ sent.same_seq;
            same_pending = all.1.1.same_pending ∙ sent.same_pending;
          },
        ),
      )

  -- The ledger has the text as its draft.
  abbrev pub HasDraft : Text → Ledger → Type 0
  HasDraft text db =
      (r : Execution) × (find_by_id delivery.execution_id db ≡ some r)
      × (r.draft_text ≡ delivery.as_stored text)

  last_text :
      (stored : String) (q : DraftPublisher)
      → q.tail ≡ []
      → 1 ≤ q.seq
      → (q.seq ≡ 0)
        ⊎ (final_text delivery.as_stored (arrives delivery) stored q.tail
            ≡ delivery.as_stored (covered_output rules q.text))
      → stored ≡ delivery.as_stored (covered_output rules q.text)
  last_text stored q e one (inl z) = absurd (omega (arith, one, z))
  last_text stored q e one (inr k) =
      sym (ap (final_text delivery.as_stored (arrives delivery) stored) e) ∙ k

  pub all_sent :
      (now : ℕ) (p : DraftPublisher) (db : Ledger)
      → IsJoined rules delivery p db
      → p.pending ≡ false
      → 1 ≤ p.seq
      → arrives delivery p.seq ≡ true
      → ((send_all delivery now p.tail p db).0.closed ≡ false)
        × HasDraft (covered_output rules p.text) (send_all delivery now p.tail p db).1
  all_sent now p db h idle some_draft last =
      let (joined, (empty, sent)) = send_all-IsJoined now p.tail p db refl h in
      let q = (send_all delivery now p.tail p db).0 in
      let text =
        last_text joined.row.draft_text q empty (omega (arith, sent.same_seq, some_draft)) (
          joined.is_ahead.last_is_whole (sent.same_pending ∙ idle)
            (ap (arrives delivery) sent.same_seq ∙ last)) in
      (
        joined.is_ahead.still_open,
        (
          joined.row,
          joined.found,
          text ∙ ap (λ t. delivery.as_stored (covered_output rules t)) sent.same_text,
        ),
      )
