-- ===== src/Drafts/Order.antt =====
-- The drafts that src/tracer_agent/worker/agents/chat/drafts.py sends off are numbered upwards, and the last one has
-- the whole text.
use Prim.Native.String.{String}
use tracer_agent_python.Prelude.{
  ℕ, suc, ◌+◌, ◌-◌, ◌≤◌, ◌<◌, ◌≡◌, refl, inl, inr, ◌⊎◌, Bool, true, false, not, ◌||◌, ◌&&◌, leb,
  List, [], ◌∷◌, ◌++◌, some, if◌then◌else◌, Bool-cases, if_true, if_false, arith,
}
use tracer_agent_python.ChatLedger.Rows.{Phase, thinking, responding, tool}
use tracer_agent_python.Redaction.Rules.{Text, Rules, output}
use tracer_agent_python.Redaction.Scan.{is_suspect_text}
use tracer_agent_python.Redaction.Cover.{redact_text, covered_text, discards}
use tracer_agent_python.Drafts.Publisher.{
  Draft, DraftPublisher, Outcome, returned, enqueue, appended, push, push_tool, mark_phase,
  same_phase, tool_marker,
}

-- The numbers rise from above `low` to `top` at most.
abbrev pub Rises : ℕ → List Draft → ℕ → Type 0
Rises low [] top = low ≤ top
Rises low (d ∷ drafts) top = (low < d.seq) × Rises d.seq drafts top

Rises-raise :
    (low : ℕ) (drafts : List Draft) (top top' : ℕ)
    → Rises low drafts top
    → top ≤ top'
    → Rises low drafts top'
Rises-raise low [] top top' h k = omega arith
Rises-raise low (d ∷ drafts) top top' h k = (h.0, Rises-raise d.seq drafts top top' h.1 k)

pub Rises-lower :
    (low low' : ℕ) (drafts : List Draft) (top : ℕ)
    → Rises low' drafts top
    → low < low'
    → Rises low drafts top
Rises-lower low low' [] top h k = omega arith
Rises-lower low low' (d ∷ drafts) top h k = (omega arith, h.1)

Rises-append :
    (low : ℕ) (drafts : List Draft) (top : ℕ) (d : Draft)
    → Rises low drafts top
    → top < d.seq
    → Rises low (drafts ++ (d ∷ [])) d.seq
Rises-append low [] top d h k = (omega arith, omega arith)
Rises-append low (e ∷ drafts) top d h k = (h.0, Rises-append e.seq drafts top d h.1 k)

-- The text that the ledger has when all drafts are sent and those arrive whose numbers pass the test.
abbrev pub final_text : (Text → String) → (ℕ → Bool) → String → List Draft → String
final_text as_stored arrives stored [] = stored
final_text as_stored arrives stored (d ∷ drafts) =
    final_text as_stored arrives (if arrives d.seq then as_stored d.text else stored) drafts

final_text-append :
    (as_stored : Text → String) (arrives : ℕ → Bool) (stored : String) (drafts : List Draft)
    (d : Draft)
    → arrives d.seq ≡ true
    → final_text as_stored arrives stored (drafts ++ (d ∷ [])) ≡ as_stored d.text
final_text-append as_stored arrives stored [] d h = rw h refl
final_text-append as_stored arrives stored (e ∷ drafts) d h =
    final_text-append as_stored arrives _ drafts d h

-- What the output stage makes of a text, where that stage covers.
abbrev pub covered_output : Rules → Text → Text
covered_output rules text =
    if not ((rules.stage_rule output).inspects_values && is_suspect_text rules text)
    then text
    else covered_text rules text

pub redact_text-output :
    (rules : Rules) (text : Text)
    → discards rules output ≡ false
    → redact_text rules output text ≡ some (covered_output rules text)
unfolding redact_text
redact_text-output rules text covers = ground (arith, covers)

-- How far the drafts in the tail have come.
abbrev pub top : DraftPublisher → ℕ
top p = if p.pending then p.seq - 1 else p.seq

-- The publisher and the draft that the ledger has, by its number and text.
pub record IsAhead (rules : Rules) (as_stored : Text → String) (arrives : ℕ → Bool) (low : ℕ)
    (stored : String) (p : DraftPublisher) : Type 0 where
  pub still_open : p.closed ≡ false
  pub pending_one : p.pending ≡ true → 1 ≤ p.seq
  pub rises : Rises low p.tail (top p)
  pub last_is_whole :
      p.pending ≡ false
      → arrives p.seq ≡ true
      → (p.seq ≡ 0)
        ⊎ (final_text as_stored arrives stored p.tail ≡ as_stored (covered_output rules p.text))

module _ (rules : Rules) (interval_s : ℕ) (as_stored : Text → String) (arrives : ℕ → Bool)
    (covers : discards rules output ≡ false) where
  -- An enqueued publisher is ahead, and the call returns.
  pub enqueue-IsAhead :
      (low : ℕ) (stored : String) (sent : ℕ) (p : DraftPublisher)
      → p.closed ≡ false
      → Rises low p.tail (p.seq - 1)
      → 1 ≤ p.seq
      → ((enqueue rules interval_s sent p).0 ≡ returned)
        × IsAhead rules as_stored arrives low stored (enqueue rules interval_s sent p).1
  unfolding enqueue
  enqueue-IsAhead low stored sent p unclosed h one =
      rw (enqueue, redact_text-output rules p.text covers)
        (
          refl,
          record {
            still_open = unclosed;
            pending_one = λ e. absurd cc;
            rises = Rises-append low p.tail (p.seq - 1) _ h (omega arith);
            last_is_whole = λ e h. inr (final_text-append as_stored arrives stored p.tail _ h);
          },
        )

  -- What an enqueued publisher is.
  abbrev pub enqueued : ℕ → DraftPublisher → DraftPublisher
  enqueued sent p = record p {
    pending = false;
    sent_at = sent;
    tail =
        p.tail
        ++ (record { seq = p.seq; phase = p.phase; text = covered_output rules p.text } ∷ []);
  }

  pub enqueue-enqueued :
      (sent : ℕ) (p : DraftPublisher)
      → enqueue rules interval_s sent p ≡ (returned, enqueued sent p)
  unfolding enqueue
  enqueue-enqueued sent p = rw (enqueue, redact_text-output rules p.text covers) refl

  pub raised :
      (low : ℕ) (stored : String) (p : DraftPublisher)
      → IsAhead rules as_stored arrives low stored p
      → Rises low p.tail p.seq
  raised low stored p h = Rises-raise low p.tail (top p) p.seq h.rises (ground arith)

  -- The next number is free.
  next_free :
      (low : ℕ) (stored : String) (p : DraftPublisher)
      → IsAhead rules as_stored arrives low stored p
      → Rises low p.tail (suc p.seq - 1)
  next_free low stored p h =
      Rises-raise low p.tail p.seq (suc p.seq - 1) (raised low stored p h) (omega arith)

  appended-IsAhead :
      (low : ℕ) (stored : String) (text : Text) (phase : Phase) (p : DraftPublisher)
      → IsAhead rules as_stored arrives low stored p
      → IsAhead rules as_stored arrives low stored (appended rules interval_s text phase p)
  unfolding appended
  appended-IsAhead low stored text phase p h = record {
    still_open = h.still_open;
    pending_one = λ e. omega arith;
    rises = next_free low stored p h;
    last_is_whole = λ e h. absurd cc;
  }

  -- The publisher that a call leaves is ahead.
  abbrev LeavesAhead : ℕ → String → Outcome × DraftPublisher → Type 0
  LeavesAhead low stored r = IsAhead rules as_stored arrives low stored r.1

  pub push-IsAhead :
      (low : ℕ) (stored : String) (text : Text) (now sent : ℕ) (p : DraftPublisher)
      → IsAhead rules as_stored arrives low stored p
      → IsAhead rules as_stored arrives low stored (push rules interval_s text now sent p).1
  unfolding push
  push-IsAhead low stored [] now sent p h = h
  push-IsAhead low stored (c ∷ text) now sent p h =
      let test = not p.opened || leb (p.sent_at + interval_s) now in
      let next = appended rules interval_s (c ∷ text) responding p in
      if_false (LeavesAhead low stored) p.closed _ _ h.still_open (elim (Bool-cases test) [
        | inl e ↦
            if_true (LeavesAhead low stored) test _ _ e
              (enqueue-IsAhead low stored sent (record next { opened = true })
                (unfold appended in h.still_open) (unfold appended in next_free low stored p h)
                (unfold appended in omega arith)).1
        | inr e ↦
            if_false (LeavesAhead low stored) test _ _ e
              (appended-IsAhead low stored (c ∷ text) responding p h)
      ])

  pub push_tool-IsAhead :
      (low : ℕ) (stored : String) (tool_name : Text) (sent : ℕ) (p : DraftPublisher)
      → IsAhead rules as_stored arrives low stored p
      → IsAhead rules as_stored arrives low stored (push_tool rules interval_s tool_name sent p).1
  unfolding push_tool
  push_tool-IsAhead low stored tool_name sent p h =
      if_false (LeavesAhead low stored) p.closed _ _ h.still_open
        (enqueue-IsAhead low stored sent (appended rules interval_s (tool_marker tool_name) tool p)
          (unfold appended in h.still_open) (unfold appended in next_free low stored p h)
          (unfold appended in omega arith)).1

  pub mark_phase-IsAhead :
      (low : ℕ) (stored : String) (phase : Phase) (sent : ℕ) (p : DraftPublisher)
      → IsAhead rules as_stored arrives low stored p
      → IsAhead rules as_stored arrives low stored (mark_phase rules interval_s phase sent p).1
  unfolding mark_phase
  mark_phase-IsAhead low stored phase sent p h =
      let same = same_phase phase p.phase in
      let back = same_phase phase thinking && same_phase p.phase responding in
      if_false (LeavesAhead low stored) p.closed _ _ h.still_open (elim (Bool-cases same) [
        | inl e ↦ if_true (LeavesAhead low stored) same _ _ e h
        | inr e ↦ if_false (LeavesAhead low stored) same _ _ e (elim (Bool-cases back) [
          | inl k ↦ if_true (LeavesAhead low stored) back _ _ k h
          | inr k ↦
              if_false (LeavesAhead low stored) back _ _ k
                (enqueue-IsAhead low stored sent
                  (record p { phase = phase; seq = suc p.seq; pending = true }) h.still_open
                  (next_free low stored p h) (omega arith)).1
        ])
      ])
