-- ===== src/ChatTurns/Content.antt =====
-- What stands in the tables of messages and steps after a turn was written
-- (src/tracer_agent/worker/agents/chat/execution_writer.py), described row by row.
use tracer_agent_python.Prelude.{
  ℕ, ◌≡◌, ◌≢◌, ◌⊎◌, refl, sym, ◌∙◌, ap, Option, some, none, is_some, List, [], ◌∷◌, arith, ◌==◌,
  ◌&&◌, any, if◌then◌else◌, Bool-cases, inl, inr, ==_refl,
}
use tracer_agent_python.ChatTurns.Tables.{assistant, Message, Step, StepRow, ChatTurnOutcome}
use tracer_agent_python.ChatTurns.Writer.{
  put_message, assistant_message, calls_or_none, same_place, insert_step, insert_steps,
}

abbrev pub find_message : ℕ → List Message → Option Message
find_message id [] = none
find_message id (m ∷ ms) = if m.id == id then some m else find_message id ms

abbrev pub find_step : ℕ → ℕ → ℕ → List StepRow → Option StepRow
find_step execution attempt seq [] = none
find_step execution attempt seq (r ∷ rs) =
    if r.execution_id == execution && (r.attempt == attempt && r.step.seq == seq)
    then some r
    else find_step execution attempt seq rs

-- The first of a list of steps that has the number.
abbrev pub first_numbered : ℕ → List Step → Option Step
first_numbered seq [] = none
first_numbered seq (step ∷ steps) = if step.seq == seq then some step else first_numbered seq steps

abbrev or_else {ℓ} : {A : Type ℓ} → Option A → Option A → Option A
or_else none later = later
or_else (some a) later = some a

or_else_assoc {ℓ} :
    {A : Type ℓ} (x y z : Option A) → or_else (or_else x y) z ≡ or_else x (or_else y z)
or_else_assoc none y z = refl
or_else_assoc (some a) y z = refl

module _ (o : ChatTurnOutcome) (now : ℕ) where
  abbrev pub calls_said : List ℕ → Option (List ℕ)
  calls_said [] = none
  calls_said (c ∷ cs) = some (c ∷ cs)

  -- The message of the turn: a new one, or the one that was there with its text and calls replaced.
  abbrev pub said_over : Option Message → Message
  said_over none = record {
    id = o.execution_id;
    thread_id = o.thread_id;
    role = assistant;
    content = o.text;
    tool_calls = calls_said o.tool_calls;
    created_at = now;
  }
  said_over (some m) = record m { content = o.text; tool_calls = calls_said o.tool_calls }

  -- The row of one of the turn's steps.
  abbrev pub row_of : Step → StepRow
  row_of step = record {
    execution_id = o.execution_id;
    user_id = o.user_id;
    attempt = o.attempt;
    step = step;
    created_at = now;
  }

  -- What stands under a number: the row that was there, or that of the turn's first step with it.
  abbrev pub stepped_over : Option StepRow → Option Step → Option StepRow
  stepped_over (some row) step = some row
  stepped_over none none = none
  stepped_over none (some step) = some (row_of step)

  calls_same : (calls : List ℕ) → calls_or_none calls ≡ calls_said calls
  unfolding calls_or_none
  calls_same [] = refl
  calls_same (c ∷ cs) = refl

  pub put_message-said :
      (ms : List Message)
      → find_message o.execution_id (put_message (assistant_message o now) ms)
        ≡ some (said_over (find_message o.execution_id ms))
  unfolding put_message assistant_message
  put_message-said [] = rw (==_refl o.execution_id, calls_same o.tool_calls) refl
  put_message-said (x ∷ xs) = elim (Bool-cases (x.id == o.execution_id)) [
    | inl e ↦ rw (e, e, calls_same o.tool_calls) refl
    | inr e ↦ rw (e, e) (put_message-said xs)
  ]

  pub put_message-others :
      (id : ℕ) (ms : List Message)
      → id ≢ o.execution_id
      → find_message id (put_message (assistant_message o now) ms) ≡ find_message id ms
  unfolding put_message assistant_message
  put_message-others id [] h = ground arith
  put_message-others id (x ∷ xs) h = elim (Bool-cases (x.id == o.execution_id)) [
    | inl e ↦ rw e (ground arith)
    | inr e ↦ rw e (ap (λ z. if x.id == id then some x else z) (put_message-others id xs h))
  ]

  module _ (seq : ℕ) where
    abbrev found : List StepRow → Option StepRow
    found = find_step o.execution_id o.attempt seq

    found-any :
        (rows : List StepRow)
        → is_some (found rows) ≡ any (same_place o.execution_id o.attempt seq) rows
    unfolding same_place
    found-any [] = refl
    found-any (r ∷ rs) = ground (arith, found-any rs)

    abbrev numbered : Step → Option StepRow
    numbered step = if step.seq == seq then some (row_of step) else none

    insert_step-found :
        (step : Step) (rows : List StepRow)
        → found (insert_step o step now rows) ≡ or_else (found rows) (numbered step)
    unfolding insert_step same_place
    insert_step-found step rows = elim (Bool-cases (step.seq == seq)) [
      | inl e ↦
          let same : step.seq ≡ seq = ground (arith, e) in
          ground (arith, same, found-any rows, ==_refl o.execution_id, ==_refl o.attempt)
      | inr e ↦ ground (arith, ==_refl o.execution_id, ==_refl o.attempt)
    ]

    first_row-numbered :
        (step : Step) (steps : List Step) (before : Option StepRow)
        → or_else before (or_else (numbered step) (stepped_over none (first_numbered seq steps)))
          ≡ stepped_over before (first_numbered seq (step ∷ steps))
    first_row-numbered step steps (some row) = refl
    first_row-numbered step steps none = elim (Bool-cases (step.seq == seq)) [
      | inl e ↦ rw (e) refl
      | inr e ↦ rw (e) refl
    ]

    or_else-none : (x : Option StepRow) → or_else x none ≡ x
    or_else-none none = refl
    or_else-none (some row) = refl

    over-or_else :
        (x : Option StepRow) (step : Option Step)
        → stepped_over x step ≡ or_else x (stepped_over none step)
    over-or_else none step = refl
    over-or_else (some row) step = refl

    -- Under a number of the turn stands the row that was there, or that of the turn's first such step.
    pub insert_steps-found :
        (steps : List Step) (rows : List StepRow)
        → found (insert_steps o steps now rows)
          ≡ stepped_over (found rows) (first_numbered seq steps)
    unfolding insert_steps
    insert_steps-found [] rows =
        sym (or_else-none (found rows)) ∙ sym (over-or_else (found rows) none)
    insert_steps-found (step ∷ steps) rows =
        let inserted = insert_step o step now rows in
        insert_steps-found steps inserted
        ∙ over-or_else (found inserted) (first_numbered seq steps)
        ∙ ap (λ x. or_else x (stepped_over none (first_numbered seq steps)))
            (insert_step-found step rows)
        ∙ or_else_assoc (found rows) (numbered step) _
        ∙ first_row-numbered step steps (found rows)

  -- The steps of other executions and attempts stay.
  insert_step-others :
      (execution attempt seq : ℕ) (step : Step) (rows : List StepRow)
      → (execution ≢ o.execution_id) ⊎ (attempt ≢ o.attempt)
      → find_step execution attempt seq (insert_step o step now rows)
        ≡ find_step execution attempt seq rows
  unfolding insert_step
  insert_step-others execution attempt seq step rows (inl h) = ground arith
  insert_step-others execution attempt seq step rows (inr h) = ground arith

  pub insert_steps-others :
      (execution attempt seq : ℕ) (steps : List Step) (rows : List StepRow)
      → (execution ≢ o.execution_id) ⊎ (attempt ≢ o.attempt)
      → find_step execution attempt seq (insert_steps o steps now rows)
        ≡ find_step execution attempt seq rows
  unfolding insert_steps
  insert_steps-others execution attempt seq [] rows h = refl
  insert_steps-others execution attempt seq (step ∷ steps) rows h =
      insert_steps-others execution attempt seq steps (insert_step o step now rows) h
      ∙ insert_step-others execution attempt seq step rows h
