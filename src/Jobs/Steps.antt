-- ===== src/Jobs/Steps.antt =====
-- A step is recorded once (src/tracer_agent/shared/workflows/jobs_ledger.py).
use tracer_agent_python.Prelude.{
  ℕ, ◌≡◌, refl, ap, ◌∙◌, inl, inr, Bool, true, List, [], ◌∷◌, ◌++◌, any, if◌then◌else◌, Bool-cases,
  arith,
}
use tracer_agent_python.Jobs.Rows.{Step, StepRow, Database}
use tracer_agent_python.Jobs.Ledger.{
  record_steps, carries_content, same_place, insert_step, insert_steps,
}

abbrev present : StepRow → List StepRow → Bool
present row rows = any (same_place row) rows

present-append :
    (row : StepRow) (rows more : List StepRow)
    → present row rows ≡ true
    → present row (rows ++ more) ≡ true
present-append row [] more h = absurd (ground arith)
present-append row (r ∷ rows) more h = ground (arith, present-append row rows more)

present-insert :
    (row other : StepRow) (rows : List StepRow)
    → present row rows ≡ true
    → present row (insert_step other rows) ≡ true
unfolding insert_step
present-insert row other rows h = elim (Bool-cases (present other rows)) [
  | inl e ↦ rw (insert_step, e) h
  | inr e ↦ rw (insert_step, e) (present-append row rows (other ∷ []) h)
]

same_place_refl : (row : StepRow) → same_place row row ≡ true
unfolding same_place
same_place_refl row = ground arith

added-present : (row : StepRow) (rows : List StepRow) → present row (rows ++ (row ∷ [])) ≡ true
added-present row [] = rw (same_place_refl row) refl
added-present row (r ∷ rows) = ground (arith, added-present row rows)

inserted-present : (row : StepRow) (rows : List StepRow) → present row (insert_step row rows) ≡ true
unfolding insert_step
inserted-present row rows = elim (Bool-cases (present row rows)) [
  | inl e ↦ rw (insert_step, e) e
  | inr e ↦ rw (insert_step, e) (added-present row rows)
]

insert-present :
    (row : StepRow) (rows : List StepRow) → present row rows ≡ true → insert_step row rows ≡ rows
unfolding insert_step
insert-present row rows h = rw (insert_step, h) refl

module _ (is_space : ℕ → Bool) (job_id user_id attempt now : ℕ) where
  abbrev row_of : ℕ → Step → StepRow
  row_of time s = record {
    job_id = job_id;
    owner_id = user_id;
    attempt = attempt;
    step = s;
    recorded_at = time;
  }

  abbrev insert_content : ℕ → Step → List StepRow → List StepRow
  insert_content time s rows =
      if carries_content is_space s then insert_step (row_of time s) rows else rows

  present-insert_content :
      (row : StepRow) (s : Step) (rows : List StepRow)
      → present row rows ≡ true
      → present row (insert_content now s rows) ≡ true
  present-insert_content row s rows h = elim (Bool-cases (carries_content is_space s)) [
    | inl e ↦ rw (insert_content, e) (present-insert row (row_of now s) rows h)
    | inr e ↦ rw (insert_content, e) h
  ]

  present-insert_steps :
      (row : StepRow) (steps : List Step) (rows : List StepRow)
      → present row rows ≡ true
      → present row (insert_steps is_space job_id user_id attempt now steps rows) ≡ true
  unfolding insert_steps
  present-insert_steps row [] rows h = h
  present-insert_steps row (s ∷ steps) rows h =
      present-insert_steps row steps (insert_content now s rows)
        (present-insert_content row s rows h)

  -- Every step with content has a row at its place.
  abbrev AreRecorded : List Step → List StepRow → Type 0
  AreRecorded [] rows = Unit
  AreRecorded (s ∷ steps) rows =
      (carries_content is_space s ≡ true → present (row_of now s) rows ≡ true)
      × AreRecorded steps rows

  insert_steps-AreRecorded :
      (steps : List Step) (rows : List StepRow)
      → AreRecorded steps (insert_steps is_space job_id user_id attempt now steps rows)
  unfolding insert_steps
  insert_steps-AreRecorded [] rows = tt
  insert_steps-AreRecorded (s ∷ steps) rows = (
    (λ c.
        present-insert_steps (row_of now s) steps (insert_content now s rows)
          (rw (insert_content, c) (inserted-present (row_of now s) rows))),
    insert_steps-AreRecorded steps (insert_content now s rows),
  )

  again :
      (later : ℕ) (s : Step) (rows : List StepRow)
      → (carries_content is_space s ≡ true → present (row_of now s) rows ≡ true)
      → insert_content later s rows ≡ rows
  again later s rows h = elim (Bool-cases (carries_content is_space s)) [
    | inl e ↦
        rw (insert_content, e) (insert-present (row_of later s) rows (unfold same_place in h e))
    | inr e ↦ rw (insert_content, e) refl
  ]

  insert_again :
      (later : ℕ) (steps : List Step) (rows : List StepRow)
      → AreRecorded steps rows
      → insert_steps is_space job_id user_id attempt later steps rows ≡ rows
  unfolding insert_steps
  insert_again later [] rows h = refl
  insert_again later (s ∷ steps) rows h =
      ap (insert_steps is_space job_id user_id attempt later steps) (again later s rows h.0)
      ∙ insert_again later steps rows h.1

-- Recording the steps of an attempt again, at whatever time, changes nothing.
pub record_steps_again :
    (is_space : ℕ → Bool) (job_id user_id attempt : ℕ) (steps : List Step) (now later : ℕ)
    (db : Database)
    → record_steps is_space job_id user_id attempt steps later
        (record_steps is_space job_id user_id attempt steps now db)
      ≡ record_steps is_space job_id user_id attempt steps now db
unfolding record_steps
record_steps_again is_space job_id user_id attempt steps now later db =
    ap (λ (rows : List StepRow). record db { steps = rows })
      (insert_again is_space job_id user_id attempt now later steps
        (insert_steps is_space job_id user_id attempt now steps db.steps)
        (insert_steps-AreRecorded is_space job_id user_id attempt now steps db.steps))
