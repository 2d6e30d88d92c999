-- ===== src/Validation/Grounded.antt =====
-- What src/tracer_agent/worker/agents/task_cleanup/policy.py lets through.
use tracer_agent_python.Prelude.{
  ℕ, zero, suc, ◌⊎◌, ◌≡◌, ◌≢◌, ◌≤◌, refl, ap, ◌∙◌, ◌↔◌, inl, inr, Bool, true, false, not, List, [],
  ◌∷◌, ◌++◌, length, ◌&&◌, take, length-take, if◌then◌else◌, is_some, All, All-map, All-take, arith,
  Bool-cases,
}
use tracer_agent_python.Validation.Sets.{
  is_nil, member, lookup, set_at, has_key, IsSupported, report-empty, append-both,
}
use tracer_agent_python.Validation.Firsts.{first_of_each, deduplicated-first_of_each}
use tracer_agent_python.Validation.Cleanup.{
  CleanupSuggestion, TaskCleanupState, CleanupError, deduplicated, candidate_has_events,
  evidence_errors, sort_out, filter_valid_suggestions, unsupported_candidate, unsupported_events,
  never_inspected, no_inspected_evidence,
}

-- The suggestion is about an exposed task and cites events that were read of it; if the task has
-- events it was inspected, and if events were read of it one is cited.
pub record IsGrounded (state : TaskCleanupState) (s : CleanupSuggestion) : Type 0 where
  pub is_exposed : is_some (lookup s.task_id state.exposed_candidates) ≡ true
  pub cites_read_events :
      IsSupported s.evidence_event_ids (set_at s.task_id state.event_ids_by_task)
  pub was_inspected :
      candidate_has_events (lookup s.task_id state.exposed_candidates) ≡ true
      → has_key s.task_id state.event_ids_by_task ≡ true
  pub cites_an_event : set_at s.task_id state.event_ids_by_task ≢ [] → s.evidence_event_ids ≢ []

exposed-empty :
    (task : ℕ) (b : Bool) → ((if b then [] else unsupported_candidate task ∷ []) ≡ []) ↔ (b ≡ true)
exposed-empty task b = ground arith

IsInspected : Bool → Bool → List ℕ → List ℕ → Type 0
IsInspected has_events inspected supported cited =
    (has_events ≡ true → inspected ≡ true) × (supported ≢ [] → cited ≢ [])

IsInspected-empty :
    (task : ℕ) (has_events inspected : Bool) (supported cited : List ℕ)
    → ((if has_events && not inspected
          then never_inspected task ∷ []
          else if not (is_nil supported) && is_nil cited
          then no_inspected_evidence task ∷ []
          else [])
        ≡ [])
      ↔ IsInspected has_events inspected supported cited
unfolding IsInspected
IsInspected-empty task has_events inspected [] [] = ground arith
IsInspected-empty task has_events inspected [] (c ∷ cited) = ground arith
IsInspected-empty task has_events inspected (e ∷ supported) [] =
    ((λ h. absurd (ground arith)), λ w. absurd (w.1 (λ e. absurd cc) refl))
IsInspected-empty task has_events inspected (e ∷ supported) (c ∷ cited) = ground arith

-- A suggestion has no error exactly if it is grounded.
pub evidence_errors_iff :
    (state : TaskCleanupState) (s : CleanupSuggestion)
    → (evidence_errors s state.exposed_candidates state.event_ids_by_task ≡ []) ↔ IsGrounded state s
unfolding evidence_errors IsInspected
evidence_errors_iff state s =
    let parts =
      append-both _ _
        (exposed-empty s.task_id (is_some (lookup s.task_id state.exposed_candidates)))
        (append-both _ _
          (report-empty (unsupported_events s.task_id) s.evidence_event_ids
            (set_at s.task_id state.event_ids_by_task))
          (IsInspected-empty s.task_id
            (candidate_has_events (lookup s.task_id state.exposed_candidates))
            (has_key s.task_id state.event_ids_by_task) (set_at s.task_id state.event_ids_by_task)
            s.evidence_event_ids)) in
    (
      (λ h.
          let (x, (c, (w, n))) = parts.0 h in
          record { is_exposed = x; cites_read_events = c; was_inspected = w; cites_an_event = n }),
      λ g. parts.1 (g.is_exposed, (g.cites_read_events, (g.was_inspected, g.cites_an_event))),
    )

abbrev faults : TaskCleanupState → CleanupSuggestion → List CleanupError
faults state s = evidence_errors s state.exposed_candidates state.event_ids_by_task

sort_out-clean :
    (state : TaskCleanupState) (s : CleanupSuggestion) (suggestions : List CleanupSuggestion)
    → faults state s ≡ []
    → sort_out state (s ∷ suggestions)
      ≡ (s ∷ (sort_out state suggestions).0, (sort_out state suggestions).1)
unfolding sort_out
sort_out-clean state s suggestions h = rw (sort_out, h) refl

sort_out-faulty :
    (state : TaskCleanupState) (s : CleanupSuggestion) (suggestions : List CleanupSuggestion)
    (e : CleanupError) (es : List CleanupError)
    → faults state s ≡ e ∷ es
    → sort_out state (s ∷ suggestions)
      ≡ ((sort_out state suggestions).0, (e ∷ es) ++ (sort_out state suggestions).1)
unfolding sort_out
sort_out-faulty state s suggestions e es h = rw (sort_out, h) refl

List-cases :
    (xs : List CleanupError)
    → (xs ≡ []) ⊎ ((e : CleanupError) × (es : List CleanupError) × (xs ≡ e ∷ es))
List-cases [] = inl refl
List-cases (x ∷ xs) = inr (x, xs, refl)

sort_out-IsGrounded :
    (state : TaskCleanupState) (suggestions : List CleanupSuggestion)
    → All (IsGrounded state) (sort_out state suggestions).0
sort_out-IsGrounded state [] = unfold sort_out in tt
sort_out-IsGrounded state (s ∷ suggestions) = elim (List-cases (faults state s)) [
  | inl h ↦
      rw (sort_out-clean state s suggestions h)
        ((evidence_errors_iff state s).0 h, sort_out-IsGrounded state suggestions)
  | inr (e, es, h) ↦
      rw (sort_out-faulty state s suggestions e es h) (sort_out-IsGrounded state suggestions)
]

sort_out-All :
    (state : TaskCleanupState) (P : CleanupSuggestion → Type 0)
    (suggestions : List CleanupSuggestion)
    → All P suggestions
    → All P (sort_out state suggestions).0
sort_out-All state P [] h = unfold sort_out in tt
sort_out-All state P (s ∷ suggestions) h = elim (List-cases (faults state s)) [
  | inl e ↦ rw (sort_out-clean state s suggestions e) (h.0, sort_out-All state P suggestions h.1)
  | inr (e, es, k) ↦
      rw (sort_out-faulty state s suggestions e es k) (sort_out-All state P suggestions h.1)
]

-- No two suggestions are about one task.
abbrev pub HasDistinctTasks : List CleanupSuggestion → Type 0
HasDistinctTasks [] = Unit
HasDistinctTasks (s ∷ suggestions) =
    All (λ (t : CleanupSuggestion). s.task_id ≢ t.task_id) suggestions
    × HasDistinctTasks suggestions

sort_out-HasDistinctTasks :
    (state : TaskCleanupState) (suggestions : List CleanupSuggestion)
    → HasDistinctTasks suggestions
    → HasDistinctTasks (sort_out state suggestions).0
sort_out-HasDistinctTasks state [] h = unfold sort_out in tt
sort_out-HasDistinctTasks state (s ∷ suggestions) h = elim (List-cases (faults state s)) [
  | inl e ↦ rw (sort_out-clean state s suggestions e) (
    sort_out-All state (λ t. s.task_id ≢ t.task_id) suggestions h.0,
    sort_out-HasDistinctTasks state suggestions h.1,
  )
  | inr (e, es, k) ↦
      rw (sort_out-faulty state s suggestions e es k)
        (sort_out-HasDistinctTasks state suggestions h.1)
]

take-HasDistinctTasks :
    (n : ℕ) (xs : List CleanupSuggestion) → HasDistinctTasks xs → HasDistinctTasks (take n xs)
take-HasDistinctTasks zero xs h = tt
take-HasDistinctTasks (suc n) [] h = tt
take-HasDistinctTasks (suc n) (x ∷ xs) h = (All-take _ n xs h.0, take-HasDistinctTasks n xs h.1)

-- No task of the suggestions is among those.
abbrev NotSeen : List ℕ → List CleanupSuggestion → Type 0
NotSeen seen suggestions =
    All (λ (s : CleanupSuggestion). member s.task_id seen ≡ false) suggestions

not_seen-parts :
    (a b : ℕ) (seen : List ℕ) → member b (a ∷ seen) ≡ false → (a ≢ b) × (member b seen ≡ false)
unfolding member
not_seen-parts a b seen h = ground arith

deduplicated-NotSeen :
    (suggestions : List CleanupSuggestion) (seen : List ℕ)
    → NotSeen seen (deduplicated suggestions seen)
unfolding deduplicated
deduplicated-NotSeen [] seen = tt
deduplicated-NotSeen (s ∷ suggestions) seen = elim (Bool-cases (member s.task_id seen)) [
  | inl h ↦ rw h (deduplicated-NotSeen suggestions seen)
  | inr h ↦ rw h (
    h,
    All-map (λ t k. (not_seen-parts s.task_id t.task_id seen k).1) _
        (deduplicated-NotSeen suggestions (s.task_id ∷ seen)),
  )
]

deduplicated-HasDistinctTasks :
    (suggestions : List CleanupSuggestion) (seen : List ℕ)
    → HasDistinctTasks (deduplicated suggestions seen)
unfolding deduplicated
deduplicated-HasDistinctTasks [] seen = tt
deduplicated-HasDistinctTasks (s ∷ suggestions) seen = elim (Bool-cases (member s.task_id seen)) [
  | inl h ↦ rw h (deduplicated-HasDistinctTasks suggestions seen)
  | inr h ↦ rw h (
    All-map (λ t k. (not_seen-parts s.task_id t.task_id seen k).0) _
        (deduplicated-NotSeen suggestions (s.task_id ∷ seen)),
    deduplicated-HasDistinctTasks suggestions (s.task_id ∷ seen),
  )
]

sort_out-whole :
    (state : TaskCleanupState) (suggestions : List CleanupSuggestion)
    → (sort_out state suggestions).1 ≡ []
    → (sort_out state suggestions).0 ≡ suggestions
sort_out-whole state [] h = unfold sort_out in refl
sort_out-whole state (s ∷ suggestions) h = elim (List-cases (faults state s)) [
  | inl e ↦ rw (sort_out-clean state s suggestions e) (
      ap (λ r. s ∷ r)
        (sort_out-whole state suggestions (rw (sort_out-clean state s suggestions e) at h)))
  | inr (e, es, k) ↦
      let h' : (e ∷ es) ++ (sort_out state suggestions).1 ≡ [] =
        rw (sort_out-faulty state s suggestions e es k) at h in
      absurd cc
]

-- What the policy lets through is grounded, about different tasks and no more than the maximum; and if
-- it finds no error, it is the first suggestion for each task, up to the maximum.
pub filter_valid_sound :
    (suggestions : List CleanupSuggestion) (state : TaskCleanupState)
    → All (IsGrounded state) (filter_valid_suggestions suggestions state).0
      × (HasDistinctTasks (filter_valid_suggestions suggestions state).0
          × ((length (filter_valid_suggestions suggestions state).0 ≤ state.max_suggestions)
              × ((filter_valid_suggestions suggestions state).1 ≡ []
                  → (filter_valid_suggestions suggestions state).0
                    ≡ take state.max_suggestions (first_of_each suggestions))))
unfolding filter_valid_suggestions
filter_valid_sound suggestions state =
    let unique = deduplicated suggestions [] in
    let valid = (sort_out state unique).0 in
    (
      All-take (IsGrounded state) state.max_suggestions valid (sort_out-IsGrounded state unique),
      (
        take-HasDistinctTasks state.max_suggestions valid
            (sort_out-HasDistinctTasks state unique (deduplicated-HasDistinctTasks suggestions [])),
        (
          omega (arith, length-take state.max_suggestions valid),
          λ h.
              ap (take state.max_suggestions)
                (sort_out-whole state unique h ∙ deduplicated-first_of_each suggestions),
        ),
      ),
    )
