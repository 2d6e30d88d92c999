-- ===== src/Validation/Firsts.antt =====
-- The first suggestion for each task, and the loop of src/tracer_agent/worker/agents/task_cleanup/policy.py that
-- keeps it.
use tracer_agent_python.Prelude.{
  ℕ, ◌≡◌, refl, sym, ap, ◌∙◌, inl, inr, true, not, List, [], ◌∷◌, ◌==◌, filter, arith, Bool-cases,
}
use tracer_agent_python.Validation.Sets.{member}
use tracer_agent_python.Validation.Cleanup.{CleanupSuggestion, deduplicated}

-- The suggestions about other tasks.
abbrev pub without : ℕ → List CleanupSuggestion → List CleanupSuggestion
without task = filter (λ (s : CleanupSuggestion). not (task == s.task_id))

-- The first suggestion for each task: the head, and what is left of the others without its task.
abbrev pub first_of_each : List CleanupSuggestion → List CleanupSuggestion
first_of_each [] = []
first_of_each (s ∷ suggestions) = s ∷ without s.task_id (first_of_each suggestions)

abbrev unseen : List ℕ → List CleanupSuggestion → List CleanupSuggestion
unseen seen = filter (λ (s : CleanupSuggestion). not (member s.task_id seen))

unseen-without :
    (task : ℕ) (seen : List ℕ) (xs : List CleanupSuggestion)
    → unseen (task ∷ seen) xs ≡ unseen seen (without task xs)
unfolding member
unseen-without task seen [] = refl
unseen-without task seen (x ∷ xs) = ground (arith, unseen-without task seen xs)

seen-without :
    (task : ℕ) (seen : List ℕ) (xs : List CleanupSuggestion)
    → member task seen ≡ true
    → unseen seen (without task xs) ≡ unseen seen xs
seen-without task seen [] h = refl
seen-without task seen (x ∷ xs) h = elim (Bool-cases (task == x.task_id)) [
  | inl e ↦
      let same : task ≡ x.task_id = ground (arith, e) in
      let known : member x.task_id seen ≡ true = ap (λ k. member k seen) (sym same) ∙ h in
      rw (e, known) (seen-without task seen xs h)
  | inr e ↦ rw (e, seen-without task seen xs h) refl
]

deduplicated-unseen :
    (suggestions : List CleanupSuggestion) (seen : List ℕ)
    → deduplicated suggestions seen ≡ unseen seen (first_of_each suggestions)
unfolding deduplicated
deduplicated-unseen [] seen = refl
deduplicated-unseen (s ∷ suggestions) seen = elim (Bool-cases (member s.task_id seen)) [
  | inl h ↦ rw h (
      deduplicated-unseen suggestions seen
      ∙ sym (seen-without s.task_id seen (first_of_each suggestions) h))
  | inr h ↦ rw h (
      ap (λ r. s ∷ r)
        (deduplicated-unseen suggestions (s.task_id ∷ seen)
          ∙ unseen-without s.task_id seen (first_of_each suggestions)))
]

all_unseen : (xs : List CleanupSuggestion) → unseen [] xs ≡ xs
unfolding member
all_unseen [] = refl
all_unseen (x ∷ xs) = ap (λ r. x ∷ r) (all_unseen xs)

pub deduplicated-first_of_each :
    (suggestions : List CleanupSuggestion) → deduplicated suggestions [] ≡ first_of_each suggestions
deduplicated-first_of_each suggestions =
    deduplicated-unseen suggestions [] ∙ all_unseen (first_of_each suggestions)
