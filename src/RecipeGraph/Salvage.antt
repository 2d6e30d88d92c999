-- ===== src/RecipeGraph/Salvage.antt =====
-- `salvage_probe_report` of src/tracer_agent/shared/agents/recipe_scan/models.py.
use tracer_agent_python.Prelude.{
  ℕ, Bool, true, List, [], ◌∷◌, take, length, ltb, Option, none, some, if◌then◌else◌,
}
use tracer_agent_python.RecipeGraph.State.{
  Text, ProbeName, Excerpt, ProbeReport, Contract, RawExcerpt, RawReport,
}

infixl 5 ◌>>=◌
abbrev pub ◌>>=◌ {ℓ κ} : {A : Type ℓ} {B : Type κ} → Option A → (A → Option B) → Option B
none >>= next = none
some a >>= next = next a

unfoldable pub trim_start : (ℕ → Bool) → Text → Text
trim_start is_space [] = []
trim_start is_space (c ∷ cs) =
    let rest = trim_start is_space cs in if is_space c then rest else c ∷ cs

unfoldable pub trim_end : (ℕ → Bool) → Text → Text
trim_end is_space [] = []
trim_end is_space (c ∷ cs) = elim (trim_end is_space cs) [
  | [] ↦ if is_space c then [] else c ∷ []
  | d ∷ ds ↦ c ∷ d ∷ ds
]

-- `str.strip`
unfoldable pub strip : Contract → Text → Text
unfolding trim_start trim_end
strip contract text = trim_end contract.is_space (trim_start contract.is_space text)

-- `TrimmedStr` with a minimal length of 1.
unfoldable pub filled_text : Contract → Option Text → Option Text
unfolding strip
filled_text contract none = none
filled_text contract (some value) = elim (strip contract value) [
  | [] ↦ none
  | c ∷ cs ↦ some (c ∷ cs)
]

-- The same, with a maximal length.
unfoldable pub bounded_text : Contract → ℕ → Option Text → Option Text
unfolding filled_text
bounded_text contract limit value = elim (filled_text contract value) [
  | none ↦ none
  | some text ↦ if ltb limit (length text) then none else some text
]

-- `_clamped`
abbrev pub clamped : Option Text → ℕ → Option Text
clamped none limit = none
clamped (some value) limit = some (take limit value)

-- `Excerpt`, of what `_clamped_excerpt` leaves.
unfoldable pub salvage_excerpt : Contract → Option RawExcerpt → Option Excerpt
unfolding filled_text bounded_text
salvage_excerpt contract none = none
salvage_excerpt contract (some raw) = do
  task ← filled_text contract raw.raw_task_id
  event ← filled_text contract raw.raw_event_id
  text ←
      bounded_text contract contract.max_excerpt_chars
        (clamped raw.raw_text contract.max_excerpt_chars)
  some (record { task_id = task; event_id = event; text = text })

unfoldable pub salvage_excerpts : Contract → List (Option RawExcerpt) → Option (List Excerpt)
unfolding salvage_excerpt
salvage_excerpts contract [] = some []
salvage_excerpts contract (raw ∷ more) = do
  excerpt ← salvage_excerpt contract raw
  excerpts ← salvage_excerpts contract more
  some (excerpt ∷ excerpts)

-- `listed`
abbrev pub listed : Option (List (Option RawExcerpt)) → List (Option RawExcerpt)
listed none = []
listed (some excerpts) = excerpts

unfoldable pub salvage_probe_report : Contract → ProbeName → Option RawReport → Option ProbeReport
unfolding bounded_text salvage_excerpts
salvage_probe_report contract probe none = none
salvage_probe_report contract probe (some raw) = do
  verdict ←
      bounded_text contract contract.max_verdict_chars
        (clamped raw.raw_verdict contract.max_verdict_chars)
  excerpts ← salvage_excerpts contract (take contract.max_excerpts (listed raw.raw_excerpts))
  some (record {
    probe = probe;
    verdict = verdict;
    excerpts = excerpts;
    exhausted = raw.raw_exhausted;
    truncated = true;
  })
