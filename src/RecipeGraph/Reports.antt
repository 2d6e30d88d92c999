-- ===== src/RecipeGraph/Reports.antt =====
-- What `salvage_probe_report` (src/tracer_agent/shared/agents/recipe_scan/models.py) makes of a rejected report.
use mathlib.Core.Path.{subst}
use tracer_agent_python.Prelude.{
  ℕ, ◌≡◌, ◌≤◌, refl, ◌⊎◌, inl, inr, Bool, true, not, any, List, [], ◌∷◌, length, ltb, take,
  length-take, Option, none, some, All, if◌then◌else◌, Bool-cases, ltb→ge, arith,
}
use tracer_agent_python.RecipeGraph.State.{
  Text, ProbeName, Excerpt, ProbeReport, Contract, RawExcerpt, RawReport,
}
use tracer_agent_python.RecipeGraph.Salvage.{
  ◌>>=◌, trim_start, trim_end, strip, filled_text, bounded_text, salvage_excerpt, salvage_excerpts,
  listed, salvage_probe_report,
}

-- Not blank: some character is no space.
abbrev pub IsFilled : Contract → Text → Type 0
IsFilled contract text = any (λ c. not (contract.is_space c)) text ≡ true

abbrev FitsIn : Contract → ℕ → Text → Type 0
FitsIn contract limit text = IsFilled contract text × (length text ≤ limit)

-- Within every limit of the contract's schema.
pub record IsWithinLimits (contract : Contract) (r : ProbeReport) : Type 0 where
  pub verdict_fits : IsFilled contract r.verdict × (length r.verdict ≤ contract.max_verdict_chars)
  pub excerpts_fit : length r.excerpts ≤ contract.max_excerpts
  pub each_fits :
      All
        (λ (e : Excerpt).
          IsFilled contract e.task_id
          × (IsFilled contract e.event_id
              × (IsFilled contract e.text × (length e.text ≤ contract.max_excerpt_chars))))
        r.excerpts

some-bind {ℓ κ} :
    {A : Type ℓ} {B : Type κ} (o : Option A) (next : A → Option B) (b : B)
    → (o >>= next) ≡ some b
    → (a : A) × (o ≡ some a) × (next a ≡ some b)
some-bind none next b h = absurd cc
some-bind (some a) next b h = (a, refl, h)

some-inj {ℓ} : {A : Type ℓ} (a b : A) → some a ≡ some b → a ≡ b
some-inj a b h = cc

trim_end-filled :
    (is_space : ℕ → Bool) (text : Text)
    → (trim_end is_space text ≡ []) ⊎ (any (λ c. not (is_space c)) (trim_end is_space text) ≡ true)
unfolding trim_end
trim_end-filled is_space [] = inl refl
trim_end-filled is_space (c ∷ cs) = let later = trim_end-filled is_space cs in ground (arith, later)

stripped-IsFilled :
    (contract : Contract) (text result : Text)
    → (text ≡ []) ⊎ IsFilled contract text
    → elim text as (λ x. Option Text) [ [] ↦ none | c ∷ cs ↦ some (c ∷ cs) ] ≡ some result
    → IsFilled contract result
stripped-IsFilled contract [] result k h = absurd cc
stripped-IsFilled contract (c ∷ cs) result (inl e) h = absurd cc
stripped-IsFilled contract (c ∷ cs) result (inr k) h =
    subst (IsFilled contract) (some-inj _ result h) k

filled_text-IsFilled :
    (contract : Contract) (value : Option Text) (text : Text)
    → filled_text contract value ≡ some text
    → IsFilled contract text
unfolding filled_text strip
filled_text-IsFilled contract none text h = absurd cc
filled_text-IsFilled contract (some value) text h =
    stripped-IsFilled contract (strip contract value) text
      (trim_end-filled contract.is_space (trim_start contract.is_space value)) h

within-bounded :
    (limit : ℕ) (found : Option Text) (text : Text)
    → elim found as (λ x. Option Text) [
      | none ↦ none
      | some text ↦ if ltb limit (length text) then none else some text
    ]
      ≡ some text
    → (found ≡ some text) × (length text ≤ limit)
within-bounded limit none text h = absurd cc
within-bounded limit (some found) text h = elim (Bool-cases (ltb limit (length found))) [
  | inl long ↦ let h' = rw long at h in absurd cc
  | inr short ↦
      let h' : some found ≡ some text = rw short at h in
      let fits = ltb→ge limit (length found) short in (h', grind arith)
]

bounded_text-FitsIn :
    (contract : Contract) (limit : ℕ) (value : Option Text) (text : Text)
    → bounded_text contract limit value ≡ some text
    → FitsIn contract limit text
unfolding bounded_text
bounded_text-FitsIn contract limit value text h =
    let (found, fits) = within-bounded limit (filled_text contract value) text h in
    (filled_text-IsFilled contract value text found, fits)

abbrev IsExcerpt : Contract → Excerpt → Type 0
IsExcerpt contract e =
    IsFilled contract e.task_id
    × (IsFilled contract e.event_id × FitsIn contract contract.max_excerpt_chars e.text)

same-IsExcerpt :
    (contract : Contract) (task event text : Text) (e : Excerpt)
    → some (record { task_id = task; event_id = event; text = text }) ≡ some e
    → IsExcerpt contract (record { task_id = task; event_id = event; text = text })
    → IsExcerpt contract e
same-IsExcerpt contract task event text e h = subst (IsExcerpt contract) (some-inj _ e h)

salvage_excerpt-IsExcerpt :
    (contract : Contract) (raw : Option RawExcerpt) (e : Excerpt)
    → salvage_excerpt contract raw ≡ some e
    → IsExcerpt contract e
unfolding salvage_excerpt
salvage_excerpt-IsExcerpt contract none e h = absurd cc
salvage_excerpt-IsExcerpt contract (some raw) e h =
    let (task, has_task, with_task) = some-bind (filled_text contract raw.raw_task_id) _ e h in
    let (event, has_event, with_event) =
      some-bind (filled_text contract raw.raw_event_id) _ e with_task in
    let (text, has_text, with_text) =
      some-bind (bounded_text contract contract.max_excerpt_chars _) _ e with_event in
    same-IsExcerpt contract task event text e with_text (
      filled_text-IsFilled contract _ task has_task,
      (
        filled_text-IsFilled contract _ event has_event,
        bounded_text-FitsIn contract _ _ text has_text,
      ),
    )

salvage_excerpts-fit :
    (contract : Contract) (raws : List (Option RawExcerpt)) (excerpts : List Excerpt)
    → salvage_excerpts contract raws ≡ some excerpts
    → All (IsExcerpt contract) excerpts × (length excerpts ≡ length raws)
unfolding salvage_excerpts
salvage_excerpts-fit contract [] [] h = (tt, refl)
salvage_excerpts-fit contract [] (e ∷ excerpts) h = absurd cc
salvage_excerpts-fit contract (raw ∷ raws) excerpts h =
    let (first, is_first, with_first) = some-bind (salvage_excerpt contract raw) _ excerpts h in
    let (rest, is_rest, with_rest) =
      some-bind (salvage_excerpts contract raws) _ excerpts with_first in
    let (each, same_length) = salvage_excerpts-fit contract raws rest is_rest in
    subst (λ (x : List Excerpt). All (IsExcerpt contract) x × (length x ≡ length (raw ∷ raws)))
      (some-inj _ excerpts with_rest)
      ((salvage_excerpt-IsExcerpt contract raw first is_first, each), omega (arith, same_length))

kept_few {ℓ κ} :
    {A : Type ℓ} {B : Type κ} (xs : List A) (limit : ℕ) (ys : List B)
    → length xs ≡ length (take limit ys)
    → length xs ≤ limit
kept_few xs limit ys h = omega (arith, h, length-take limit ys)

salvaged-IsWithinLimits :
    (contract : Contract) (probe : ProbeName) (raw : RawReport) (r : ProbeReport)
    → salvage_probe_report contract probe (some raw) ≡ some r
    → (r.probe ≡ probe) × ((r.truncated ≡ true) × IsWithinLimits contract r)
unfolding salvage_probe_report
salvaged-IsWithinLimits contract probe raw r h =
    let (verdict, has_verdict, with_verdict) =
      some-bind (bounded_text contract contract.max_verdict_chars _) _ r h in
    let kept = take contract.max_excerpts (listed raw.raw_excerpts) in
    let (excerpts, has_excerpts, with_excerpts) =
      some-bind (salvage_excerpts contract kept) _ r with_verdict in
    let (each, same_length) = salvage_excerpts-fit contract kept excerpts has_excerpts in
    subst
      (λ (x : ProbeReport). (x.probe ≡ probe) × ((x.truncated ≡ true) × IsWithinLimits contract x))
      (some-inj _ r with_excerpts)
      (
        refl,
        (
          refl,
          record {
            verdict_fits = bounded_text-FitsIn contract _ _ verdict has_verdict;
            excerpts_fit =
                kept_few excerpts contract.max_excerpts (listed raw.raw_excerpts) same_length;
            each_fits = each;
          },
        ),
      )

-- A report that is salvaged from a rejected one is the probe's, is marked as truncated, and is within every limit of
-- the contract: its verdict and the texts of its excerpts are not blank and not too long, its excerpts name
-- their task and event, and there are not too many of them.
pub salvage_fits :
    (contract : Contract) (probe : ProbeName) (rejected : Option RawReport) (r : ProbeReport)
    → salvage_probe_report contract probe rejected ≡ some r
    → (r.probe ≡ probe) × ((r.truncated ≡ true) × IsWithinLimits contract r)
salvage_fits contract probe none r h = unfold salvage_probe_report in absurd cc
salvage_fits contract probe (some raw) r h = salvaged-IsWithinLimits contract probe raw r h
