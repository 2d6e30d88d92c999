-- ===== src/Budget/Sharing.antt =====
-- Several tool loops that charge one `ExecutionBudget`
-- (src/tracer_agent/worker/agents/runtime/llm/budget.py), in any interleaving. A charge has no await
-- in it, so one charge is one step.
use tracer_agent_python.Prelude.{
  ℕ, zero, suc, ◌+◌, ◌≤◌, ◌≡◌, refl, ◌∙◌, Option, none, some, List, [], ◌∷◌, map, sum, arith,
  get_elem?, set, All, All-map, All-set, All-get, max,
}
use tracer_agent_python.Budget.Execution.{
  Pacing, ExecutionBudget, ToolLoopBudget, new_loop, charge, charge_execution, land,
}

pub record Run : Type 0 where
  pub execution : ExecutionBudget
  pub loops : List ToolLoopBudget

abbrev pub loop_spent : ToolLoopBudget → ℕ
loop_spent l = l.spent

-- One step of the run: a node opens its loop, or the loop at an index charges or lands.
pub data Step (pacing : Pacing) (r u : Run) : Type 0 where
  opens :
      (limit : Option ℕ)
      → u ≡ record r { loops = new_loop r.execution limit ∷ r.loops }
      → Step pacing r u
  charges :
      (i : ℕ) (l : ToolLoopBudget) (price : Option ℕ)
      → get_elem? r.loops i ≡ some l
      → u ≡ (
          let (_, e', l') = charge pacing r.execution l price in
          record { execution = e'; loops = set r.loops i l' })
      → Step pacing r u
  lands :
      (i : ℕ) (l : ToolLoopBudget)
      → get_elem? r.loops i ≡ some l
      → u ≡ record r { loops = set r.loops i (land l) }
      → Step pacing r u

pub data Steps (pacing : Pacing) (r : Run) : Run → Type 0 where
  rest : Steps pacing r r
  then_step : {t u : Run} → Steps pacing r t → Step pacing t u → Steps pacing r u

-- A loop's peak was seen by the execution, and its limit is within the execution's.
abbrev Fits : ExecutionBudget → ToolLoopBudget → Type 0
Fits e l = (l.peak ≤ e.peak) × (l.max ≤ e.max)

-- The execution has spent what it started with and what its loops have spent.
pub record IsShared (start limit : ℕ) (r : Run) : Type 0 where
  pub accounted : r.execution.spent ≡ start + sum (map loop_spent r.loops)
  pub fits : All (Fits r.execution) r.loops
  pub limit_kept : r.execution.max ≡ limit

sum-set :
    (ls : List ToolLoopBudget) (i : ℕ) (l l' : ToolLoopBudget)
    → get_elem? ls i ≡ some l
    → sum (map loop_spent (set ls i l')) + l.spent ≡ sum (map loop_spent ls) + l'.spent
sum-set [] i l l' h = ground arith
sum-set (x ∷ ls) zero l l' h = ground arith
sum-set (x ∷ ls) (suc i) l l' h = omega (arith, sum-set ls i l l' h)

charged :
    (pacing : Pacing) (e : ExecutionBudget) (cost : ℕ) (l : ToolLoopBudget) (loop_peak : ℕ)
    → (charge_execution pacing e cost l loop_peak).1
      ≡ record e { spent = e.spent + cost; peak = max e.peak cost }
unfolding charge_execution
charged pacing e cost l loop_peak = ground arith

module _ (pacing : Pacing) (start limit : ℕ) where
  -- A loop that is replaced by another that fits the new execution, which accounts for the difference.
  replace-IsShared :
      (r : Run) (i : ℕ) (l l' : ToolLoopBudget) (e' : ExecutionBudget)
      → get_elem? r.loops i ≡ some l
      → IsShared start limit r
      → e'.spent + l.spent ≡ r.execution.spent + l'.spent
      → r.execution.peak ≤ e'.peak
      → e'.max ≡ r.execution.max
      → Fits e' l'
      → IsShared start limit (record { execution = e'; loops = set r.loops i l' })
  replace-IsShared r i l l' e' at h moved grown kept fit = record {
    accounted = omega (arith, sum-set r.loops i l l' at, h.accounted);
    fits = All-set (Fits e') r.loops i l' (All-map (λ k f. omega arith) r.loops h.fits) fit;
    limit_kept = kept ∙ h.limit_kept;
  }

  charge-IsShared :
      (r : Run) (i : ℕ) (l : ToolLoopBudget) (price : Option ℕ)
      → get_elem? r.loops i ≡ some l
      → IsShared start limit r
      → let (_, e', l') = charge pacing r.execution l price in
        IsShared start limit (record { execution = e'; loops = set r.loops i l' })
  unfolding charge
  charge-IsShared r i l none at h =
      replace-IsShared r i l l r.execution at h refl (omega arith) refl
        (All-get (Fits r.execution) r.loops i l at h.fits)
  charge-IsShared r i l (some cost) at h =
      let fit = All-get (Fits r.execution) r.loops i l at h.fits in
      rw charged (replace-IsShared r i l _ _ at h (omega arith) (omega arith) refl (omega arith))

  Step-IsShared : {r u : Run} → Step pacing r u → IsShared start limit r → IsShared start limit u
  unfolding new_loop land
  Step-IsShared (opens none e) h = rw e (record {
    accounted = omega (arith, h.accounted);
    fits = (omega arith, h.fits);
    limit_kept = h.limit_kept;
  })
  Step-IsShared (opens (some usd) e) h = rw e (record {
    accounted = omega (arith, h.accounted);
    fits = (omega arith, h.fits);
    limit_kept = h.limit_kept;
  })
  Step-IsShared (charges i l price at e) h = rw e (charge-IsShared _ i l price at h)
  Step-IsShared {r} (lands i l at e) h = rw e (
      replace-IsShared r i l (land l) r.execution at h refl (omega arith) refl
        (All-get (Fits r.execution) r.loops i l at h.fits))

  -- In every interleaving of loops that open, charge and land on one execution, raising charges
  -- included, the execution's spend is its starting spend plus what the loops have spent, no
  -- loop's peak is above the execution's, and every loop's limit is within the execution's, which
  -- does not move.
  pub Steps-IsShared :
      {r u : Run} → Steps pacing r u → IsShared start limit r → IsShared start limit u
  Steps-IsShared rest h = h
  Steps-IsShared (then_step ss s) h = Step-IsShared s (Steps-IsShared ss h)
